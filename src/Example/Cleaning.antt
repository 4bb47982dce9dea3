-- ===== src/Example/Cleaning.antt =====
-- Tombstones of a bucket with a storage, cleaned up.
use mdrive.Prelude.{
  ◌≡◌, refl, Bool, true, not, ◌&&◌, List, [], ◌∷◌, Text, codes, ◌=s=◌, if◌then◌else◌,
}
use mathlib.Core.List.Perm
use mdrive.Errorx.{Kind}
use mdrive.Result.{ok, err}
use mdrive.Upload.Store.{Head, S3Cloud}
use mdrive.World.Rows.{find}
use mdrive.Drives.Rows.{limit}
use mdrive.Outside.{Site}
use mdrive.Gc.Tombstones.{TombstoneGroup, by_bucket, oldest_first}
use mdrive.Gc.{clean_tombstones}
use mdrive.Gc.Objects.{has_key, is_named, IsStore}
use mdrive.Gc.Cleared.{is_among, oldest, cleared_of, clean_tombstones-cleared}
use mdrive.Example.Fixture.{quiet}
use mdrive.Example.Paths.{world}
use mdrive.Example.Garbage.{its_storage}

-- A store whose state tells which objects there are.
abbrev Objects : Type 0
Objects = Text → Text → Bool

abbrev without_keys : Text → List Text → Objects → Objects
without_keys bucket keys s other key = not ((bucket =s= other) && has_key keys key) && s other key

abbrev store : S3Cloud
store = record {
  State = Objects;
  head_object = λ cfg t bucket key s. if s bucket key then Head.found else Head.not_found;
  delete_object = λ cfg t bucket key s. (ok tt, without_keys bucket (key ∷ []) s);
  delete_objects = λ cfg t bucket keys s.
      if t.fails then (err Kind.unknown, s) else (ok [], without_keys bucket keys s);
  presign_put = λ cfg t bucket key expiry. ok key;
  presign_get = λ cfg t bucket key expiry. ok key;
}

store-IsStore : IsStore store
store-IsStore = record {
  has = λ s bucket key. s bucket key;
  delete-ok = λ cfg t bucket keys s quiet few. rw quiet refl;
  delete-has = λ cfg t bucket keys s other key quiet few. rw quiet refl;
}

abbrev littered : Site Objects
littered = record {
  world = record world {
    committed = record world.committed {
      storages = its_storage ∷ [];
      tombstones =
          record { id = 1; bucket = codes "b"; key = codes "k"; create_time = 9 }
          ∷ record { id = 2; bucket = codes "b"; key = codes "l"; create_time = 5 }
          ∷ [];
    };
  };
  servers = λ bucket key. true;
}

abbrev in_order : List TombstoneGroup → List TombstoneGroup
in_order groups = groups

clean_tombstones-cleared_example :
    ((clean_tombstones store in_order quiet littered).0 ≡ ok tt)
    × ((clean_tombstones store in_order quiet littered).1.world.committed
        ≡ cleared_of (is_among (oldest littered.world.committed)) littered.world.committed)
    × ((bucket key : Text)
        → (clean_tombstones store in_order quiet littered).1.servers bucket key
          ≡ (not (is_named (oldest littered.world.committed) bucket key) && true))
unfolding by_bucket limit oldest_first find ◌=s=◌ clean_tombstones store-IsStore
clean_tombstones-cleared_example =
    clean_tombstones-cleared store store-IsStore in_order quiet littered
      (λ groups. Perm.refl groups) (λ t. refl) ((its_storage, refl, refl), tt)
