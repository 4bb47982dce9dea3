-- ===== src/Example/Garbage.antt =====
-- The jobs of the garbage collector, and the registry on a key server.
use mdrive.Prelude.{
  ◌<◌, ℕ, ◌+◌, ◌*◌, ◌/◌, ◌≡◌, ◌≤◌, refl, false, Option, none, some, List, [], ◌∷◌, ◌++◌, Text,
  codes, leb, leb→le, ◌=s=◌, if◌then◌else◌, arith, Bool-cases, inl, inr,
}
use mdrive.Errorx.{Kind}
use mdrive.Result.{Result, ok, err}
use mdrive.Crypto.{Cipher, IsLawful}
use mdrive.World.Tables.{Storage, Drive}
use mdrive.World.Rows.{find, exists_where}
use mdrive.World.Action.{World, Env}
use mdrive.Drives.Rows.{limit, create_rows, get_storage}
use mdrive.Outside.{Moment, Site}
use mdrive.Upload.Tokens.{PresignMeta, Refines}
use mdrive.Upload.Valkey.{KeyServer, IsServer, Cell, second, valkey_registry}
use mdrive.Upload.Valkey.Refinement.{valkey_registry-Refines}
use mdrive.Upload.Service.{Servers}
use mdrive.Upload.Store.{S3Cloud, Head}
use mdrive.Gc.Tombstones.{TombstoneGroup, by_bucket, oldest_first, find_storage_by_bucket}
use mdrive.Gc.{expire_uploads, purge_drives, clean_tombstones}
use mdrive.Gc.Expirer.{expire_uploads-spares}
use mdrive.Gc.Purger.{Kept, purge_drives-Kept}
use mdrive.Gc.Cleaner.{batch, clean_tombstones-Unchanged}
use mdrive.Gc.Secrets.{config_of, find_storage_by_bucket-create_rows}
use mdrive.Example.Fixture.{quiet}
use mdrive.Example.Paths.{world, drive}
use mdrive.Example.Uploads.{full_store}

-- A key server whose state is a table of cells.
abbrev Cells : Type 0
Cells = Text → Option Cell

abbrev with_cell : Text → Option Cell → Cells → Cells
with_cell key x cells other = if key =s= other then x else cells other

abbrev live : Moment → Option Cell → Option (Option PresignMeta)
live t none = none
live t (some x) = if leb t.now x.deadline then some x.value else none

abbrev key_server : KeyServer
key_server = record {
  State = Cells;
  set = λ t key v secs cells. if t.fails then (err Kind.unknown, cells) else (
    ok tt,
    with_cell key (some (record { value = v; deadline = t.now + secs * second })) cells,
  );
  get = λ t key cells. (if t.fails then err Kind.unknown else ok (live t (cells key)), cells);
  del = λ t key cells.
      if t.fails then (err Kind.unknown, cells) else (ok tt, with_cell key none cells);
  scan = λ t cursor pattern cells. (ok (codes "mdrive:upload:t" ∷ [], 0), cells);
}

live_ok :
    (t : Moment) (key : Text) (s : Cells) (x : Cell)
    → t.fails ≡ false
    → s key ≡ some x
    → t.now ≤ x.deadline
    → (key_server.get t key s).0 ≡ ok (some x.value)
live_ok t key s x alive there fresh = rw (alive, there) (ground arith)

answered :
    (t : Moment) (o : Option (Option PresignMeta)) (v : Option PresignMeta)
    → (if t.fails then err Kind.unknown else ok o) ≡ ok (some v)
    → o ≡ some v
answered t o v h = elim (Bool-cases t.fails) [
  | inl bad ↦ absurd (ground (arith, bad))
  | inr good ↦ ground (arith, good)
]

live-some :
    (t : Moment) (o : Option Cell) (v : Option PresignMeta)
    → live t o ≡ some v
    → (x : Cell) × (o ≡ some x) × (x.value ≡ v) × (t.now ≤ x.deadline)
live-some t none v h = absurd (ground arith)
live-some t (some x) v h = elim (Bool-cases (leb t.now x.deadline)) [
  | inl fresh ↦ (x, refl, ground (arith, fresh), leb→le t.now x.deadline fresh)
  | inr late ↦ absurd (ground (arith, late))
]

key_server-IsServer : IsServer key_server
key_server-IsServer = record {
  cell = λ cells key. cells key;
  set-ok = λ t key v secs s other h. ground arith;
  set-err = λ t key v secs s other k h. ground arith;
  get-live = λ t key s x alive there fresh. live_ok t key s x alive there fresh;
  get-ok = λ t key s v h.
      let (x, there, is, fresh) = live-some t (s key) v (answered t (live t (s key)) v h) in
      (x, there, is, fresh, there);
  del-ok = λ t key other s h. ground arith;
}

valkey_registry-Refines_example :
    Refines (valkey_registry key_server) (λ ttl. ttl / second * second)
valkey_registry-Refines_example = valkey_registry-Refines key_server key_server-IsServer

-- A token that expired long ago, on a clock that stands still.
abbrev expired : PresignMeta
expired = record {
  upload_id = codes "t";
  drive_id = codes "d";
  user_id = codes "u";
  path = codes "/e";
  bucket = codes "b";
  key = codes "k";
  content_type = none;
  size = none;
  expires_at = 3;
}

abbrev frozen : Env
frozen = record quiet { now = λ t. 100 }

abbrev abandoned : Site (Servers (valkey_registry key_server) full_store)
unfolding valkey_registry
abandoned = record {
  world = world;
  servers = record {
    tokens =
        with_cell (codes "mdrive:upload:t")
          (some (record { value = some expired; deadline = 1000 })) (λ key. none);
    objects = [];
  };
}

expire_uploads-spares_example :
    let s' = (expire_uploads (valkey_registry key_server) full_store 9 frozen abandoned).1 in
    (s'.servers.objects ≡ []) × (s'.world.committed ≡ world.committed)
unfolding abandoned
expire_uploads-spares_example =
    expire_uploads-spares key_server full_store frozen (λ t. omega arith) 9 abandoned

-- A drive that was deleted at the time 90 and another long ago, and a run at 100 that keeps them for 50.
abbrev deleted : Site (Unit {0})
deleted = record {
  world = record world {
    committed = record world.committed {
      drives =
          record drive { deleted_at = some 90 }
          ∷ record drive { id = codes "x"; deleted_at = some 10 }
          ∷ [];
    };
  };
  servers = tt;
}

young : codes "d" ≡ codes "d" → (t : ℕ) → some 90 ≡ some t → 50 < t
young same t h = ground arith

other_id : codes "x" ≡ codes "d" → (t : ℕ) → some 10 ≡ some t → 50 < t
other_id same t h = absurd (ground arith)

purge_drives-Kept_example : Kept (codes "d") deleted.world (purge_drives 50 quiet deleted).1.world
unfolding exists_where ◌=s=◌
purge_drives-Kept_example =
    purge_drives-Kept 50 (codes "d") quiet deleted refl (young, (other_id, tt))

abbrev pub cloud : S3Cloud
cloud = record {
  State = List Text;
  head_object = λ cfg t bucket key s. Head.found;
  delete_object = λ cfg t bucket key s. (ok tt, key ∷ s);
  delete_objects = λ cfg t bucket keys s. (ok [], keys ++ s);
  presign_put = λ cfg t bucket key expiry. ok key;
  presign_get = λ cfg t bucket key expiry. ok key;
}

-- A tombstone in a bucket that no storage has.
abbrev orphaned : Site (List Text)
orphaned = record {
  world = record world {
    committed = record world.committed {
      tombstones = record { id = 1; bucket = codes "gone"; key = codes "k"; create_time = 5 } ∷ [];
    };
  };
  servers = [];
}

clean_tombstones-Unchanged_example :
    let s' = (clean_tombstones cloud (λ gs. gs) quiet orphaned).1 in
    let visit : List TombstoneGroup → List TombstoneGroup = λ gs. gs in
    (s'.world.committed ≡ orphaned.world.committed)
    × (s'.servers ≡ [])
    × (batch visit s'.world.committed ≡ batch visit orphaned.world.committed)
unfolding by_bucket limit oldest_first find
clean_tombstones-Unchanged_example =
    clean_tombstones-Unchanged cloud (λ gs. gs) quiet orphaned (refl, tt)

-- A cipher that writes its nonce in front.
abbrev nonce_first : Cipher
nonce_first = record {
  encrypt = λ nonce plain. ok (nonce ∷ plain);
  decrypt = λ cipher. elim cipher [ [] ↦ err Kind.unknown | n ∷ plain ↦ ok plain ];
}

nonce_first-IsLawful : IsLawful nonce_first
nonce_first-IsLawful = record {
  decrypt-encrypt = λ nonce plain cipher h. opened nonce plain cipher h;
}
  where
    opened :
        (nonce : ℕ) (plain cipher : Text)
        → ok (nonce ∷ plain) ≡ ok cipher
        → nonce_first.decrypt cipher ≡ ok plain
    opened nonce plain [] h = absurd (ground arith)
    opened nonce plain (n ∷ cipher) h = ground arith

abbrev new_drive : Drive
new_drive = record drive { id = codes "x"; public_id = codes "y" }

abbrev pub its_storage : Storage
its_storage = record {
  drive_id = codes "x";
  bucket = codes "b";
  endpoint = none;
  region = codes "r";
  access_key = codes "a";
  secret_key = codes "s";
  use_path_style = false;
}

unfoldable created : Result (Unit {0}) × World
unfolding create_rows
created = create_rows nonce_first new_drive its_storage quiet world

find_storage_by_bucket-create_rows_example :
    (nonce : ℕ) × (secret : Text) × (ok (nonce ∷ codes "s") ≡ ok secret)
    × ((get_storage nonce_first (codes "x") quiet created.1).0 ≡ ok its_storage)
    × ((find_storage_by_bucket (codes "b") quiet created.1).0 ≡ ok (config_of its_storage secret))
unfolding created create_rows ◌=s=◌
find_storage_by_bucket-create_rows_example =
    find_storage_by_bucket-create_rows nonce_first nonce_first-IsLawful new_drive its_storage tt
      quiet world created.1 created.1 refl refl refl refl refl
