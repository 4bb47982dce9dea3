-- ===== src/Gc/Tombstones.antt =====
-- internal/app/gc/store.go: the tombstones of deleted objects, and storages by bucket.
use mdrive.Prelude.{
  ℕ, Bool, false, ◌||◌, Option, none, some, List, [], ◌∷◌, ◌++◌, Text, ◌==◌, leb, ◌=s=◌,
  if◌then◌else◌,
}
use mdrive.Errorx.{Kind}
use mdrive.World.Tables.{Storage, Tombstone}
use mdrive.World.Rows.{find, delete_where}
use mdrive.World.Action.{
  Action, pure, raise, ◌>>=◌, ◌>>◌, db_call, query_committed, change_committed,
}
use mdrive.Drives.Rows.{limit}
use mdrive.Upload.Store.{S3Config}

-- TombstoneGroup
pub record TombstoneGroup : Type 0 where
  pub bucket : Text
  pub keys : List Text
  pub ids : List ℕ

-- `Order(ent.Asc(create_time))`
unfoldable pub insert_by_time : Tombstone → List Tombstone → List Tombstone
insert_by_time r [] = r ∷ []
insert_by_time r (x ∷ xs) =
    if leb r.create_time x.create_time then r ∷ x ∷ xs else x ∷ insert_by_time r xs

unfoldable pub oldest_first : List Tombstone → List Tombstone
unfolding insert_by_time
oldest_first [] = []
oldest_first (r ∷ rows) = insert_by_time r (oldest_first rows)

-- `byBucket`, as the list of its groups.
unfoldable pub add_to_group : Tombstone → List TombstoneGroup → List TombstoneGroup
unfolding ◌=s=◌
add_to_group r [] = record { bucket = r.bucket; keys = r.key ∷ []; ids = r.id ∷ [] } ∷ []
add_to_group r (g ∷ groups) =
    if g.bucket =s= r.bucket
    then record g { keys = g.keys ++ r.key ∷ []; ids = g.ids ++ r.id ∷ [] } ∷ groups
    else g ∷ add_to_group r groups

unfoldable pub by_bucket : List TombstoneGroup → List Tombstone → List TombstoneGroup
unfolding add_to_group
by_bucket groups [] = groups
by_bucket groups (r ∷ rows) = by_bucket (add_to_group r groups) rows

-- QueryTombstones; `visit` is the order in which the map is ranged over.
unfoldable pub query_tombstones :
    (List TombstoneGroup → List TombstoneGroup) → ℕ → Action (List TombstoneGroup)
unfolding db_call oldest_first limit by_bucket
query_tombstones visit n = do
  db_call
  rows ← query_committed (λ db. limit n (oldest_first db.tombstones))
  pure (visit (by_bucket [] rows))

-- DeleteTombstones
abbrev pub has_one_of : List ℕ → ℕ → Bool
has_one_of [] id = false
has_one_of (x ∷ ids) id = (x == id) || has_one_of ids id

unfoldable pub delete_tombstones : List ℕ → Action (Unit {0})
unfolding db_call delete_where
delete_tombstones [] = pure tt
delete_tombstones (x ∷ ids) = do
  db_call
  change_committed
      (λ db. record db { tombstones = delete_where (λ r. has_one_of (x ∷ ids) r.id) db.tombstones })

-- FindStorageByBucket. The secret key is that of the row, as it was encrypted.
abbrev pub config_of : Option Storage → Action S3Config
config_of none = raise Kind.unknown
config_of (some s) = pure (record {
  region = s.region;
  endpoint = s.endpoint;
  access_key = s.access_key;
  secret_key = s.secret_key;
  use_path_style = s.use_path_style;
})

unfoldable pub find_storage_by_bucket : Text → Action S3Config
unfolding db_call find ◌=s=◌
find_storage_by_bucket bucket = do
  db_call
  s ← query_committed (λ db. find (λ s. s.bucket =s= bucket) db.storages)
  config_of s
