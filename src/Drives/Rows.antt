-- ===== src/Drives/Rows.antt =====
-- internal/core/drive/ent.go: the repository of drives and of their storages.
use mdrive.Prelude.{
  ℕ, zero, suc, Bool, true, false, not, ◌&&◌, ◌||◌, Option, none, some, List, [], ◌∷◌, ◌++◌, Text,
  ◌=s=◌, leb,
}
use mdrive.Errorx.{Kind}
use mdrive.Crypto.{Cipher}
use mdrive.World.Tables.{Drive, Storage}
use mdrive.World.Rows.{find, exists_where, update_where, delete_where, select}
use mdrive.World.Action.{
  Action, pure, raise, raise_if, lift, ◌>>=◌, ◌>>◌, db_call, draw_now, query, change,
}

abbrev pub has_id : Text → Drive → Bool
has_id id d = d.id =s= id

abbrev pub has_public_id : Text → Drive → Bool
has_public_id id d = d.public_id =s= id

abbrev pub stores : Text → Storage → Bool
stores drive_id s = s.drive_id =s= drive_id

-- GetByID and GetByPublicID, of the repository and of the service.
abbrev pub drive_or_gone : Option Drive → Action Drive
drive_or_gone none = raise Kind.not_found
drive_or_gone (some d) = pure d

unfoldable pub get_drive : Text → Action Drive
unfolding db_call find
get_drive id = do db_call; d ← query (λ db. find (has_id id) db.drives); drive_or_gone d

unfoldable pub get_drive_by_public_id : Text → Action Drive
unfolding db_call find
get_drive_by_public_id id = do
  db_call
  d ← query (λ db. find (has_public_id id) db.drives)
  drive_or_gone d

-- Create: the row of the drive, with the times of its insertion, then the row of the storage with the
-- secret key encrypted under a random nonce.
unfoldable pub insert_drive : Drive → Action (Unit {0})
unfolding draw_now db_call exists_where
insert_drive d = do
  now ← draw_now
  db_call
  clash ←
      query (λ db. exists_where (λ r. (r.id =s= d.id) || (r.public_id =s= d.public_id)) db.drives)
  raise_if clash Kind.unknown
  change (λ db. record db {
    drives = db.drives ++ record d { deleted_at = none; created_at = now; updated_at = now } ∷ [];
  })

unfoldable pub insert_storage : Cipher → Storage → Action (Unit {0})
unfolding draw_now db_call exists_where
insert_storage c s = do
  nonce ← draw_now
  secret ← lift (c.encrypt nonce s.secret_key)
  db_call
  clash ← query (λ db. exists_where (stores s.drive_id) db.storages)
  raise_if clash Kind.unknown
  change (λ db. record db { storages = db.storages ++ record s { secret_key = secret } ∷ [] })

unfoldable pub create_rows : Cipher → Drive → Storage → Action (Unit {0})
unfolding insert_drive insert_storage
create_rows c d s = do insert_drive d; insert_storage c s

-- GetStorage, of the repository and of the service.
abbrev pub decrypted : Cipher → Option Storage → Action Storage
decrypted c none = raise Kind.not_found
decrypted c (some s) = do
  secret ← lift (c.decrypt s.secret_key)
  pure (record s { secret_key = secret })

unfoldable pub get_storage : Cipher → Text → Action Storage
unfolding db_call find
get_storage c drive_id = do
  db_call
  s ← query (λ db. find (stores drive_id) db.storages)
  decrypted c s

-- Sets to a value if there is one.
abbrev pub or_kept : {A : Type 0} → Option A → Option A → Option A
or_kept none old = old
or_kept (some a) old = some a

-- `UpdateOneID(id). … .Save`, which also sets the time of the update; ent's error for a missing row is
-- of the kind unknown.
abbrev pub stamped : (Drive → Drive) → ℕ → Drive → Drive
stamped set now d = record (set d) { updated_at = now }

abbrev put_drive : Text → (Drive → Drive) → Option Drive → Action Drive
put_drive id set none = raise Kind.unknown
put_drive id set (some d) = do
  change (λ db. record db { drives = update_where (has_id id) set db.drives })
  pure (set d)

unfoldable pub update_one : Text → (Drive → Drive) → Action Drive
unfolding db_call draw_now find update_where
update_one id set = do
  now ← draw_now
  db_call
  d ← query (λ db. find (has_id id) db.drives)
  put_drive id (stamped set now) d

-- Update
unfoldable pub update_drive : Drive → Action Drive
unfolding update_one
update_drive d = update_one d.id (λ row. record row {
  name = d.name;
  description = or_kept d.description row.description;
  root_node_id = or_kept d.root_node_id row.root_node_id;
  deleted_at = or_kept d.deleted_at row.deleted_at;
})

-- SoftDelete
unfoldable pub soft_delete : Text → Action (Unit {0})
unfolding draw_now update_one
soft_delete id = do
  now ← draw_now
  _ ← update_one id (λ row. record row { deleted_at = some now })
  pure tt

-- Restore
unfoldable pub clear_deleted_at : Text → Action (Unit {0})
unfolding update_one
clear_deleted_at id = do _ ← update_one id (λ row. record row { deleted_at = none }); pure tt

-- Delete: the row of drive_storage, then the row of drives.
unfoldable pub delete_storage : Text → Action (Unit {0})
unfolding db_call delete_where
delete_storage id = do
  db_call
  change (λ db. record db { storages = delete_where (stores id) db.storages })

unfoldable pub delete_rows : Text → Action (Unit {0})
unfolding db_call delete_storage delete_where exists_where
delete_rows id = do
  delete_storage id
  db_call
  there ← query (λ db. exists_where (has_id id) db.drives)
  raise_if (not there) Kind.unknown
  change (λ db. record db { drives = delete_where (has_id id) db.drives })

-- FindByOwner, FindDeletedByOwner and FindDeleted.
abbrev pub is_deleted : Drive → Bool
is_deleted d = elim d.deleted_at [ none ↦ false | some t ↦ true ]

abbrev pub deleted_before : ℕ → Drive → Bool
deleted_before before d = elim d.deleted_at [ none ↦ false | some t ↦ leb t before ]

-- `Limit(n)`
unfoldable pub limit : {A : Type 0} → ℕ → List A → List A
limit zero xs = []
limit (suc n) [] = []
limit (suc n) (x ∷ xs) = x ∷ limit n xs

unfoldable pub find_by_owner : Text → Action (List Drive)
unfolding db_call select
find_by_owner owner = do
  db_call
  query (λ db. select (λ d. (d.owner_id =s= owner) && not (is_deleted d)) db.drives)

unfoldable pub find_deleted_by_owner : Text → Action (List Drive)
unfolding db_call select
find_deleted_by_owner owner = do
  db_call
  query (λ db. select (λ d. (d.owner_id =s= owner) && is_deleted d) db.drives)

unfoldable pub find_deleted : ℕ → ℕ → Action (List Drive)
unfolding db_call select limit
find_deleted before n = do db_call; query (λ db. limit n (select (deleted_before before) db.drives))
