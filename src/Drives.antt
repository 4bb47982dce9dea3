-- ===== src/Drives.antt =====
-- internal/core/drive/service.go: creation, the life of a drive, and the lists.
pub mod Rows
pub mod Life
use mdrive.Prelude.{
  ℕ, Bool, true, false, not, Option, none, some, List, Text, no_text, if◌then◌else◌,
}
use mdrive.Errorx.{Kind}
use mdrive.Result.{ok}
use mdrive.Crypto.{Cipher}
use mdrive.World.Tables.{Provider, Drive, Storage}
use mdrive.World.Action.{Action, pure, raise, raise_if, ◌>>=◌, ◌>>◌, draw_now, wrap_as}
use mdrive.World.Tx.{with_tx}
use mdrive.NodeOp.Create.{create_directory}
use mdrive.Users.{user_exists, draw_ulid}
use mdrive.Drives.Rows.{
  get_drive, create_rows, update_drive, soft_delete, clear_deleted_at, delete_rows, find_by_owner,
  find_deleted_by_owner, find_deleted,
}

-- StorageConfig
pub record StorageConfig : Type 0 where
  pub bucket : Text
  pub endpoint : Option Text
  pub region : Text
  pub access_key : Text
  pub secret_key : Text
  pub use_path_style : Bool

-- storageCfgValid
unfoldable pub storage_cfg_valid : StorageConfig → Action (Unit {0})
storage_cfg_valid cfg = do
  raise_if (no_text cfg.bucket) Kind.invalid_argument
  raise_if (no_text cfg.region) Kind.invalid_argument

abbrev text_or_none : Text → Option Text
text_or_none s = if no_text s then none else some s

abbrev new_storage : Text → StorageConfig → Storage
new_storage id cfg = record {
  drive_id = id;
  bucket = cfg.bucket;
  endpoint = cfg.endpoint;
  region = cfg.region;
  access_key = cfg.access_key;
  secret_key = cfg.secret_key;
  use_path_style = cfg.use_path_style;
}

-- The transaction of Create.
unfoldable pub create_body : Cipher → Drive → Storage → Action Drive
unfolding create_rows update_drive
create_body c d s = do
  wrap_as Kind.unavailable (create_rows c d s)
  wrap_as Kind.unavailable (update_drive d)

-- Create; CreateRootDirectory of internal/app/app.go is CreateDirectory.
unfoldable pub create_drive : Cipher → Text → Text → Text → StorageConfig → Action (Drive × ℕ)
unfolding storage_cfg_valid user_exists draw_ulid draw_now create_directory create_body
create_drive c actor name description cfg = do
  raise_if (no_text name) Kind.invalid_argument
  raise_if (no_text actor) Kind.invalid_argument
  storage_cfg_valid cfg
  exists ← wrap_as Kind.unavailable (user_exists actor)
  raise_if (not exists) Kind.permission_denied
  id ← draw_ulid
  now ← draw_now
  root ← wrap_as Kind.unavailable create_directory
  later ← draw_now
  let d : Drive = record {
    id = id;
    public_id = id;
    name = name;
    description = text_or_none description;
    provider = Provider.s3;
    owner_id = actor;
    root_node_id = some root.id;
    deleted_at = none;
    created_at = now;
    updated_at = later;
  }
  updated ← wrap_as Kind.unavailable (with_tx (create_body c d (new_storage id cfg)))
  pure (updated, root.id)

-- Update: an empty text keeps the old value.
unfoldable pub update_details : Text → Text → Text → Action Drive
unfolding get_drive draw_now update_drive
update_details id name description = do
  d ← get_drive id
  now ← draw_now
  update_drive (record d {
    name = if no_text name then d.name else name;
    description = if no_text description then d.description else some description;
    updated_at = now;
  })

-- Delete
unfoldable pub delete_drive : Text → Action (Unit {0})
unfolding get_drive soft_delete
delete_drive id = do _ ← get_drive id; soft_delete id

-- Restore
abbrev if_deleted : Option ℕ → Action (Unit {0})
if_deleted none = raise Kind.failed_precondition
if_deleted (some t) = pure tt

unfoldable pub restore : Text → Action Drive
unfolding get_drive clear_deleted_at
restore id = do d ← get_drive id; if_deleted d.deleted_at; clear_deleted_at id; get_drive id

-- Purge
unfoldable pub purge : Text → Action (Unit {0})
unfolding delete_rows
purge id = delete_rows id

-- ListByOwner, ListDeletedByOwner and ListDeletedForAdmin.
unfoldable pub list_by_owner : Text → Action (List Drive)
unfolding find_by_owner
list_by_owner actor = find_by_owner actor

unfoldable pub list_deleted_by_owner : Text → Action (List Drive)
unfolding find_deleted_by_owner
list_deleted_by_owner actor = find_deleted_by_owner actor

unfoldable pub list_deleted_for_admin : Bool → ℕ → ℕ → Action (List Drive)
unfolding find_deleted
list_deleted_for_admin is_admin before n = do
  raise_if (not is_admin) Kind.permission_denied
  find_deleted before n
