-- ===== src/Handlers/DriveOps.antt =====
-- internal/app/apiserver/handler: drive.go, user.go and auth.go.
use mdrive.Prelude.{
  map, Bool, true, false, not, Option, none, some, List, [], Text, no_text, if◌then◌else◌,
}
use mdrive.Errorx.{Kind}
use mdrive.Crypto.{Cipher}
use mdrive.World.Tables.{Storage}
use mdrive.World.Action.{draw_now}
use mdrive.Drives.{
  StorageConfig, create_drive, update_details, delete_drive, restore, list_by_owner,
  list_deleted_for_admin,
}
use mdrive.Drives.Rows.{get_drive, get_storage}
use mdrive.Users.{CreateCommand, get_user, upsert}
use mdrive.Permission.{Permission, FgaClient}
use mdrive.Auth.{Session, user_id_from_context, is_admin}
use mdrive.Outside.{Call, pure, raise_if, wrap_as, db, ◌>>=◌, ◌>>◌}
use mdrive.Handlers.Answers.{ApiDrive, ApiUser, drive_to_api, user_to_api}
use mdrive.Handlers.{require_perm}

-- api.StorageConfig, with an optional field none where it is not set.
pub record ApiStorage : Type 0 where
  pub bucket : Text
  pub region : Text
  pub endpoint : Option Text
  pub access_key : Option Text
  pub secret_key : Option Text
  pub use_path_style : Option Bool

abbrev value_or_empty : Option Text → Text
value_or_empty none = []
value_or_empty (some s) = s

abbrev true_if_set : Option Bool → Bool
true_if_set none = false
true_if_set (some b) = b

abbrev some_if_text : Text → Option Text
some_if_text s = if no_text s then none else some s

-- storageConfigFromAPI
unfoldable pub storage_config_from_api : ApiStorage → StorageConfig
storage_config_from_api s = record {
  bucket = s.bucket;
  endpoint = some_if_text (value_or_empty s.endpoint);
  region = s.region;
  access_key = value_or_empty s.access_key;
  secret_key = value_or_empty s.secret_key;
  use_path_style = true_if_set s.use_path_style;
}

-- What GetDriveStorage returns of a storage: the keys are not set.
unfoldable pub storage_to_api : Storage → ApiStorage
storage_to_api s = record {
  bucket = s.bucket;
  region = s.region;
  endpoint = s.endpoint;
  access_key = none;
  secret_key = none;
  use_path_style = some s.use_path_style;
}

abbrev config_or_default : StorageConfig → Option ApiStorage → StorageConfig
unfolding storage_config_from_api
config_or_default default none = default
config_or_default default (some s) = storage_config_from_api s

module _ {S : Type 0} (F : FgaClient) (session : Option Session) where
  -- CreateDrive
  unfoldable pub create_own_drive :
      Cipher → StorageConfig → Text → Option Text → Option ApiStorage → Call S ApiDrive
  unfolding create_drive config_or_default storage_config_from_api drive_to_api
  create_own_drive c default name description storage = do
    (d, _) ← db (
        create_drive c (user_id_from_context session) name (value_or_empty description)
          (config_or_default default storage))
    pure (drive_to_api d)

  -- GetDrive, UpdateDrive and DeleteDrive
  unfoldable pub show_drive : Text → Call S ApiDrive
  unfolding require_perm get_drive drive_to_api
  show_drive id = do
    require_perm F session Permission.view id
    d ← db (get_drive id)
    pure (drive_to_api d)

  unfoldable pub edit_drive : Text → Option Text → Option Text → Call S ApiDrive
  unfolding require_perm update_details drive_to_api
  edit_drive id name description = do
    require_perm F session Permission.edit id
    d ← db (update_details id (value_or_empty name) (value_or_empty description))
    pure (drive_to_api d)

  unfoldable pub drop_drive : Text → Call S (Unit {0})
  unfolding require_perm delete_drive
  drop_drive id = do require_perm F session Permission.edit id; db (delete_drive id)

  -- RestoreDrive and ListDeletedDrives
  unfoldable pub restore_drive : Text → Call S ApiDrive
  unfolding restore drive_to_api
  restore_drive id = do
    raise_if (not (is_admin session)) Kind.permission_denied
    d ← db (restore id)
    pure (drive_to_api d)

  unfoldable pub list_deleted_drives : Call S (List ApiDrive)
  unfolding list_deleted_for_admin draw_now drive_to_api
  list_deleted_drives = do
    raise_if (not (is_admin session)) Kind.permission_denied
    now ← db draw_now
    drives ← db (list_deleted_for_admin true now 1000)
    pure (map drive_to_api drives)

  -- GetDriveStorage
  unfoldable pub show_storage : Cipher → Text → Call S ApiStorage
  unfolding require_perm get_storage storage_to_api
  show_storage c id = do
    require_perm F session Permission.view id
    s ← db (get_storage c id)
    pure (storage_to_api s)

  -- ListDrives
  unfoldable pub list_drives : Call S (List ApiDrive)
  unfolding list_by_owner drive_to_api
  list_drives = do
    drives ← db (list_by_owner (user_id_from_context session))
    pure (map drive_to_api drives)

  -- UpsertUser and GetUser
  unfoldable pub upsert_user : CreateCommand → Call S (Unit {0})
  unfolding upsert
  upsert_user cmd = do _ ← db (upsert cmd); pure tt

  unfoldable pub show_user : Call S ApiUser
  unfolding get_user user_to_api
  show_user = do u ← db (get_user (user_id_from_context session)); pure (user_to_api u)

  -- AuthMe
  unfoldable pub auth_me : Call S ApiUser
  unfolding get_user user_to_api
  auth_me = do
    raise_if (no_text (user_id_from_context session)) Kind.unauthenticated
    u ← wrap_as Kind.unavailable (db (get_user (user_id_from_context session)))
    pure (user_to_api u)
