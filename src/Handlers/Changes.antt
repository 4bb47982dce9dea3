-- ===== src/Handlers/Changes.antt =====
-- internal/app/apiserver/handler/fs.go: the handlers of the requests that change a drive's files. Each
-- asks for the permission to edit the drive itself, before it calls the file system. Answers and logs
-- are left out. The fuel of the handler of rm is that of Rm.
use mdrive.Prelude.{ℕ, Bool, false, Option, none, some, List, [], Text, ℤ}
use mdrive.Node.Content.{ObjectContent}
use mdrive.Vfs.Make.{mount, mkdir, touch, symlink, write_large, hardlink, unmount, write}
use mdrive.Vfs.Remove.{rm_all}
use mdrive.Vfs.Transfer.{mv}
use mdrive.Handlers.Requests.{Change}
use mdrive.Handlers.{require_perm}
use mdrive.Permission.{Permission, FgaClient}
use mdrive.Auth.{Session}
use mdrive.Outside.{Call, pure, db, ◌>>=◌, ◌>>◌}

abbrev recursive_val : Option Bool → Bool
recursive_val none = false
recursive_val (some b) = b

abbrev text_val : Option Text → Text
text_val none = []
text_val (some s) = s

-- The object of a WriteLarge request, whose content type and checksum may be missing.
abbrev large_object : Text → Text → Option Text → Option Text → ObjectContent
large_object bucket key content_type checksum = record {
  bucket = bucket;
  key = key;
  mime = text_val content_type;
  checksum = text_val checksum;
}

module _ {S : Type 0} (F : FgaClient) (session : Option Session) where
  -- Mkdir
  unfoldable pub mkdir_handler : Text → Text → Call S (Unit {0})
  unfolding require_perm mkdir
  mkdir_handler drive_id path = do
    require_perm F session Permission.edit drive_id
    _ ← db (mkdir drive_id path)
    pure tt

  -- Touch
  unfoldable pub touch_handler : Text → Text → Call S (Unit {0})
  unfolding require_perm touch
  touch_handler drive_id path = do
    require_perm F session Permission.edit drive_id
    _ ← db (touch drive_id path)
    pure tt

  -- Rm
  unfoldable pub rm_handler : ℕ → Text → List Text → Option Bool → Call S (Unit {0})
  unfolding require_perm rm_all
  rm_handler fuel drive_id paths recursive = do
    require_perm F session Permission.edit drive_id
    db (rm_all fuel drive_id paths (recursive_val recursive))

  -- Mv
  unfoldable pub mv_handler : Text → List Text → Text → Call S (Unit {0})
  unfolding require_perm mv
  mv_handler drive_id sources destination = do
    require_perm F session Permission.edit drive_id
    db (mv drive_id sources drive_id destination)

  -- Write
  unfoldable pub write_handler : Text → Text → Text → Call S (Unit {0})
  unfolding require_perm write
  write_handler drive_id path content = do
    require_perm F session Permission.edit drive_id
    db (write drive_id path content)

  -- WriteLarge
  unfoldable pub write_large_handler :
      Text → Text → Text → Text → Option Text → Option Text → ℤ → Call S (Unit {0})
  unfolding require_perm write_large
  write_large_handler drive_id path bucket key content_type checksum size = do
    require_perm F session Permission.edit drive_id
    db (write_large drive_id path (large_object bucket key content_type checksum) size)

  -- Symlink
  unfoldable pub symlink_handler : Text → Text → Text → Call S (Unit {0})
  unfolding require_perm symlink
  symlink_handler drive_id target link_path = do
    require_perm F session Permission.edit drive_id
    _ ← db (symlink drive_id target link_path)
    pure tt

  -- Hardlink
  unfoldable pub hardlink_handler : Text → Text → Text → Call S (Unit {0})
  unfolding require_perm hardlink
  hardlink_handler drive_id src_path link_path = do
    require_perm F session Permission.edit drive_id
    _ ← db (hardlink drive_id src_path link_path)
    pure tt

  -- Mount
  unfoldable pub mount_handler : Text → Text → Text → Call S (Unit {0})
  unfolding require_perm mount
  mount_handler drive_id mount_path source = do
    require_perm F session Permission.edit drive_id
    require_perm F session Permission.view source
    db (mount drive_id mount_path source)

  -- Unmount
  unfoldable pub unmount_handler : Text → Text → Call S (Unit {0})
  unfolding require_perm unmount
  unmount_handler drive_id mount_path = do
    require_perm F session Permission.edit drive_id
    db (unmount drive_id mount_path)

  -- The handler of each request, to state what the ten have in common.
  unfoldable pub serve : ℕ → Text → Change → Call S (Unit {0})
  unfolding mkdir_handler touch_handler rm_handler mv_handler write_handler write_large_handler
      symlink_handler hardlink_handler mount_handler unmount_handler
  serve fuel drive_id (Change.mkdir path) = mkdir_handler drive_id path
  serve fuel drive_id (Change.touch path) = touch_handler drive_id path
  serve fuel drive_id (Change.rm paths recursive) = rm_handler fuel drive_id paths recursive
  serve fuel drive_id (Change.mv sources destination) = mv_handler drive_id sources destination
  serve fuel drive_id (Change.write path content) = write_handler drive_id path content
  serve fuel drive_id (Change.write_large path bucket key content_type checksum size) =
      write_large_handler drive_id path bucket key content_type checksum size
  serve fuel drive_id (Change.symlink target link_path) = symlink_handler drive_id target link_path
  serve fuel drive_id (Change.hardlink src_path link_path) =
      hardlink_handler drive_id src_path link_path
  serve fuel drive_id (Change.mount mount_path source) = mount_handler drive_id mount_path source
  serve fuel drive_id (Change.unmount mount_path) = unmount_handler drive_id mount_path
