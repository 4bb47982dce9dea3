-- ===== src/Vfs/Make.antt =====
-- internal/vfs: mkdir.go, touch.go, ln.go, mount.go and write.go: the operations that add a name.
pub mod Outcome
use mdrive.Prelude.{
  Bool, true, false, not, ◌||◌, Option, none, some, [], Text, ◌=s=◌, if◌then◌else◌, ℕ, ℤ,
}
use mdrive.Errorx.{Kind}
use mdrive.Result.{Result, ok, err}
use mdrive.Node.Content.{ObjectContent}
use mdrive.Node.Inode.{Node, Stamp, is_dir, is_file, is_mount, is_symlink}
use mdrive.Node.Typed.{Seed, new_file, write_file, new_symlink, new_object, new_mount, read_mount}
use mdrive.Node.Dir.{new_directory}
use mdrive.World.Action.{Action, pure, raise, raise_if, lift, ◌>>=◌, ◌>>◌, draw_seed, draw_stamp}
use mdrive.NodeOp.Create.{save_node}
use mdrive.NodeOp.Link.{link}
use mdrive.NodeOp.Unlink.{unlink}
use mdrive.Vfs.Resolve.{Cache, WalkResult, no_cache, resolve_path}
use mdrive.Drives.Rows.{get_drive}
use mdrive.Vfs.Service.{root_or_gone, get_root_node_id, resolve_parent, resolve_editable_parent}

-- What Mkdir, Touch, Symlink, Mount and WriteLarge share: the parent, a new node, a Link.
unfoldable pub make_at : (Seed → Result Node) → Node × Text → Action Node
unfolding draw_seed link
make_at factory (parent, name) = do
  sd ← draw_seed
  n ← lift (factory sd)
  (_, n') ← link (some parent) name (some n)
  pure n'

unfoldable pub link_new : (Seed → Result Node) → Text → Text → Action Node
unfolding resolve_editable_parent make_at
link_new factory drive_id path = resolve_editable_parent drive_id path >>= make_at factory

-- Mkdir
unfoldable pub mkdir : Text → Text → Action Node
unfolding link_new new_directory
mkdir drive_id path = link_new new_directory drive_id path

-- Touch
unfoldable pub touch : Text → Text → Action Node
unfolding link_new new_file
touch drive_id path = link_new (λ sd. new_file sd []) drive_id path

-- Symlink
unfoldable pub symlink : Text → Text → Text → Action Node
unfolding link_new new_symlink
symlink drive_id target link_path = link_new (λ sd. new_symlink sd target) drive_id link_path

-- WriteLarge
unfoldable pub write_large : Text → Text → ObjectContent → ℤ → Action (Unit {0})
unfolding link_new new_object
write_large drive_id path obj size = do
  link_new (λ sd. new_object sd obj size) drive_id path
  pure tt

-- Mount
abbrev pub is_there : {A : Type 0} → Option A → Bool
is_there none = false
is_there (some a) = true

unfoldable pub mount : Text → Text → Text → Action (Unit {0})
unfolding get_drive link_new new_mount ◌=s=◌
mount drive_id mount_path source = do
  raise_if (drive_id =s= source) Kind.invalid_argument
  src ← get_drive source
  root_or_gone src.root_node_id
  raise_if (is_there src.deleted_at) Kind.failed_precondition
  link_new (λ sd. new_mount sd source) drive_id mount_path
  pure tt

-- Hardlink
unfoldable pub hardlink : Text → Text → Text → Action Node
unfolding get_root_node_id resolve_path resolve_parent is_dir is_mount is_symlink link
hardlink drive_id src_path link_path = do
  root_id ← get_root_node_id drive_id
  (out, c) ← resolve_path root_id src_path true no_cache
  let src = out.node
  raise_if (is_dir src || (is_mount src || is_symlink src)) Kind.invalid_argument
  (parent, name, _) ← resolve_parent root_id link_path c
  raise_if (not (is_dir parent)) Kind.invalid_argument
  (_, src') ← link (some parent) name (some src)
  pure src'

-- Unmount
unfoldable pub unmount : Text → Text → Action (Unit {0})
unfolding get_root_node_id resolve_path resolve_parent is_mount read_mount unlink
unmount drive_id mount_path = do
  root_id ← get_root_node_id drive_id
  (out, c) ← resolve_path root_id mount_path true no_cache
  raise_if (not (is_mount out.node)) Kind.failed_precondition
  _ ← lift (read_mount out.node)
  (parent, name, _) ← resolve_parent root_id mount_path c
  unlink (some parent) name
  pure tt

-- Write: what is there is overwritten, and after any error of the resolution a file is made.
abbrev pub overwrite : Text → Node → Action (Unit {0})
overwrite content n = do
  raise_if (not (is_file n)) Kind.failed_precondition
  st ← draw_stamp
  n' ← lift (write_file st content n)
  save_node (some n')
  pure tt

abbrev pub write_new : ℕ → Text → Text → Cache → Action (Unit {0})
write_new root_id path content cache = do
  (parent, name, _) ← resolve_parent root_id path cache
  sd ← draw_seed
  f ← lift (new_file sd content)
  link (some parent) name (some f)
  pure tt

-- The resolver of a resolution that failed has cached committed rows only: a new one, which loads them
-- again, stands for it.
abbrev pub write_at : ℕ → Text → Text → Result (WalkResult × Cache) → Action (Unit {0})
write_at root_id path content (ok (out, c)) = overwrite content out.node
write_at root_id path content (err k) = write_new root_id path content no_cache

unfoldable pub write : Text → Text → Text → Action (Unit {0})
unfolding get_root_node_id resolve_path resolve_parent is_file write_file save_node draw_stamp
    draw_seed new_file link
write drive_id path content = do
  root_id ← get_root_node_id drive_id
  λ e w.
      let (r, w') = resolve_path root_id path true no_cache e w in
      write_at root_id path content r e w'
