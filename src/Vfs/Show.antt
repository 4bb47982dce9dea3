-- ===== src/Vfs/Show.antt =====
-- internal/vfs: ls.go, cat.go and stat.go.
use mdrive.Prelude.{List, Text, not, if◌then◌else◌}
use mdrive.Errorx.{Kind}
use mdrive.Node.Content.{DirEntry}
use mdrive.Node.Inode.{Node, is_dir, is_file, is_object}
use mdrive.Node.Typed.{read_file}
use mdrive.Node.Dir.{read_dir}
use mdrive.World.Action.{Action, pure, raise, raise_if, lift, ◌>>=◌, ◌>>◌}
use mdrive.Vfs.Service.{resolve}

-- Stat
unfoldable pub stat : Text → Text → Action Node
unfolding resolve
stat drive_id path = do res ← resolve drive_id path; pure res.node

-- Ls
unfoldable pub ls : Text → Text → Action (List DirEntry)
unfolding resolve is_dir read_dir
ls drive_id path = do
  res ← resolve drive_id path
  raise_if (not (is_dir res.node)) Kind.failed_precondition
  lift (read_dir res.node)

-- Cat
unfoldable pub cat : Text → Text → Action Text
unfolding resolve is_file is_object is_dir read_file
cat drive_id path = do
  res ← resolve drive_id path
  if is_file res.node
      then lift (read_file res.node)
      else if is_object res.node
      then raise Kind.failed_precondition
      else if is_dir res.node
      then raise Kind.invalid_argument
      else raise Kind.failed_precondition
