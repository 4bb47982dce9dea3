-- ===== src/Vfs/Service.antt =====
-- internal/vfs/path.go and service.go: parents of paths, roots of drives, and the walk through mounts
pub mod Permitted
use mdrive.Prelude.{
  ℕ, zero, suc, Bool, true, false, not, Option, none, some, List, [], ◌∷◌, Text, ◌==◌, no_text,
  if◌then◌else◌,
}
use mdrive.Errorx.{Kind}
use mdrive.Node.Inode.{Node, is_dir, is_mount}
use mdrive.Node.Typed.{read_mount}
use mdrive.Node.Dir.{listed}
use mdrive.World.Action.{Action, pure, raise, raise_if, lift, ◌>>=◌, ◌>>◌}
use mdrive.Drives.Rows.{get_drive}
use mdrive.Vfs.Path.{is_slash, clean_path}
use mdrive.Vfs.Resolve.{Cache, no_cache, or_slash, resolve_path}

-- `strings.LastIndex(s, "/")`, with the texts in front of it and behind it.
unfoldable pub split_last : Text → Option (Text × Text)
split_last [] = none
split_last (c ∷ s) = elim (split_last s) [
  | some (a, b) ↦ some (c ∷ a, b)
  | none ↦ if is_slash c then some ([], s) else none
]

-- resolveParent
abbrev pub last_or_invalid : Option (Text × Text) → Action (Text × Text)
last_or_invalid none = raise Kind.invalid_argument
last_or_invalid (some (a, b)) = pure (a, b)

unfoldable pub resolve_parent : ℕ → Text → Cache → Action (Node × Text × Cache)
unfolding split_last clean_path resolve_path
resolve_parent root_id p cache = do
  raise_if (no_text p) Kind.invalid_argument
  (head, name) ← last_or_invalid (split_last (clean_path p))
  raise_if (no_text name) Kind.invalid_argument
  (out, c) ← resolve_path root_id (or_slash head) true cache
  pure (out.node, name, c)

-- GetRootNodeID
abbrev pub root_or_gone : Option ℕ → Action ℕ
root_or_gone none = raise Kind.not_found
root_or_gone (some id) = pure id

unfoldable pub get_root_node_id : Text → Action ℕ
unfolding get_drive
get_root_node_id drive_id = do d ← get_drive drive_id; root_or_gone d.root_node_id

-- Resolved
pub record Resolved : Type 0 where
  pub drive_id : Text
  pub node : Node

-- maxMountHops
abbrev pub max_mount_hops : ℕ
max_mount_hops = 32

-- The loop of resolveWithMounts: the hops that are left, the drives visited.
unfoldable pub hop : ℕ → Bool → List Text → Text → Text → Action Resolved
unfolding get_root_node_id resolve_path listed read_mount
hop zero follow visited drive path = raise Kind.invalid_argument
hop (suc left) follow visited drive path = do
  root_id ← get_root_node_id drive
  (out, _) ← resolve_path root_id path follow no_cache
  if no_text out.remaining then pure (record { drive_id = drive; node = out.node }) else (do
    source ← lift (read_mount out.node)
    raise_if (listed source visited) Kind.invalid_argument
    hop left follow (source ∷ visited) source (0x2f ∷ out.remaining))

-- resolveWithMounts
unfoldable pub resolve_with_mounts : Text → Text → Bool → Action Resolved
unfolding hop clean_path
resolve_with_mounts drive_id path follow =
    hop max_mount_hops follow (drive_id ∷ []) drive_id (clean_path path)

-- Resolve
unfoldable pub resolve : Text → Text → Action Resolved
unfolding resolve_with_mounts
resolve drive_id path = resolve_with_mounts drive_id path true

-- Lstat
unfoldable pub lstat : Text → Text → Action Resolved
unfolding resolve_with_mounts
lstat drive_id path = resolve_with_mounts drive_id path false

-- PartialResolution
pub record PartialResolution : Type 0 where
  pub drive_id : Text
  pub path : Text

-- ResolveForPermission
unfoldable pub resolve_for_permission : Text → Text → Action PartialResolution
unfolding get_root_node_id resolve_path is_mount read_mount
resolve_for_permission drive_id path = do
  root_id ← get_root_node_id drive_id
  (out, _) ← resolve_path root_id path true no_cache
  if is_mount out.node
      then (do
        source ← lift (read_mount out.node)
        pure (record { drive_id = source; path = out.remaining }))
      else pure (record { drive_id = drive_id; path = path })

-- ResolveParentNodeID
unfoldable pub resolve_parent_node_id : Text → Text → Action (ℕ × Text)
unfolding get_root_node_id resolve_parent
resolve_parent_node_id drive_id path = do
  root_id ← get_root_node_id drive_id
  (parent, name, _) ← resolve_parent root_id path no_cache
  pure (parent.id, name)

-- ResolveNodeID
unfoldable pub resolve_node_id : Text → Text → Action ℕ
unfolding get_root_node_id resolve_path
resolve_node_id drive_id path = do
  root_id ← get_root_node_id drive_id
  (out, _) ← resolve_path root_id path true no_cache
  pure out.node.id

-- resolveEditableParent
unfoldable pub resolve_editable_parent : Text → Text → Action (Node × Text)
unfolding get_root_node_id resolve_parent is_dir
resolve_editable_parent drive_id path = do
  root_id ← get_root_node_id drive_id
  raise_if (root_id == 0) Kind.not_found
  (parent, name, _) ← resolve_parent root_id path no_cache
  raise_if (not (is_dir parent)) Kind.invalid_argument
  pure (parent, name)
