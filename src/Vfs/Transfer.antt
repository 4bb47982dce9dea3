-- ===== src/Vfs/Transfer.antt =====
-- internal/vfs/mv.go: Mv. The nodes that one call loads are kept by their ids in the cache of its
-- resolver, as Go keeps one pointer for each: a move that changes a directory changes what the later
-- moves of a batch see of it.
pub mod Captured
pub mod Atomic
use mdrive.Prelude.{
  ℕ, Bool, true, false, not, Option, none, some, List, [], ◌∷◌, ◌++◌, Text, ◌==◌, ◌=s=◌,
  if◌then◌else◌,
}
use mdrive.Errorx.{Kind}
use mdrive.Result.{Result, ok, err}
use mdrive.Node.Content.{DirEntry}
use mdrive.Node.Inode.{Node, is_dir}
use mdrive.Node.Dir.{lookup, listed}
use mdrive.World.Tables.{GarbageRef}
use mdrive.World.Action.{Action, pure, raise, raise_if, lift, ◌>>=◌, ◌>>◌}
use mdrive.World.Tx.{with_tx}
use mdrive.NodeOp.Create.{get_by_id}
use mdrive.NodeOp.Move.{move_entry}
use mdrive.Vfs.Resolve.{Cache, no_cache, cached, load_by_id, resolve_path}
use mdrive.Prelude.{no_text}
use mdrive.Vfs.Service.{get_root_node_id, resolve_parent}
use mdrive.Vfs.Remove.{garbage_of, record_garbage}

-- captureOverwriteRef: errors count as nothing to capture.
abbrev pub garbage_if_found : Result Node → List GarbageRef
garbage_if_found (err k) = []
garbage_if_found (ok child) = garbage_of child

abbrev pub capture_entry : Result (Option DirEntry) → Action (List GarbageRef)
capture_entry (err k) e w = (ok [], w)
capture_entry (ok none) e w = (ok [], w)
capture_entry (ok (some x)) e w =
    let (r, w') = get_by_id x.inode_id e w in (ok (garbage_if_found r), w')

unfoldable pub capture_overwrite_ref : Node → Text → Action (List GarbageRef)
unfolding lookup get_by_id garbage_of
capture_overwrite_ref dst_parent dst = capture_entry (lookup dst dst_parent)

-- applyMoveEntry, with the two directories that it leaves.
unfoldable pub apply_move_entry : Node → Text → Node → Text → Action (Node × Node × List GarbageRef)
unfolding capture_overwrite_ref move_entry
apply_move_entry src_parent src dst_parent dst = do
  refs ← capture_overwrite_ref dst_parent dst
  (p, q) ← move_entry (some src_parent) src (some dst_parent) dst
  pure (p, q, refs)

-- mvOne
unfoldable pub mv_one : Text → Text → Text → Action (List GarbageRef)
unfolding get_root_node_id resolve_path resolve_parent is_dir apply_move_entry
mv_one drive_id src_path dst_path = do
  root_id ← get_root_node_id drive_id
  (out, c) ← resolve_path root_id src_path true no_cache
  raise_if (not (no_text out.remaining)) Kind.invalid_argument
  (src_parent, src, c₁) ← resolve_parent root_id src_path c
  (dst_parent, dst, _) ← resolve_parent root_id dst_path c₁
  raise_if (not (is_dir dst_parent)) Kind.invalid_argument
  (_, _, refs) ← apply_move_entry src_parent src dst_parent dst
  pure refs

-- srcInfo: the ids of the source and of its parent, and the name.
pub record SrcInfo : Type 0 where
  pub node : ℕ
  pub src_parent : ℕ
  pub src_name : Text

-- The loop of mvBatch that resolves the sources; `seen` are their names so far.
unfoldable pub resolve_sources : ℕ → List Text → List Text → Cache → Action (List SrcInfo × Cache)
unfolding resolve_path resolve_parent listed
resolve_sources root_id [] seen cache = pure ([], cache)
resolve_sources root_id (src_path ∷ src_paths) seen cache = do
  (out, c) ← resolve_path root_id src_path true cache
  raise_if (not (no_text out.remaining)) Kind.invalid_argument
  (parent, name, c₁) ← resolve_parent root_id src_path c
  raise_if (listed name seen) Kind.invalid_argument
  (more, c₂) ← resolve_sources root_id src_paths (name ∷ seen) c₁
  let info : SrcInfo = record { node = out.node.id; src_parent = parent.id; src_name = name }
  pure (info ∷ more, c₂)

-- The check that no source is the target directory.
unfoldable pub moves_into_itself : ℕ → List SrcInfo → Bool
moves_into_itself dst [] = false
moves_into_itself dst (s ∷ sources) = if s.node == dst then true else moves_into_itself dst sources

-- The loop of mvBatch that moves; the cache has every directory that it asks for.
unfoldable pub move_sources : ℕ → List SrcInfo → Cache → Action (List GarbageRef)
unfolding load_by_id apply_move_entry
move_sources dst_id [] cache = pure []
move_sources dst_id (s ∷ sources) cache = do
  (src_parent, c) ← load_by_id s.src_parent cache
  (dst_dir, c₁) ← load_by_id dst_id c
  (p, q, refs) ← apply_move_entry src_parent s.src_name dst_dir s.src_name
  more ← move_sources dst_id sources (cached dst_id q (cached s.src_parent p c₁))
  pure (refs ++ more)

-- mvBatch
unfoldable pub mv_batch : Text → List Text → Text → Action (List GarbageRef)
unfolding get_root_node_id resolve_path is_dir resolve_sources moves_into_itself move_sources
mv_batch drive_id src_paths dst_path = do
  root_id ← get_root_node_id drive_id
  (out, c) ← resolve_path root_id dst_path true no_cache
  raise_if (not (is_dir out.node)) Kind.invalid_argument
  (sources, c₁) ← resolve_sources root_id src_paths [] c
  raise_if (moves_into_itself out.node.id sources) Kind.invalid_argument
  move_sources out.node.id sources c₁

-- Mv
abbrev pub one_or_batch : Text → List Text → Text → Action (List GarbageRef)
one_or_batch drive_id (src_path ∷ []) dst_path = mv_one drive_id src_path dst_path
one_or_batch drive_id src_paths dst_path = mv_batch drive_id src_paths dst_path

unfoldable pub mv : Text → List Text → Text → Text → Action (Unit {0})
unfolding mv_one mv_batch record_garbage ◌=s=◌
mv src_drive_id src_paths dst_drive_id dst_path = do
  raise_if (not (src_drive_id =s= dst_drive_id)) Kind.invalid_argument
  with_tx (do refs ← one_or_batch src_drive_id src_paths dst_path; record_garbage refs)
