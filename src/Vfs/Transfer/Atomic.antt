-- ===== src/Vfs/Transfer/Atomic.antt =====
-- internal/vfs/mv.go: Mv moves every source or none.
use mdrive.Prelude.{
  ℕ, ◌≡◌, refl, Option, none, some, List, [], ◌∷◌, Text, ◌=s=◌, inl, inr, Bool-cases,
}
use mdrive.Result.{Result, ok, err}
use mdrive.Node.Content.{DirEntry}
use mdrive.Node.Inode.{Node}
use mdrive.World.Action.{World, Env, ◌>>=◌}
use mdrive.World.Keeps.{Isolated, Atomic, with_tx-Atomic}
use mdrive.World.Reads.{Reads-Isolated}
use mdrive.NodeOp.Atomic.{repo_rules, Isolated-move_body}
use mdrive.NodeOp.Move.{move_entry}
use mdrive.Vfs.Resolve.{Cache, load_by_id}
use mdrive.Vfs.Resolve.Reading.{Reads-load_by_id}
use mdrive.Vfs.Remove.{record_garbage}
use mdrive.Vfs.Remove.Atomic.{
  Isolated-get_by_id, Isolated-resolve_path, Isolated-resolve_parent, Isolated-get_root_node_id,
  Isolated-record_garbage,
}
use mdrive.Vfs.Transfer.{
  capture_entry, capture_overwrite_ref, apply_move_entry, mv_one, SrcInfo, resolve_sources,
  move_sources, mv_batch, one_or_batch, mv,
}

Isolated-load_by_id : (id : ℕ) (cache : Cache) → Isolated (load_by_id id cache)
Isolated-load_by_id id cache = Reads-Isolated (load_by_id id cache) (Reads-load_by_id id cache)

Isolated-capture_entry : (o : Result (Option DirEntry)) → Isolated (capture_entry o)
Isolated-capture_entry (err k) = record { at = λ e w o. (refl, o) }
Isolated-capture_entry (ok none) = record { at = λ e w o. (refl, o) }
Isolated-capture_entry (ok (some x)) = record {
  at = λ e w o. (Isolated-get_by_id x.inode_id).at e w o;
}

Isolated-capture_overwrite_ref : (n : Node) (name : Text) → Isolated (capture_overwrite_ref n name)
unfolding capture_overwrite_ref
Isolated-capture_overwrite_ref n name = Isolated-capture_entry _

Isolated-move_entry :
    (p q : Node) (src dst : Text) → Isolated (move_entry (some p) src (some q) dst)
unfolding move_entry
Isolated-move_entry p q src dst = search (repo_rules, Isolated-move_body)

Isolated-apply_move_entry : (p q : Node) (src dst : Text) → Isolated (apply_move_entry p src q dst)
unfolding apply_move_entry
Isolated-apply_move_entry p q src dst =
    search (repo_rules, Isolated-capture_overwrite_ref, Isolated-move_entry) depth 14

ruleset mv_rules = (
  repo_rules, Isolated-load_by_id, Isolated-resolve_path, Isolated-resolve_parent,
  Isolated-get_root_node_id, Isolated-apply_move_entry, Isolated-record_garbage,
)

Isolated-mv_one : (drive_id src dst : Text) → Isolated (mv_one drive_id src dst)
unfolding mv_one
Isolated-mv_one drive_id src dst = search mv_rules depth 22

Isolated-resolve_sources :
    (root_id : ℕ) (paths seen : List Text) (cache : Cache)
    → Isolated (resolve_sources root_id paths seen cache)
unfolding resolve_sources
Isolated-resolve_sources root_id [] seen cache = search mv_rules
Isolated-resolve_sources root_id (p ∷ paths) seen cache =
    search (mv_rules, Isolated-resolve_sources root_id paths) depth 22

Isolated-move_sources :
    (dst_id : ℕ) (sources : List SrcInfo) (cache : Cache)
    → Isolated (move_sources dst_id sources cache)
unfolding move_sources
Isolated-move_sources dst_id [] cache = search mv_rules
Isolated-move_sources dst_id (s ∷ sources) cache =
    search (mv_rules, Isolated-move_sources dst_id sources) depth 22

Isolated-mv_batch :
    (drive_id : Text) (paths : List Text) (dst : Text) → Isolated (mv_batch drive_id paths dst)
unfolding mv_batch
Isolated-mv_batch drive_id paths dst =
    search (mv_rules, Isolated-resolve_sources, Isolated-move_sources) depth 22

Isolated-one_or_batch :
    (drive_id : Text) (paths : List Text) (dst : Text) → Isolated (one_or_batch drive_id paths dst)
Isolated-one_or_batch drive_id [] dst = Isolated-mv_batch drive_id [] dst
Isolated-one_or_batch drive_id (p ∷ []) dst = Isolated-mv_one drive_id p dst
Isolated-one_or_batch drive_id (p ∷ q ∷ paths) dst = Isolated-mv_batch drive_id (p ∷ q ∷ paths) dst

Isolated-moves :
    (drive_id : Text) (paths : List Text) (dst : Text)
    → Isolated (do refs ← one_or_batch drive_id paths dst; record_garbage refs)
Isolated-moves drive_id paths dst = search (mv_rules, Isolated-one_or_batch) depth 14

-- Mv outside of a transaction leaves none open, and if it returns an error, be it at the last source of a
-- batch or in recording the garbage, then nothing has moved and no garbage is recorded.
pub mv-Atomic :
    (src_drive dst_drive : Text) (paths : List Text) (dst : Text) (e : Env) (w : World)
    → w.tx ≡ none
    → Atomic w.committed (mv src_drive paths dst_drive dst e w)
unfolding mv
mv-Atomic src_drive dst_drive paths dst e w closed = elim (Bool-cases (src_drive =s= dst_drive)) [
  | inl same ↦ rw same (
      with_tx-Atomic (do refs ← one_or_batch src_drive paths dst; record_garbage refs) e w
        (Isolated-moves src_drive paths dst) closed)
  | inr across ↦ rw across (closed, λ k h. refl)
]
