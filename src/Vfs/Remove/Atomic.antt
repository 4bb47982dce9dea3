-- ===== src/Vfs/Remove/Atomic.antt =====
-- internal/vfs/rm.go: Rm commits the removals and the garbage records together or not at all.
use mdrive.Prelude.{ℕ, zero, suc, ◌≡◌, Bool, Option, none, some, List, [], ◌∷◌, ◌++◌, Text}
use mdrive.Node.Content.{DirEntry}
use mdrive.Node.Inode.{Node, is_dir}
use mdrive.Node.Dir.{read_dir}
use mdrive.World.Tables.{GarbageRef}
use mdrive.World.Action.{World, Env, Action, lift, pure, ◌>>=◌, ◌>>◌, draw_now, db_call, change}
use mdrive.World.Keeps.{
  Isolated-draw_now, Isolated-db_call, Isolated-change, Isolated, Isolated-bind, Isolated-if,
  Isolated-pure, Isolated-lift, Atomic, with_tx-Atomic,
}
use mdrive.NodeOp.Unlink.{unlink}
use mdrive.NodeOp.Atomic.{repo_rules, Isolated-unlink_body}
use mdrive.NodeOp.Create.{get_by_id}
use mdrive.Vfs.Remove.{
  rm, child_path, rm_entries, rm_recursive, rm_path, stamped, insert_tombstones, record_garbage,
  rm_paths, rm_body, rm_all,
}
use mdrive.World.Reads.{Reads-Isolated}
use mdrive.Vfs.Resolve.{Cache, resolve_path}
use mdrive.Vfs.Service.{resolve_parent, get_root_node_id}
use mdrive.Vfs.Resolve.Reading.{
  Reads-get_by_id, Reads-resolve_path, Reads-resolve_parent, Reads-get_root_node_id,
}

pub Isolated-get_by_id : (id : ℕ) → Isolated (get_by_id id)
Isolated-get_by_id id = Reads-Isolated (get_by_id id) (Reads-get_by_id id)

pub Isolated-resolve_path :
    (root_id : ℕ) (p : Text) (follow : Bool) (cache : Cache)
    → Isolated (resolve_path root_id p follow cache)
Isolated-resolve_path root_id p follow cache =
    Reads-Isolated (resolve_path root_id p follow cache) (Reads-resolve_path root_id p follow cache)

pub Isolated-resolve_parent :
    (root_id : ℕ) (p : Text) (cache : Cache) → Isolated (resolve_parent root_id p cache)
Isolated-resolve_parent root_id p cache =
    Reads-Isolated (resolve_parent root_id p cache) (Reads-resolve_parent root_id p cache)

pub Isolated-get_root_node_id : (id : Text) → Isolated (get_root_node_id id)
Isolated-get_root_node_id id = Reads-Isolated (get_root_node_id id) (Reads-get_root_node_id id)

Isolated-unlink : (n : Option Node) (name : Text) → Isolated (unlink n name)
unfolding unlink
Isolated-unlink none name = search repo_rules
Isolated-unlink (some n) name = search (repo_rules, Isolated-unlink_body)

pub Isolated-rm : (root_id : ℕ) (n : Node) (path : Text) → Isolated (rm root_id n path)
unfolding rm
Isolated-rm root_id n path = search (repo_rules, Isolated-resolve_parent, Isolated-unlink) depth 14

pub Isolated-rm_entries :
    (deeper : Node → Text → Action (List GarbageRef)) (root_id : ℕ) (path : Text)
    (es : List DirEntry)
    → ((n : Node) (p : Text) → Isolated (deeper n p))
    → Isolated (rm_entries deeper root_id path es)
unfolding rm_entries
Isolated-rm_entries deeper root_id path [] p = search repo_rules
Isolated-rm_entries deeper root_id path (e ∷ es) p =
    Isolated-bind (get_by_id e.inode_id) _ (Isolated-get_by_id e.inode_id) λ child.
      Isolated-bind _ _
        (Isolated-if (is_dir child) (deeper child (child_path path e.name))
          (rm root_id child (child_path path e.name)) (p child (child_path path e.name))
          (Isolated-rm root_id child (child_path path e.name)))
        λ refs.
          Isolated-bind (rm_entries deeper root_id path es) _
            (Isolated-rm_entries deeper root_id path es p) λ more. Isolated-pure (refs ++ more)

pub Isolated-rm_recursive :
    (fuel root_id : ℕ) (n : Node) (path : Text) → Isolated (rm_recursive fuel root_id n path)
unfolding rm_recursive
Isolated-rm_recursive zero root_id n path = search repo_rules
Isolated-rm_recursive (suc fuel) root_id n path =
    Isolated-bind (lift (read_dir n)) _ (Isolated-lift (read_dir n)) λ es.
      Isolated-bind (rm_entries (λ c p. rm_recursive fuel root_id c p) root_id path es) _
        (Isolated-rm_entries (λ c p. rm_recursive fuel root_id c p) root_id path es
          λ c p. Isolated-rm_recursive fuel root_id c p)
        λ refs.
          Isolated-bind (rm root_id n path) _ (Isolated-rm root_id n path)
            λ more. Isolated-pure (refs ++ more)

Isolated-rm_path :
    (fuel root_id : ℕ) (path : Text) (recursive : Bool)
    → Isolated (rm_path fuel root_id path recursive)
unfolding rm_path
Isolated-rm_path fuel root_id path recursive =
    search (repo_rules, Isolated-resolve_path, Isolated-rm, Isolated-rm_recursive) depth 16

Isolated-rm_paths :
    (fuel root_id : ℕ) (paths : List Text) (recursive : Bool)
    → Isolated (rm_paths fuel root_id paths recursive)
unfolding rm_paths
Isolated-rm_paths fuel root_id [] recursive = search repo_rules
Isolated-rm_paths fuel root_id (p ∷ paths) recursive =
    Isolated-bind (rm_path fuel root_id p recursive) _ (Isolated-rm_path fuel root_id p recursive)
      λ refs.
        Isolated-bind (rm_paths fuel root_id paths recursive) _
          (Isolated-rm_paths fuel root_id paths recursive) λ more. Isolated-pure (refs ++ more)

Isolated-stamped : (refs : List GarbageRef) → Isolated (stamped refs)
unfolding stamped
Isolated-stamped [] = search repo_rules
Isolated-stamped (r ∷ refs) =
    Isolated-bind draw_now (λ now. do rows ← stamped refs; pure ((now, r) ∷ rows)) Isolated-draw_now
      λ now.
        Isolated-bind (stamped refs) (λ rows. pure ((now, r) ∷ rows)) (Isolated-stamped refs)
          λ rows. Isolated-pure ((now, r) ∷ rows)

pub Isolated-record_garbage : (refs : List GarbageRef) → Isolated (record_garbage refs)
unfolding record_garbage
Isolated-record_garbage [] = search repo_rules
Isolated-record_garbage (r ∷ refs) =
    Isolated-bind (stamped (r ∷ refs)) (λ rows. db_call >> change (insert_tombstones rows))
      (Isolated-stamped (r ∷ refs))
      λ rows.
        Isolated-bind db_call (λ _. change (insert_tombstones rows)) Isolated-db_call
          λ _. Isolated-change (insert_tombstones rows)

Isolated-rm_body :
    (fuel : ℕ) (drive_id : Text) (paths : List Text) (recursive : Bool)
    → Isolated (rm_body fuel drive_id paths recursive)
unfolding rm_body
Isolated-rm_body fuel drive_id paths recursive =
    search (repo_rules, Isolated-get_root_node_id, Isolated-rm_paths, Isolated-record_garbage) depth
      16

-- Rm outside of a transaction leaves none open, and if it returns an error, from the removal of any of
-- the paths or from the recording of the garbage, then no row is removed and no garbage is recorded.
pub rm_all-Atomic :
    (fuel : ℕ) (drive_id : Text) (paths : List Text) (recursive : Bool) (e : Env) (w : World)
    → w.tx ≡ none
    → Atomic w.committed (rm_all fuel drive_id paths recursive e w)
unfolding rm_all
rm_all-Atomic fuel drive_id paths recursive e w closed =
    with_tx-Atomic (rm_body fuel drive_id paths recursive) e w
      (Isolated-rm_body fuel drive_id paths recursive) closed
