-- ===== src/Vfs/Remove.antt =====
-- internal/vfs/rm.go: Rm; internal/app/gc/store.go: RecordGarbage.
pub mod Garbage
pub mod Atomic
pub mod Depth
use mdrive.Prelude.{
  ℕ, zero, suc, ◌+◌, length, Bool, true, false, ◌||◌, Option, none, some, List, [], ◌∷◌, ◌++◌, Text,
  if◌then◌else◌,
}
use mdrive.Errorx.{Kind}
use mdrive.Result.{Result, ok, err}
use mdrive.Node.Content.{DirEntry, ObjectContent}
use mdrive.Node.Inode.{Node, is_dir, is_object}
use mdrive.Node.Typed.{read_object}
use mdrive.Node.Dir.{read_dir}
use mdrive.World.Tables.{Db, GarbageRef, Tombstone}
use mdrive.World.Action.{
  Action, pure, raise, raise_if, lift, ◌>>=◌, ◌>>◌, draw_now, db_call, change,
}
use mdrive.World.Tx.{with_tx}
use mdrive.NodeOp.Create.{get_by_id}
use mdrive.NodeOp.Unlink.{unlink}
use mdrive.Vfs.Path.{is_slash, trim_right}
use mdrive.Vfs.Resolve.{no_cache, resolve_path}
use mdrive.Prelude.{no_text}
use mdrive.Vfs.Service.{get_root_node_id, resolve_parent}

-- The reference of an object that has a bucket and a key.
abbrev pub ref_of : Result ObjectContent → List GarbageRef
ref_of (err k) = []
ref_of (ok o) =
    if no_text o.bucket || no_text o.key then [] else record { bucket = o.bucket; key = o.key } ∷ []

unfoldable pub garbage_of : Node → List GarbageRef
unfolding is_object read_object
garbage_of n = if is_object n then ref_of (read_object n) else []

-- `if target := deleted; target != nil { n = target }`
abbrev pub or_given : Node → Option Node → Node
or_given n none = n
or_given n (some deleted) = deleted

-- rm; the name that resolveParent returns is not empty.
unfoldable pub rm : ℕ → Node → Text → Action (List GarbageRef)
unfolding resolve_parent unlink garbage_of
rm root_id n path = do
  (parent, name, _) ← resolve_parent root_id path no_cache
  (_, deleted) ← unlink (some parent) name
  pure (garbage_of (or_given n deleted))

abbrev pub child_path : Text → Text → Text
child_path path name = trim_right is_slash path ++ 0x2f ∷ name

-- The loop of rmRecursive over the entries; `deeper` is the call of it on a child.
unfoldable pub rm_entries :
    (Node → Text → Action (List GarbageRef)) → ℕ → Text → List DirEntry → Action (List GarbageRef)
unfolding rm is_dir trim_right
rm_entries deeper root_id path [] = pure []
rm_entries deeper root_id path (e ∷ es) = do
  child ← get_by_id e.inode_id
  refs ←
      if is_dir child
      then deeper child (child_path path e.name)
      else rm root_id child (child_path path e.name)
  more ← rm_entries deeper root_id path es
  pure (refs ++ more)

-- rmRecursive, on fuel: each level of directories takes one from it.
unfoldable pub rm_recursive : ℕ → ℕ → Node → Text → Action (List GarbageRef)
unfolding rm_entries
rm_recursive zero root_id n path = raise Kind.internal
rm_recursive (suc fuel) root_id n path = do
  es ← lift (read_dir n)
  refs ← rm_entries (λ child p. rm_recursive fuel root_id child p) root_id path es
  more ← rm root_id n path
  pure (refs ++ more)

-- rmPath
unfoldable pub rm_path : ℕ → ℕ → Text → Bool → Action (List GarbageRef)
unfolding rm_recursive
rm_path fuel root_id path recursive = do
  (out, _) ← resolve_path root_id path true no_cache
  if is_dir out.node
      then if recursive
        then rm_recursive fuel root_id out.node path
        else raise Kind.failed_precondition
      else rm root_id out.node path

-- RecordGarbage: one row for each reference, with its own reading of the clock, and the next ids of the
-- table.
unfoldable pub stamped : List GarbageRef → Action (List (ℕ × GarbageRef))
unfolding draw_now
stamped [] = pure []
stamped (r ∷ refs) = do now ← draw_now; rows ← stamped refs; pure ((now, r) ∷ rows)

unfoldable pub numbered : ℕ → List (ℕ × GarbageRef) → List Tombstone
numbered id [] = []
numbered id ((now, r) ∷ rows) =
    record { id = id; bucket = r.bucket; key = r.key; create_time = now } ∷ numbered (suc id) rows

abbrev pub insert_tombstones : List (ℕ × GarbageRef) → Db → Db
insert_tombstones rows db = record db {
  tombstones = db.tombstones ++ numbered db.next_tombstone rows;
  next_tombstone = db.next_tombstone + length rows;
}

unfoldable pub record_garbage : List GarbageRef → Action (Unit {0})
unfolding stamped db_call numbered
record_garbage [] = pure tt
record_garbage (r ∷ refs) = do rows ← stamped (r ∷ refs); db_call; change (insert_tombstones rows)

-- The loop of Rm over the paths.
unfoldable pub rm_paths : ℕ → ℕ → List Text → Bool → Action (List GarbageRef)
unfolding rm_path
rm_paths fuel root_id [] recursive = pure []
rm_paths fuel root_id (p ∷ paths) recursive = do
  refs ← rm_path fuel root_id p recursive
  more ← rm_paths fuel root_id paths recursive
  pure (refs ++ more)

-- The body of the transaction of Rm; the service has a recorder.
unfoldable pub rm_body : ℕ → Text → List Text → Bool → Action (Unit {0})
unfolding rm_paths record_garbage get_root_node_id
rm_body fuel drive_id paths recursive = do
  root_id ← get_root_node_id drive_id
  refs ← rm_paths fuel root_id paths recursive
  record_garbage refs

-- Rm
unfoldable pub rm_all : ℕ → Text → List Text → Bool → Action (Unit {0})
unfolding rm_body
rm_all fuel drive_id paths recursive = with_tx (rm_body fuel drive_id paths recursive)
