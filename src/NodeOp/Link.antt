-- ===== src/NodeOp/Link.antt =====
-- internal/core/node/operation.go: Link and BulkLink.
pub mod Effect
use mdrive.Prelude.{ℕ, Option, none, some, List, [], ◌∷◌, Text, ◌==◌, if◌then◌else◌, map}
use mdrive.Errorx.{Kind}
use mdrive.Node.Inode.{Node, Stamp, inc_nlink}
use mdrive.Node.Dir.{add_entry, add_entries}
use mdrive.World.Action.{Action, pure, raise, lift, ◌>>=◌, draw_stamp}
use mdrive.World.Tx.{with_tx}
use mdrive.Repo.{save}

-- `child.nlink++`, with a new ctime and a new revision.
unfoldable pub linked : Stamp → Node → Node
unfolding inc_nlink
linked st child = record (inc_nlink child) { ctime = st.now; rev = st.rev }

-- The body of the transaction of Link.
unfoldable pub link_body : Node → Text → Node → Action (Node × Node)
unfolding linked
link_body parent name child = do
  st ← draw_stamp
  p ← lift (add_entry st name child parent)
  p' ← save p
  st' ← draw_stamp
  c ← save (linked st' child)
  pure (p', c)

-- Link. The parent and the child are different inodes.
unfoldable pub link : Option Node → Text → Option Node → Action (Node × Node)
unfolding link_body
link none name child = raise Kind.invalid_argument
link (some parent) name none = raise Kind.invalid_argument
link (some parent) name (some child) = with_tx (link_body parent name child)

-- The nodes behind the pointers of a BulkLink: two names may share a pointer.
abbrev pub Memory : Type 0
Memory = ℕ → Node

abbrev pub assign : Memory → ℕ → Node → Memory
assign mem p n q = if p == q then n else mem q

abbrev pub load : Memory → Text × Option ℕ → Text × Option Node
load mem (name, none) = (name, none)
load mem (name, some p) = (name, some (mem p))

-- The loop over the children: one time for all, a new revision for each.
unfoldable pub bulk_link_children : ℕ → List (Text × Option ℕ) → Memory → Action Memory
bulk_link_children now [] mem = pure mem
bulk_link_children now ((name, none) ∷ more) mem = bulk_link_children now more mem
bulk_link_children now ((name, some p) ∷ more) mem = do
  st ← draw_stamp
  c ← save (linked (record st { now = now }) (mem p))
  bulk_link_children now more (assign mem p c)

-- The body of the transaction of BulkLink.
unfoldable pub bulk_link_body :
    Node → List (Text × Option ℕ) → List (Text × Option ℕ) → Memory → Action (Option Node × Memory)
unfolding bulk_link_children
bulk_link_body parent entries again mem = do
  st ← draw_stamp
  p ← lift (add_entries st (map (load mem) entries) parent)
  p' ← save p
  st' ← draw_stamp
  mem' ← bulk_link_children st'.now again mem
  pure (some p', mem')

-- BulkLink. Each `range` over the map visits it in an order of its own: `entries` is the first,
-- `again` the second.
unfoldable pub bulk_link :
    Option Node
    → List (Text × Option ℕ)
    → List (Text × Option ℕ)
    → Memory
    → Action (Option Node × Memory)
unfolding bulk_link_body
bulk_link none entries again mem = raise Kind.invalid_argument
bulk_link (some parent) [] again mem = pure (some parent, mem)
bulk_link (some parent) (x ∷ entries) again mem =
    with_tx (bulk_link_body parent (x ∷ entries) again mem)
