-- ===== src/NodeOp/Unlink.antt =====
-- internal/core/node/operation.go: Unlink, UnlinkOrReplace and BulkUnlink.
pub mod Effect
pub mod Outcome
pub mod Plan
pub mod Twice
use mdrive.Prelude.{
  ℕ, ◌-◌, Bool, true, false, Option, none, some, List, [], ◌∷◌, ◌++◌, Text, ltb, ◌==◌, ◌=s=◌,
  if◌then◌else◌,
}
use mdrive.Errorx.{Kind}
use mdrive.Result.{ok, err}
use mdrive.Node.Content.{DirEntry}
use mdrive.Node.Inode.{Node, Stamp, is_dir}
use mdrive.Node.Dir.{find_entry, read_dir, remove_entry, remove_entries, lookup}
use mdrive.World.Action.{Action, pure, raise, raise_if, lift, ◌>>=◌, ◌>>◌, draw_stamp}
use mdrive.World.Tx.{with_tx}
use mdrive.Repo.{get, save, delete}

-- `child.nlink--` above 1, with a new ctime and a new revision.
unfoldable pub unlinked : Stamp → Node → Node
unlinked st child = record child { nlink = child.nlink - 1; ctime = st.now; rev = st.rev }

-- What becomes of the inode whose name is gone: one link less, or the row is deleted and the node
-- returned.
unfoldable pub drop_link : ℕ → Node → Action (Option Node)
unfolding unlinked
drop_link id child =
    if ltb 1 child.nlink
    then (do st ← draw_stamp; save (unlinked st child); pure none)
    else (do delete id; pure (some child))

abbrev pub or_not_found : Option DirEntry → Action DirEntry
or_not_found none = raise Kind.not_found
or_not_found (some e) = pure e

-- An entry with the nil UUID has no inode.
unfoldable pub drop_child : ℕ → Action (Option Node)
unfolding drop_link
drop_child id = if id == 0 then pure none else (do child ← get id; drop_link id child)

-- The writes of Unlink, once the entry is out of the directory.
unfoldable pub save_then_drop : ℕ → Node → Action (Node × Option Node)
unfolding drop_child
save_then_drop id parent = do p ← save parent; deleted ← drop_child id; pure (p, deleted)

-- The body of the transaction of Unlink.
unfoldable pub unlink_body : Node → Text → Action (Node × Option Node)
unfolding save_then_drop
unlink_body parent name = do
  es ← lift (read_dir parent)
  e ← or_not_found (find_entry name es)
  st ← draw_stamp
  p ← lift (remove_entry st name parent)
  save_then_drop e.inode_id p

-- Unlink
unfoldable pub unlink : Option Node → Text → Action (Node × Option Node)
unfolding unlink_body
unlink none name = raise Kind.invalid_argument
unlink (some parent) name = with_tx (unlink_body parent name)

abbrev pub replace_found : Node → Text → Option DirEntry → Action (Node × Option Node)
replace_found parent name none = pure (parent, none)
replace_found parent name (some e) = do
  child ← get e.inode_id
  raise_if (is_dir child) Kind.failed_precondition
  unlink (some parent) name

-- UnlinkOrReplace
unfoldable pub unlink_or_replace : Option Node → Text → Action (Node × Option Node)
unfolding unlink is_dir
unlink_or_replace none name = raise Kind.invalid_argument
unlink_or_replace (some parent) name = do
  found ← lift (lookup name parent)
  replace_found parent name found

-- `byName[n]`: of two entries of a name the later one counts.
unfoldable pub find_last : Text → List DirEntry → Option DirEntry
find_last name [] = none
find_last name (e ∷ es) =
    let rest = find_last name es in
    elim rest [ some x ↦ some x | none ↦ if e.name =s= name then some e else none ]

unfoldable pub seen : ℕ → List ℕ → Bool
seen id [] = false
seen id (j ∷ js) = if j == id then true else seen id js

abbrev pub plan_one : List ℕ → Option DirEntry → List ℕ
plan_one planned none = planned
plan_one planned (some e) = if seen e.inode_id planned then planned else planned ++ e.inode_id ∷ []

-- The inodes that lose a name, each once. What is planned is what was seen.
unfoldable pub plan : List DirEntry → List Text → List ℕ → List ℕ
unfolding find_last seen
plan es [] planned = planned
plan es (name ∷ names) planned = plan es names (plan_one planned (find_last name es))

-- A missing inode is passed over, any other error is returned.
unfoldable pub get_if_found : ℕ → Action (Option Node)
get_if_found id e w =
    let (r, w') = get id e w in
    elim r [
      | ok n ↦ (ok (some n), w')
      | err k ↦ (elim k [ Kind.not_found ↦ ok none | other ↦ err other ], w')
    ]

abbrev pub drop_found : ℕ → ℕ → Option Node → Action (List Node)
drop_found now id none = pure []
drop_found now id (some child) =
    if ltb 1 child.nlink
    then (do st ← draw_stamp; save (unlinked (record st { now = now }) child); pure [])
    else (do delete id; pure (child ∷ []))

-- The loop over the plan.
unfoldable pub drop_planned : ℕ → List ℕ → Action (List Node)
unfolding get_if_found unlinked
drop_planned now [] = pure []
drop_planned now (id ∷ ids) = do
  child ← get_if_found id
  deleted ← drop_found now id child
  more ← drop_planned now ids
  pure (deleted ++ more)

-- The body of the transaction of BulkUnlink.
unfoldable pub bulk_unlink_body : Node → List Text → Action (Node × List Node)
unfolding plan drop_planned
bulk_unlink_body parent names = do
  es ← lift (read_dir parent)
  st ← draw_stamp
  p ← lift (remove_entries st names parent)
  p' ← save p
  st' ← draw_stamp
  deleted ← drop_planned st'.now (plan es names [])
  pure (p', deleted)

-- BulkUnlink
unfoldable pub bulk_unlink : Option Node → List Text → Action (Node × List Node)
unfolding bulk_unlink_body
bulk_unlink none names = raise Kind.invalid_argument
bulk_unlink (some parent) [] = pure (parent, [])
bulk_unlink (some parent) (n ∷ names) = with_tx (bulk_unlink_body parent (n ∷ names))
