-- ===== src/Repo.antt =====
-- internal/core/node/ent.go: the repository of nodes.
pub mod Locking
pub mod Calls
use mdrive.Prelude.{ℕ, Bool, true, false, Option, none, some, Text, ◌==◌, ◌=s=◌, if◌then◌else◌}
use mdrive.Errorx.{Kind}
use mdrive.Result.{Result, ok, err}
use mdrive.Node.Kinds.{ent_kind, parse_node_kind}
use mdrive.Node.Inode.{Node}
use mdrive.World.Tables.{Row, Db, write_row, delete_row}
use mdrive.World.Action.{World, Action, pure, raise, ◌>>=◌, ◌>>◌, db_call, view, put_view}

-- fromEnt
unfoldable pub from_ent : ℕ → Row → Node
unfolding parse_node_kind
from_ent id r = record {
  id = id;
  kind = parse_node_kind r.kind;
  size = r.size;
  nlink = r.nlink;
  content = r.content;
  atime = r.atime;
  mtime = r.mtime;
  ctime = r.ctime;
  crtime = r.crtime;
  flags = r.flags;
  rev = r.revision;
  stale_rev = r.revision;
}

-- The columns that `insert` sets.
unfoldable pub to_row : Node → Row
unfolding ent_kind
to_row n = record {
  kind = ent_kind n.kind;
  size = n.size;
  nlink = n.nlink;
  content = n.content;
  atime = n.atime;
  mtime = n.mtime;
  ctime = n.ctime;
  crtime = n.crtime;
  flags = n.flags;
  revision = n.rev;
}

abbrev or_missing : ℕ → Option Row → Action Node
or_missing id none = raise Kind.not_found
or_missing id (some r) = pure (from_ent id r)

-- Get: the query runs on the client, not on the transaction of the context.
unfoldable pub get : ℕ → Action Node
unfolding db_call
get id = do db_call; λ e w. or_missing id (w.committed.nodes id) e w

-- existsTx
unfoldable pub exists_tx : ℕ → Action Bool
unfolding db_call
exists_tx id = do
  db_call
  λ e w. pure (elim ((view w).nodes id) [ none ↦ false | some _ ↦ true ]) e w

abbrev pub save_nodes : (ℕ → Option Row) → World → World
save_nodes t w = put_view (record (view w) { nodes = t }) w

abbrev pub saved : Node → Node
saved n = record n { stale_rev = n.rev }

-- insert
unfoldable pub insert : Node → Action Node
unfolding db_call to_row
insert n = do
  db_call
  λ e w. (ok (saved n), save_nodes (write_row (view w).nodes n.id (to_row n)) w)

-- The row that `UPDATE … WHERE id = ? AND revision = ?` leaves, none if it finds no row; the
-- creation time is not among the columns that it sets.
unfoldable pub updated_row : Node → Option Row → Option Row
unfolding to_row
updated_row n none = none
updated_row n (some r) =
    if r.revision =s= n.stale_rev then some (record (to_row n) { crtime = r.crtime }) else none

abbrev update_or_conflict : Node → Option Row → Action Node
update_or_conflict n none e w = (err Kind.revision_conflict, w)
update_or_conflict n (some r) e w = (ok (saved n), save_nodes (write_row (view w).nodes n.id r) w)

-- update
unfoldable pub update : Node → Action Node
unfolding db_call updated_row
update n = do db_call; λ e w. update_or_conflict n (updated_row n ((view w).nodes n.id)) e w

-- Save
unfoldable pub save : Node → Action Node
unfolding exists_tx insert update
save n = do found ← exists_tx n.id; if found then update n else insert n

abbrev delete_or_missing : ℕ → Option Row → Action (Unit {0})
delete_or_missing id none e w = (err Kind.not_found, w)
delete_or_missing id (some _) e w = (ok tt, save_nodes (delete_row (view w).nodes id) w)

-- Delete
unfoldable pub delete : ℕ → Action (Unit {0})
unfolding db_call
delete id = do db_call; λ e w. delete_or_missing id ((view w).nodes id) e w
