-- ===== src/NodeOp/Move.antt =====
-- internal/core/node/operation.go: MoveEntry.
pub mod Listing
pub mod Effect
pub mod Outcome
use mdrive.Prelude.{
  ◌-◌, Bool, true, false, ◌&&◌, Option, none, some, List, [], ◌∷◌, ◌++◌, Text, leb, ◌==◌, ◌=s=◌,
  if◌then◌else◌, not,
}
use mdrive.Errorx.{Kind}
use mdrive.Node.Kinds.{same_kind}
use mdrive.Node.Content.{DirEntry}
use mdrive.Node.Inode.{Node, Stamp}
use mdrive.Node.Dir.{find_entry, read_dir, write_dir}
use mdrive.World.Action.{Action, pure, raise, raise_if, lift, ◌>>=◌, ◌>>◌, draw_stamp}
use mdrive.World.Tx.{with_tx}
use mdrive.Repo.{get, save, delete}

-- The loop over the source's entries: it drops the source name, and in a rename within one
-- directory puts the moved entry where the target name stood. The flag tells whether it did.
unfoldable pub src_loop : Bool → Text → Text → DirEntry → List DirEntry → List DirEntry × Bool
src_loop same src dst moved [] = ([], false)
src_loop same src dst moved (e ∷ es) =
    let (rest, replaced) = src_loop same src dst moved es in
    if e.name =s= src
    then (rest, replaced)
    else if same && (e.name =s= dst)
    then (moved ∷ rest, true)
    else (e ∷ rest, replaced)

-- The entries of the source's directory afterwards.
unfoldable pub new_src_entries : Bool → Text → Text → DirEntry → List DirEntry → List DirEntry
unfolding src_loop
new_src_entries same src dst moved es =
    let (kept, replaced) = src_loop same src dst moved es in
    if same && not replaced then kept ++ moved ∷ [] else kept

-- The loop over the target's entries in a move between two directories: an entry of the target
-- name is passed over, and so is every other, since nothing is appended.
unfoldable pub dst_loop : Text → List DirEntry → List DirEntry → List DirEntry
dst_loop dst [] out = out
dst_loop dst (e ∷ es) out = let rest = dst_loop dst es out in if e.name =s= dst then rest else rest

-- The entries of the target's directory afterwards.
unfoldable pub new_dst_entries : Text → DirEntry → List DirEntry → List DirEntry
unfolding dst_loop
new_dst_entries dst moved es = dst_loop dst es [] ++ moved ∷ []

-- `overwrite.nlink--`, with a new revision.
abbrev pub less : Stamp → Node → Node
less st n = record n { nlink = n.nlink - 1; rev = st.rev }

-- One link less, if there are more.
unfoldable pub lose_link : Node → Action (Unit {0})
lose_link n = do st ← draw_stamp; save (less st n); pure tt

-- The inode that the moved entry replaces loses a link, or its row.
unfoldable pub drop_overwritten : Option DirEntry → Action (Unit {0})
unfolding lose_link
drop_overwritten none = pure tt
drop_overwritten (some e) = do
  n ← get e.inode_id
  if leb n.nlink 1 then delete e.inode_id else lose_link n

-- The write of a rename within one directory.
unfoldable pub write_one : Text → Text → DirEntry → List DirEntry → Node → Action (Node × Node)
unfolding new_src_entries
write_one src dst moved src_es parent = do
  st ← draw_stamp
  p ← lift (write_dir st (new_src_entries true src dst moved src_es) parent)
  p' ← save p
  pure (p', p')

-- The writes of a move between two directories.
unfoldable pub write_both :
    Text → Text → DirEntry → List DirEntry → List DirEntry → Node → Node → Action (Node × Node)
unfolding new_src_entries new_dst_entries
write_both src dst moved src_es dst_es src_parent dst_parent = do
  st ← draw_stamp
  p ← lift (write_dir st (new_src_entries false src dst moved src_es) src_parent)
  p' ← save p
  st' ← draw_stamp
  q ← lift (write_dir st' (new_dst_entries dst moved dst_es) dst_parent)
  q' ← save q
  pure (p', q')

-- The writes of the two directories. They are one if their ids are, and then the two pointers of the
-- caller are one as well: a resolver loads each id once.
unfoldable pub write_parents :
    Text → Text → DirEntry → List DirEntry → List DirEntry → Node → Node → Action (Node × Node)
unfolding write_one write_both
write_parents src dst moved src_es dst_es src_parent dst_parent =
    if src_parent.id == dst_parent.id
    then write_one src dst moved src_es src_parent
    else write_both src dst moved src_es dst_es src_parent dst_parent

abbrev pub same_inode : DirEntry → Option DirEntry → Bool
same_inode e none = false
same_inode e (some x) = x.inode_id == e.inode_id

abbrev pub other_kind : DirEntry → Option DirEntry → Bool
other_kind e none = false
other_kind e (some x) = not (same_kind x.kind e.kind)

-- From the point where the entry of the target name is known.
unfoldable pub move_over :
    Text
    → Text
    → DirEntry
    → List DirEntry
    → List DirEntry
    → Option DirEntry
    → Node
    → Node
    → Action (Node × Node)
unfolding write_parents drop_overwritten
move_over src dst e src_es dst_es existing src_parent dst_parent = do
  raise_if (other_kind e existing) Kind.failed_precondition
  ps ← write_parents src dst (record e { name = dst }) src_es dst_es src_parent dst_parent
  drop_overwritten existing
  pure ps

-- From the point where the source entry is known. A move to where the inode is does nothing.
unfoldable pub move_found :
    Text → Text → DirEntry → List DirEntry → Node → Node → Action (Node × Node)
unfolding move_over
move_found src dst e src_es src_parent dst_parent =
    if (src_parent.id == dst_parent.id) && (src =s= dst) then pure (src_parent, dst_parent) else (do
      dst_es ← lift (read_dir dst_parent)
      let existing = find_entry dst dst_es
      if same_inode e existing
          then pure (src_parent, dst_parent)
          else move_over src dst e src_es dst_es existing src_parent dst_parent)

abbrev pub or_not_found : Option DirEntry → Action DirEntry
or_not_found none = raise Kind.not_found
or_not_found (some e) = pure e

-- The body of the transaction of MoveEntry.
unfoldable pub move_body : Node → Text → Node → Text → Action (Node × Node)
unfolding move_found
move_body src_parent src dst_parent dst = do
  es ← lift (read_dir src_parent)
  e ← or_not_found (find_entry src es)
  move_found src dst e es src_parent dst_parent

-- MoveEntry
unfoldable pub move_entry : Option Node → Text → Option Node → Text → Action (Node × Node)
unfolding move_body
move_entry none src dst_parent dst = raise Kind.invalid_argument
move_entry (some src_parent) src none dst = raise Kind.invalid_argument
move_entry (some src_parent) src (some dst_parent) dst =
    with_tx (move_body src_parent src dst_parent dst)
