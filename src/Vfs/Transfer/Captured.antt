-- ===== src/Vfs/Transfer/Captured.antt =====
-- internal/vfs/mv.go: what applyMoveEntry gives to the garbage collector.
use mdrive.Prelude.{
  ◌≡◌, refl, true, false, ◌&&◌, some, List, Text, ◌==◌, ◌=s=◌, ==_iff, Bool-cases, inl, inr,
}
use mdrive.Result.{ok}
use mdrive.Node.Content.{DirEntry}
use mdrive.Node.Inode.{Node}
use mdrive.Node.Dir.{find_entry}
use mdrive.Node.Dir.Listing.{IsDirectory, read_dir_lem, lookup_lem}
use mdrive.World.Tables.{Row}
use mdrive.World.Action.{World, Env, step}
use mdrive.World.Keeps.{is_open, with_tx_open}
use mdrive.Repo.{from_ent, get}
use mdrive.NodeOp.Create.{get_by_id}
use mdrive.NodeOp.Move.{move_entry, move_body, move_found}
use mdrive.Vfs.Remove.{garbage_of}
use mdrive.Vfs.Transfer.{capture_overwrite_ref, apply_move_entry}

capture_lem :
    (q : Node) (dst : Text) (y : DirEntry) (fs : List DirEntry) (r : Row) (e : Env) (w : World)
    → IsDirectory q fs
    → find_entry dst fs ≡ some y
    → w.committed.nodes y.inode_id ≡ some r
    → e.fault w.tick ≡ false
    → capture_overwrite_ref q dst e w ≡ (ok (garbage_of (from_ent y.inode_id r)), step w)
unfolding capture_overwrite_ref get_by_id get
capture_lem q dst y fs r e w d found row quiet = rw (lookup_lem d, found, quiet, row) refl

-- A move onto another name of the same inode does nothing.
move_body-same :
    (p q : Node) (src dst : Text) (x y : DirEntry) (es fs : List DirEntry) (e : Env) (w : World)
    → IsDirectory p es
    → IsDirectory q fs
    → find_entry src es ≡ some x
    → find_entry dst fs ≡ some y
    → (y.inode_id == x.inode_id) ≡ true
    → move_body p src q dst e w ≡ (ok (p, q), w)
unfolding move_body move_found
move_body-same p q src dst x y es fs e w d f found found' same =
    elim (Bool-cases ((p.id == q.id) && (src =s= dst))) [
      | inl there ↦ rw (read_dir_lem d, found, there) refl
      | inr away ↦ rw (read_dir_lem d, found, away, read_dir_lem f, found', same) refl
    ]

-- Inside a transaction, a move from one well-formed directory to another, onto a name that leads to the
-- same inode, whose row is there and is read without a failing call, changes nothing, neither the
-- directories nor the tables, and still returns the garbage that the row of the inode would leave.
pub apply_move_entry-same :
    (p q : Node) (src dst : Text) (x y : DirEntry) (es fs : List DirEntry) (r : Row) (e : Env)
    (w : World)
    → is_open w ≡ true
    → IsDirectory p es
    → IsDirectory q fs
    → find_entry src es ≡ some x
    → find_entry dst fs ≡ some y
    → y.inode_id ≡ x.inode_id
    → w.committed.nodes y.inode_id ≡ some r
    → e.fault w.tick ≡ false
    → apply_move_entry p src q dst e w ≡ (ok (p, q, garbage_of (from_ent y.inode_id r)), step w)
unfolding apply_move_entry move_entry
apply_move_entry-same p q src dst x y es fs r e w begun d f found found' same row quiet =
    rw
      (
        capture_lem q dst y fs r e w f found' row quiet,
        with_tx_open (move_body p src q dst) e (step w) begun,
        move_body-same p q src dst x y es fs e (step w) d f found found' ((==_iff _ _).1 same),
      )
      refl
