-- ===== src/Example/Operations.antt =====
-- Link, Unlink and MoveEntry on the small file system.
use mdrive.Prelude.{
  ℕ, ◌≡◌, ◌≢◌, refl, none, some, Option, List, [], ◌∷◌, ◌++◌, Text, codes, ◌=s=◌, if◌then◌else◌,
  arith,
}
use mdrive.Result.{Result, err}
use mdrive.Node.Content.{DirEntry, content_len}
use mdrive.Node.Inode.{Node}
use mdrive.Node.Dir.{find_entry, without, entry_of, read_dir, write_dir, add_entry, remove_entry}
use mdrive.Node.Dir.Listing.{IsDirectory}
use mdrive.World.Action.{World, draw_stamp}
use mdrive.World.Tx.{with_tx}
use mdrive.World.Tables.{Row}
use mdrive.Repo.{save, get, from_ent, delete}
use mdrive.World.Keeps.{Atomic}
use mdrive.Repo.Locking.{HasRow}
use mdrive.NodeOp.Link.{Memory, link, bulk_link}
use mdrive.NodeOp.Link.Effect.{link_lem}
use mdrive.NodeOp.Unlink.{unlink, bulk_unlink, unlink_or_replace}
use mdrive.Errorx.{Kind}
use mdrive.NodeOp.Unlink.Twice.{unlink-twice}
use mdrive.NodeOp.Unlink.Outcome.{unlink_lem}
use mdrive.NodeOp.Unlink.Effect.{Dropped}
use mdrive.NodeOp.Move.{move_entry}
use mdrive.NodeOp.Move.Outcome.{Elsewhere, move_entry_across, move_entry_within}
use mdrive.NodeOp.Atomic.{operations-Atomic}
use mdrive.Example.Fixture.{
  quiet, entry, here, there, left, right, leaf, table, world, left-IsDirectory, right-IsDirectory,
  value,
}

-- `a` of directory 1 becomes `d` of directory 2.
unfoldable across : Result (Node × Node) × World
unfolding move_entry table
across = move_entry (some left) (codes "a") (some right) (codes "d") quiet world

move_entry_across_example :
    let ps = value (left, right) across.0 in
    IsDirectory ps.0 (without (codes "a") here)
    × IsDirectory ps.1 (entry 3 (codes "d") ∷ [])
    × (ps.0.id ≡ 1)
    × (ps.1.id ≡ 2)
    × HasRow across.1.committed.nodes ps.0
    × HasRow across.1.committed.nodes ps.1
    × ((i : ℕ)
        → i ≢ 1
        → i ≢ 2
        → Elsewhere (find_entry (codes "d") there) i
        → across.1.committed.nodes i ≡ world.committed.nodes i)
unfolding across ◌=s=◌ find_entry with_tx read_dir draw_stamp write_dir content_len save
move_entry_across_example =
    move_entry_across (codes "a") (codes "d") (entry 3 (codes "a")) here there left right
      (value (left, right) across.0).0 (value (left, right) across.0).1 quiet world across.1 refl
      (λ e. omega arith) left-IsDirectory right-IsDirectory refl refl (λ y e. cc) refl

-- `a` of directory 1 becomes `d`.
unfoldable within : Result (Node × Node) × World
unfolding move_entry table
within = move_entry (some left) (codes "a") (some left) (codes "d") quiet world

move_entry_within_example :
    let p = (value (left, left) within.0).0 in
    (gs : List DirEntry) × IsDirectory p gs
    × ((m : Text)
        → find_entry m gs ≡ (
            if codes "d" =s= m
            then some (entry 3 (codes "d"))
            else if codes "a" =s= m
            then none
            else find_entry m here))
    × (p.id ≡ 1)
    × HasRow within.1.committed.nodes p
    × ((i : ℕ)
        → i ≢ 1
        → Elsewhere (find_entry (codes "d") here) i
        → within.1.committed.nodes i ≡ world.committed.nodes i)
unfolding within ◌=s=◌ find_entry with_tx read_dir draw_stamp write_dir content_len save
move_entry_within_example =
    move_entry_within (codes "a") (codes "d") (entry 3 (codes "a")) here left
      (value (left, left) within.0).0 (value (left, left) within.0).1 quiet world within.1 refl refl
      left-IsDirectory refl refl (λ y e. cc) refl

-- The file 4, which has two links, gets the name `d` in directory 1.
unfoldable linked_run : Result (Node × Node) × World
unfolding link table
linked_run = link (some left) (codes "d") (some (leaf 4 2)) quiet world

link_lem_example :
    let ps = value (left, left) linked_run.0 in
    (find_entry (codes "d") here ≡ none)
    × IsDirectory ps.0 (here ++ entry_of (codes "d") (leaf 4 2) ∷ [])
    × (ps.0.id ≡ 1)
    × (ps.1.nlink ≡ 3)
    × (ps.1.id ≡ 4)
    × (ps.1.kind ≡ (leaf 4 2).kind)
    × (ps.1.content ≡ (leaf 4 2).content)
    × HasRow linked_run.1.committed.nodes ps.0
    × HasRow linked_run.1.committed.nodes ps.1
    × ((i : ℕ) → i ≢ 1 → i ≢ 4 → linked_run.1.committed.nodes i ≡ world.committed.nodes i)
unfolding linked_run ◌=s=◌ find_entry with_tx read_dir draw_stamp write_dir content_len save
    add_entry
link_lem_example =
    link_lem left (leaf 4 2) (value (left, left) linked_run.0).0 (value (left, left) linked_run.0).1
      (codes "d") here quiet world linked_run.1 refl (λ e. omega arith) left-IsDirectory refl

-- The name `a`, the last of the file 3, is taken away.
unfoldable unlinked_run : Result (Node × Option Node) × World
unfolding unlink table
unlinked_run = unlink (some left) (codes "a") quiet world

unlink_lem_example :
    let p = (value (left, none) unlinked_run.0).0 in
    let deleted = (value (left, none) unlinked_run.0).1 in
    let rows = unlinked_run.1.committed.nodes in
    (x : DirEntry) × (find_entry (codes "a") here ≡ some x)
    × IsDirectory p (without (codes "a") here)
    × (p.id ≡ 1)
    × ((mid : ℕ → Option Row) × HasRow mid p
        × ((i : ℕ) → i ≢ 1 → mid i ≡ table i)
        × Dropped table mid rows x.inode_id deleted)
    × (x.inode_id ≢ 1 → HasRow rows p)
    × ((i : ℕ) → i ≢ 1 → x.inode_id ≢ i → rows i ≡ table i)
unfolding unlinked_run ◌=s=◌ find_entry with_tx read_dir draw_stamp write_dir content_len save
    remove_entry get from_ent delete
unlink_lem_example =
    unlink_lem left (value (left, none) unlinked_run.0).0 (codes "a")
      (value (left, none) unlinked_run.0).1 here quiet world unlinked_run.1 refl left-IsDirectory
      refl

operations-Atomic_example :
    ((p c : Option Node) (name : Text) → Atomic world.committed (link p name c quiet world))
    × ((p : Option Node) (entries again : List (Text × Option ℕ)) (mem : Memory)
        → Atomic world.committed (bulk_link p entries again mem quiet world))
    × ((p : Option Node) (name : Text) → Atomic world.committed (unlink p name quiet world))
    × ((p : Option Node) (name : Text)
        → Atomic world.committed (unlink_or_replace p name quiet world))
    × ((p : Option Node) (names : List Text)
        → Atomic world.committed (bulk_unlink p names quiet world))
    × ((p q : Option Node) (src dst : Text)
        → Atomic world.committed (move_entry p src q dst quiet world))
operations-Atomic_example = operations-Atomic quiet world refl

-- Inside a transaction, `a` is taken away, and then `b` from a copy that was loaded before.
abbrev inside : World
inside = record world { tx = some world.committed }

unfoldable first_run : Result (Node × Option Node) × World
unfolding unlink table
first_run = unlink (some left) (codes "a") quiet inside

unlink-twice_example :
    ((get 1 quiet first_run.1).0 ≡ (get 1 quiet inside).0)
    × ((unlink (some left) (codes "b") quiet first_run.1).0 ≡ err Kind.revision_conflict)
unfolding first_run ◌=s=◌ find_entry with_tx read_dir draw_stamp write_dir content_len save
    remove_entry get from_ent delete
unlink-twice_example =
    unlink-twice left (value (left, none) first_run.0).0 (codes "a") (codes "b")
      (entry 3 (codes "a")) (entry 4 (codes "b")) (value (left, none) first_run.0).1 here quiet
      inside first_run.1 refl left-IsDirectory (λ t. refl) (λ t e. cc) refl (λ e. omega arith) refl
      refl
