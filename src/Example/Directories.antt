-- ===== src/Example/Directories.antt =====
-- The operations of one directory, and the listings of MoveEntry, on the small file system.
use mdrive.Prelude.{ℕ, ◌≡◌, refl, some, List, [], ◌∷◌, ◌++◌, Text, codes, ◌=s=◌, if◌then◌else◌}
use mdrive.Result.{Result, ok}
use mdrive.Node.Content.{DirEntry, content_len}
use mdrive.Node.Inode.{Node, Stamp}
use mdrive.Node.Typed.{Seed}
use mdrive.Node.Dir.{find_entry, read_dir, write_dir, entry_of, add_entry, lookup}
use mdrive.Node.Dir.Listing.{IsDirectory, lookup-add_entry}
use mdrive.NodeOp.Unlink.{seen, plan}
use mdrive.NodeOp.Unlink.Plan.{Once, some_name, plan_lem}
use mdrive.Example.Fixture.{entry, here, left, leaf, left-IsDirectory, value}

abbrev stamp : Stamp
stamp = record { now = 9; rev = codes "next" }

abbrev seed : Seed
seed = record { id = 8; born = stamp; written = stamp }

-- Directory 1 with the file 4 under a further name.
unfoldable added : Result Node
unfolding add_entry
added = add_entry stamp (codes "d") (leaf 4 2) left

lookup-add_entry_example :
    let n = value left added in
    IsDirectory n (here ++ entry_of (codes "d") (leaf 4 2) ∷ [])
    × ((m : Text)
        → lookup m n
          ≡ ok (
              if codes "d" =s= m
              then some (entry_of (codes "d") (leaf 4 2))
              else find_entry m here))
unfolding added ◌=s=◌ find_entry read_dir write_dir content_len
lookup-add_entry_example =
    lookup-add_entry stamp (codes "d") (leaf 4 2) left (value left added) here left-IsDirectory refl

-- Two names of the file 4.
abbrev twice : List DirEntry
twice = entry 4 (codes "a") ∷ entry 4 (codes "b") ∷ []

plan_lem_example :
    let names = codes "a" ∷ codes "b" ∷ [] in
    Once (plan twice names [])
    × ((id : ℕ) → seen id (plan twice names []) ≡ some_name id twice names)
plan_lem_example = plan_lem twice (codes "a" ∷ codes "b" ∷ [])
