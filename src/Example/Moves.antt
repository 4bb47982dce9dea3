-- ===== src/Example/Moves.antt =====
-- Mv on a drive whose root has two names of one object.
use mdrive.Prelude.{◌≡◌, refl, some, [], ◌∷◌, codes, ◌=s=◌, arith}
use mdrive.Result.{ok}
use mdrive.Node.Kinds.{NodeKind}
use mdrive.Node.Content.{DirEntry, dir_json, content_len}
use mdrive.Node.Inode.{Node}
use mdrive.Node.Dir.{find_entry}
use mdrive.Node.Dir.Listing.{IsDirectory}
use mdrive.World.Action.{World, step}
use mdrive.World.Keeps.{Atomic}
use mdrive.Repo.{from_ent, to_row}
use mdrive.Vfs.Remove.{garbage_of}
use mdrive.Vfs.Transfer.{apply_move_entry, mv}
use mdrive.Vfs.Transfer.Captured.{apply_move_entry-same}
use mdrive.Vfs.Transfer.Atomic.{mv-Atomic}
use mdrive.Example.Fixture.{quiet, inode}
use mdrive.Example.Paths.{object, rows, world}

abbrev name_o : DirEntry
name_o = record { inode_id = 6; name = codes "o"; kind = NodeKind.object }

abbrev name_q : DirEntry
name_q = record { inode_id = 6; name = codes "q"; kind = NodeKind.object }

abbrev twins : Node
twins = inode 1 NodeKind.directory 1 (dir_json (name_o ∷ name_q ∷ []))

twins-IsDirectory : IsDirectory twins (name_o ∷ name_q ∷ [])
unfolding find_entry content_len ◌=s=◌
twins-IsDirectory = record {
  is_directory = refl;
  holds = refl;
  distinct = (refl, (refl, tt));
  fits = omega arith;
}

abbrev inside : World
inside = record world { tx = some world.committed }

apply_move_entry-same_example :
    apply_move_entry twins (codes "o") twins (codes "q") quiet inside
    ≡ (ok (twins, twins, garbage_of (from_ent 6 (to_row object))), step inside)
unfolding rows find_entry ◌=s=◌
apply_move_entry-same_example =
    apply_move_entry-same twins twins (codes "o") (codes "q") name_o name_q (name_o ∷ name_q ∷ [])
      (name_o ∷ name_q ∷ []) (to_row object) quiet inside refl twins-IsDirectory twins-IsDirectory
      refl refl refl refl refl

mv-Atomic_example :
    Atomic world.committed (mv (codes "d") (codes "/o" ∷ []) (codes "d") (codes "/p") quiet world)
mv-Atomic_example =
    mv-Atomic (codes "d") (codes "d") (codes "/o" ∷ []) (codes "/p") quiet world refl
