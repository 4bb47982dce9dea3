-- ===== src/Example/Database.antt =====
-- The repository and the transactions on the small file system.
use mdrive.Prelude.{◌≡◌, refl, codes, ◌=s=◌}
use mdrive.Errorx.{Kind}
use mdrive.Result.{Result, ok, err}
use mdrive.Node.Inode.{Node}
use mdrive.World.Action.{World, step}
use mdrive.World.Tx.{with_tx}
use mdrive.World.Keeps.{Atomic, with_tx-Atomic}
use mdrive.Repo.{save, get}
use mdrive.Repo.Locking.{Isolated-save, stored, get-save, save_conflict}
use mdrive.Example.Fixture.{quiet, left, table, world, value}

-- Two copies of directory 1, each changed.
abbrev one : Node
one = record left { nlink = 2; rev = codes "one" }

abbrev other : Node
other = record left { nlink = 3; rev = codes "other" }

unfoldable saved_one : Result Node × World
unfolding save table
saved_one = save one quiet world

save_conflict_example :
    save other quiet saved_one.1 ≡ (err Kind.revision_conflict, step (step saved_one.1))
unfolding saved_one ◌=s=◌
save_conflict_example =
    save_conflict one (value left saved_one.0) other quiet world saved_one.1 refl refl (λ e. cc)
      refl refl refl

get-save_example : get 1 quiet saved_one.1 ≡ (
  ok (record one { crtime = (stored one (table 1)).crtime; stale_rev = codes "one" }),
  step saved_one.1,
)
unfolding saved_one ◌=s=◌
get-save_example = get-save one (value left saved_one.0) quiet world saved_one.1 refl refl refl

with_tx-Atomic_example : Atomic world.committed (with_tx (save one) quiet world)
with_tx-Atomic_example = with_tx-Atomic (save one) quiet world (Isolated-save one) refl
