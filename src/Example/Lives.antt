-- ===== src/Example/Lives.antt =====
-- The drive of the examples, deleted, restored and purged.
use mdrive.Prelude.{◌≡◌, refl, none, codes, [], ◌∷◌, ◌=s=◌, ◌==◌}
use mdrive.Errorx.{Kind}
use mdrive.Result.{ok, err}
use mdrive.World.Rows.{find}
use mdrive.World.Action.{Env, ◌>>◌}
use mdrive.Drives.Rows.{stores}
use mdrive.Drives.{delete_drive, restore, purge}
use mdrive.Drives.Life.{restore-delete_drive, purge-fault}
use mdrive.Example.Fixture.{quiet}
use mdrive.Example.Paths.{drive, world}

restore-delete_drive_example :
    ((delete_drive (codes "d") >> restore (codes "d")) quiet world).0
    ≡ ok (record drive { deleted_at = none; updated_at = 105 })
unfolding find ◌=s=◌
restore-delete_drive_example = restore-delete_drive (codes "d") drive quiet world (λ t. refl) refl

-- The second call of the database fails.
abbrev second_fails : Env
second_fails = record quiet { fault = λ t. t == 1 }

purge-fault_example :
    ((purge (codes "d") second_fails world).0 ≡ err Kind.unknown)
    × ((purge (codes "d") second_fails world).1.committed.drives ≡ drive ∷ [])
    × (find (stores (codes "d")) (purge (codes "d") second_fails world).1.committed.storages ≡ none)
purge-fault_example = purge-fault (codes "d") second_fails world refl refl refl
