-- ===== src/Repo/Calls.antt =====
-- internal/core/node/ent.go: Get and Delete, seen through the tables that they work on.
use mdrive.Prelude.{ℕ, ◌≡◌, ◌≢◌, refl, Option, none, some, arith, ==_iff, Option-cases, inl, inr}
use mdrive.Result.{ok}
use mdrive.Node.Inode.{Node}
use mdrive.World.Tables.{Row, delete_row}
use mdrive.World.Action.{World, Env, view}
use mdrive.Repo.{from_ent, get, delete}

-- Get reads the committed row, also inside a transaction, and changes nothing.
pub get-ok :
    (id : ℕ) (n : Node) (e : Env) (w w' : World)
    → get id e w ≡ (ok n, w')
    → (view w' ≡ view w) × ((r : Row) × (w.committed.nodes id ≡ some r) × (n ≡ from_ent id r))
unfolding get
get-ok id n e w w' h = elim (Option-cases (w.committed.nodes id)) [
  | inl absent ↦ absurd (ground arith)
  | inr (r, found) ↦ (ground arith, (r, found, ground arith))
]

-- Delete takes one row out of the tables.
pub delete-ok :
    (id : ℕ) (e : Env) (w w' : World) (a : Unit)
    → delete id e w ≡ (ok a, w')
    → (view w').nodes ≡ delete_row (view w).nodes id
unfolding delete
delete-ok id e w w' a h = elim (Option-cases ((view w).nodes id)) [
  | inl absent ↦ absurd (ground arith)
  | inr (r, found) ↦ ground arith
]

pub deleted_elsewhere : (t : ℕ → Option Row) (i j : ℕ) → i ≢ j → delete_row t i j ≡ t j
deleted_elsewhere t i j h = ground (arith, ==_iff i j)

pub deleted_here : (t : ℕ → Option Row) (i : ℕ) → delete_row t i i ≡ none
deleted_here t i = ground (arith, ==_iff i i)

pub from_ent-id : (id : ℕ) (r : Row) → (from_ent id r).id ≡ id
unfolding from_ent
from_ent-id id r = refl
