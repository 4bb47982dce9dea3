-- ===== src/Repo/Locking.antt =====
-- internal/core/node/ent.go: what Save and Get promise one another, and optimistic concurrency.
use mdrive.Prelude.{
  ℕ, suc, ◌≡◌, ◌≢◌, refl, sym, ◌∙◌, Bool, true, false, Option, none, some, ◌=s=◌, =s=_iff, ==_iff,
  if◌then◌else◌, arith, Bool-cases, Option-cases, inl, inr,
}
use mdrive.Errorx.{Kind}
use mdrive.Result.{ok, err}
use mdrive.Node.Kinds.{parse_node_kind-ent_kind}
use mdrive.Node.Inode.{Node}
use mdrive.World.Tables.{Row, Db, write_row}
use mdrive.World.Action.{World, Env, step, view, put_view}
use mdrive.World.Keeps.{Isolated}
use mdrive.Repo.{from_ent, to_row, get, save, saved, save_nodes, delete}

pub Isolated-get : (id : ℕ) → Isolated (get id)
unfolding get
Isolated-get id = record { at = λ e w o. ground arith }

pub Isolated-save : (n : Node) → Isolated (save n)
unfolding save
Isolated-save n = record { at = λ e w o. ground arith }

pub Isolated-delete : (id : ℕ) → Isolated (delete id)
unfolding delete
Isolated-delete id = record { at = λ e w o. ground arith }

-- What a row holds after a save of `n`: the creation time of an old row stays.
abbrev pub stored : Node → Option Row → Row
stored n none = to_row n
stored n (some r) = record (to_row n) { crtime = r.crtime }

-- The row that Save finds lets it write.
abbrev pub may_write : Node → Option Row → Bool
may_write n none = true
may_write n (some r) = r.revision =s= n.stale_rev

-- Save makes two calls of the database. If neither fails it writes exactly when there is no row, or
-- the row has the revision that was loaded; else it reports a revision conflict and writes nothing.
pub save_lem :
    (n : Node) (e : Env) (w : World)
    → e.fault w.tick ≡ false
    → e.fault (suc w.tick) ≡ false
    → save n e w ≡ (
        if may_write n ((view w).nodes n.id)
        then (
          ok (saved n),
          save_nodes
              (write_row (view w).nodes n.id (stored n ((view w).nodes n.id)))
              (step (step w)),
        )
        else (err Kind.revision_conflict, step (step w)))
unfolding save to_row
save_lem n e w f g = elim (Option-cases ((view w).nodes n.id)) [
  | inl absent ↦ ground arith
  | inr (r, found) ↦ ground arith
]

save_ok :
    (n n' : Node) (e : Env) (w w' : World)
    → save n e w ≡ (ok n', w')
    → (may_write n ((view w).nodes n.id) ≡ true)
      × (n' ≡ saved n)
      × (w'
          ≡ save_nodes
              (write_row (view w).nodes n.id (stored n ((view w).nodes n.id)))
              (step (step w)))
unfolding save to_row
save_ok n n' e w w' h = elim (Option-cases ((view w).nodes n.id)) [
  | inl absent ↦ ground arith
  | inr (r, found) ↦ ground arith
]

view-put_view : (d : Db) (w : World) → view (put_view d w) ≡ d
view-put_view d w = ground arith

view-step : (w : World) → view (step w) ≡ view w
view-step w = refl

-- A node that was saved outside of a transaction reads back, in a call of the database that does not
-- fail, as it was saved, at its new revision and with the creation time of its row.
pub get-save :
    (n n' : Node) (e : Env) (w w' : World)
    → w.tx ≡ none
    → save n e w ≡ (ok n', w')
    → e.fault w'.tick ≡ false
    → get n.id e w' ≡ (
      ok (record n { crtime = (stored n ((view w).nodes n.id)).crtime; stale_rev = n.rev }),
      step w',
    )
unfolding get from_ent to_row
get-save n n' e w w' closed h f =
    ground (arith, save_ok n n' e w w' h, parse_node_kind-ent_kind n.kind)

pub row_written : (t : ℕ → Option Row) (i : ℕ) (r : Row) → write_row t i r i ≡ some r
row_written t i r = ground (arith, ==_iff i i)

stored_revision : (n : Node) (o : Option Row) → (stored n o).revision ≡ n.rev
unfolding to_row
stored_revision n none = refl
stored_revision n (some r) = refl

pub may_not_write :
    (a b : Node) (o : Option Row)
    → a.stale_rev ≡ b.stale_rev
    → a.rev ≢ a.stale_rev
    → may_write b (some (stored a o)) ≡ false
may_not_write a b o loaded fresh = elim (Bool-cases (may_write b (some (stored a o)))) [
  | inl writes ↦ absurd (fresh (sym (stored_revision a o) ∙ ((=s=_iff _ _).0 writes ∙ sym loaded)))
  | inr refused ↦ refused
]

-- No update is lost: of two copies of a node that were loaded at the same revision, once one has
-- been saved at a new revision, saving the other in calls of the database that do not fail reports a
-- revision conflict and writes nothing.
pub save_conflict :
    (a a' b : Node) (e : Env) (w w' : World)
    → a.id ≡ b.id
    → a.stale_rev ≡ b.stale_rev
    → a.rev ≢ a.stale_rev
    → save a e w ≡ (ok a', w')
    → e.fault w'.tick ≡ false
    → e.fault (suc w'.tick) ≡ false
    → save b e w' ≡ (err Kind.revision_conflict, step (step w'))
save_conflict a a' b e w w' same loaded fresh h f g =
    let (_, _, after) = save_ok a a' e w w' h in
    let there : (view w').nodes b.id ≡ some (stored a ((view w).nodes a.id)) =
      rw (after, ← same, view-put_view) (row_written (view w).nodes a.id _) in
    save_lem b e w' f g ∙ rw (there, may_not_write a b ((view w).nodes a.id) loaded fresh) refl

-- A save that succeeded, seen through the tables that it works on.
pub save-view :
    (n n' : Node) (e : Env) (w w' : World)
    → save n e w ≡ (ok n', w')
    → (may_write n ((view w).nodes n.id) ≡ true)
      × (n' ≡ saved n)
      × ((view w').nodes ≡ write_row (view w).nodes n.id (stored n ((view w).nodes n.id)))
save-view n n' e w w' h =
    let (may, same, after) = save_ok n n' e w w' h in (may, same, rw (after, view-put_view))

-- A row of the table reads back as the node, but for the creation time, which is the row's.
abbrev pub HasRow : (ℕ → Option Row) → Node → Type 0
HasRow t n = (r : Row) × (t n.id ≡ some r) × (from_ent n.id r ≡ record n { crtime = r.crtime })

from_ent-stored :
    (n : Node) (o : Option Row)
    → from_ent n.id (stored n o) ≡ record (saved n) { crtime = (stored n o).crtime }
unfolding from_ent to_row
from_ent-stored n none = ground (arith, parse_node_kind-ent_kind n.kind)
from_ent-stored n (some r) = ground (arith, parse_node_kind-ent_kind n.kind)

pub HasRow-written :
    (t : ℕ → Option Row) (n : Node) (o : Option Row)
    → HasRow (write_row t n.id (stored n o)) (saved n)
HasRow-written t n o = (stored n o, row_written t n.id (stored n o), from_ent-stored n o)

pub row_kept : (t : ℕ → Option Row) (i j : ℕ) (r : Row) → i ≢ j → write_row t i r j ≡ t j
row_kept t i j r h = ground (arith, ==_iff i j)

-- A write elsewhere leaves the row there.
pub HasRow-elsewhere :
    (t : ℕ → Option Row) (i : ℕ) (r : Row) (n : Node)
    → i ≢ n.id
    → HasRow t n
    → HasRow (write_row t i r) n
HasRow-elsewhere t i r n h (x, p, q) = (x, row_kept t i n.id r h ∙ p, q)
