-- ===== src/Gc/Purger.antt =====
-- internal/app/gc/runner.go: what DrivePurger leaves alone.
use mdrive.Prelude.{
  Option, some, none, ◌<◌, ◌≤◌, leb→le, =s=_iff, ℕ, zero, suc, ◌-◌, ◌≡◌, refl, sym, ap, ◌∙◌, subst,
  true, false, none, List, [], ◌∷◌, Text, ◌=s=◌, arith, Bool-cases, inl, inr,
}
use mdrive.Result.{Result, ok, err}
use mdrive.World.Tables.{Drive, Db}
use mdrive.World.Rows.{find, exists_where, select, find-delete_where_other}
use mdrive.World.Action.{World, Env, step, draw_now}
use mdrive.Drives.Rows.{
  has_id, stores, deleted_before, limit, delete_rows, delete_storage, find_deleted,
}
use mdrive.Drives.{purge, list_deleted_for_admin}
use mdrive.Drives.Life.{other_drive, other_storage}
use mdrive.Outside.{Site, lift, ◌>>=◌}
use mdrive.Gc.{default_process_limit, retention_or_default, purge_all, purge_drives}

-- The drive and its storage are found as before, and no transaction runs.
abbrev pub Kept : Text → World → World → Type 0
Kept id w w' =
    (w'.tx ≡ none)
    × (find (has_id id) w'.committed.drives ≡ find (has_id id) w.committed.drives)
    × (find (stores id) w'.committed.storages ≡ find (stores id) w.committed.storages)

purge-Kept :
    (other id : Text) (e : Env) (w : World)
    → w.tx ≡ none
    → (other =s= id) ≡ false
    → Kept id w (purge other e w).1
unfolding purge delete_rows delete_storage
purge-Kept other id e w closed apart =
    let drives =
      find-delete_where_other (has_id other) (has_id id) w.committed.drives
        (other_drive other id apart) in
    let storages =
      find-delete_where_other (stores other) (stores id) w.committed.storages
        (other_storage other id apart) in
    elim (Bool-cases (e.fault w.tick)) [
      | inl bad ↦ rw bad (closed, refl, refl)
      | inr good ↦ elim (Bool-cases (e.fault (suc w.tick))) [
        | inl bad₂ ↦ rw (good, closed, bad₂) (refl, refl, storages)
        | inr good₂ ↦ elim (Bool-cases (exists_where (has_id other) w.committed.drives)) [
          | inl there ↦ rw (good, closed, good₂, there) (refl, drives, storages)
          | inr gone ↦ rw (good, closed, good₂, gone) (refl, refl, storages)
        ]
      ]
    ]

-- None of the drives has the id.
abbrev Avoids : Text → List Drive → Type 0
Avoids id [] = Unit {0}
Avoids id (d ∷ ds) = ((d.id =s= id) ≡ false) × Avoids id ds

purge_all-Kept :
    {S : Type 0} (id : Text) (ds : List Drive) (e : Env) (s : Site S)
    → s.world.tx ≡ none
    → Avoids id ds
    → Kept id s.world (purge_all ds e s).1.world
unfolding purge_all
purge_all-Kept id [] e s closed a = (closed, refl, refl)
purge_all-Kept id (d ∷ ds) e s closed (apart, a) =
    let (closed₁, drives₁, storages₁) = purge-Kept d.id id e s.world closed apart in
    let (closed₂, drives₂, storages₂) =
      purge_all-Kept id ds e (record s { world = (purge d.id e s.world).1 }) closed₁ a in
    (closed₂, drives₂ ∙ drives₁, storages₂ ∙ storages₁)

-- Each row with the id is of a drive that is not deleted, or was deleted after the time.
abbrev pub IsYoung : Text → ℕ → List Drive → Type 0
IsYoung id before [] = Unit {0}
IsYoung id before (d ∷ ds) =
    (d.id ≡ id → (t : ℕ) → d.deleted_at ≡ some t → before < t) × IsYoung id before ds

deleted_before-some :
    (before : ℕ) (o : Option ℕ) (d : Drive)
    → d.deleted_at ≡ o
    → deleted_before before d ≡ true
    → (t : ℕ) × (o ≡ some t) × (t ≤ before)
deleted_before-some before none d is old = absurd (ground (arith, is, old))
deleted_before-some before (some t) d is old = (t, refl, leb→le t before (ground (arith, is, old)))

old_drive :
    (id : Text) (before : ℕ) (d : Drive)
    → (d.id ≡ id → (t : ℕ) → d.deleted_at ≡ some t → before < t)
    → deleted_before before d ≡ true
    → (d.id =s= id) ≡ false
old_drive id before d young old = elim (Bool-cases (d.id =s= id)) [
  | inl same ↦
      let (t, deleted, late) = deleted_before-some before d.deleted_at d refl old in
      let early = young (ground (arith, same, =s=_iff d.id id)) t deleted in absurd (omega arith)
  | inr apart ↦ apart
]

Avoids-select :
    (id : Text) (before : ℕ) (ds : List Drive)
    → IsYoung id before ds
    → Avoids id (select (deleted_before before) ds)
unfolding select
Avoids-select id before [] young = tt
Avoids-select id before (d ∷ ds) (first, young) = elim (Bool-cases (deleted_before before d)) [
  | inl old ↦ rw old (old_drive id before d first old, Avoids-select id before ds young)
  | inr new ↦ rw new (Avoids-select id before ds young)
]

Avoids-limit : (id : Text) (n : ℕ) (ds : List Drive) → Avoids id ds → Avoids id (limit n ds)
unfolding limit
Avoids-limit id zero ds a = tt
Avoids-limit id (suc n) [] a = tt
Avoids-limit id (suc n) (d ∷ ds) (apart, a) = (apart, Avoids-limit id n ds a)

found-Kept :
    {S : Type 0} (id : Text) (r : Result (List Drive)) (w : World) (e : Env) (s : Site S)
    → s.world.tx ≡ none
    → s.world.committed ≡ w.committed
    → ((ds : List Drive) → r ≡ ok ds → Avoids id ds)
    → Kept id w ((lift r >>= purge_all) e s).1.world
found-Kept id (ok ds) w e s closed same a =
    subst (λ (db : Db). Kept id (record w { committed = db }) (purge_all ds e s).1.world) same
      (purge_all-Kept id ds e s closed (a ds refl))
found-Kept id (err k) w e s closed same a = (
  closed,
  ap (λ (db : Db). find (has_id id) db.drives) same,
  ap (λ (db : Db). find (stores id) db.storages) same,
)

listed-Avoids :
    (id : Text) (before : ℕ) (ds : List Drive) (e : Env) (w : World)
    → w.tx ≡ none
    → IsYoung id before w.committed.drives
    → (list_deleted_for_admin true before default_process_limit e w).0 ≡ ok ds
    → Avoids id ds
unfolding list_deleted_for_admin find_deleted
listed-Avoids id before ds e w closed young h = elim (Bool-cases (e.fault w.tick)) [
  | inl bad ↦ absurd (ground (arith, bad))
  | inr good ↦
      let rows = limit default_process_limit (select (deleted_before before) w.committed.drives) in
      let is : ok rows ≡ ok ds = sym (rw (good, closed) refl) ∙ h in
      subst (Avoids id) (ap (λ (r : Result (List Drive)). elim r [ ok x ↦ x | err k ↦ rows ]) is) (
        Avoids-limit id default_process_limit (select (deleted_before before) w.committed.drives)
          (Avoids-select id before w.committed.drives young))
]

listed-step :
    (before : ℕ) (e : Env) (w : World)
    → (list_deleted_for_admin true before default_process_limit e w).1 ≡ step w
unfolding list_deleted_for_admin find_deleted
listed-step before e w = elim (Bool-cases (e.fault w.tick)) [
  | inl bad ↦ rw bad refl
  | inr good ↦ rw good refl
]

-- A run of the job that purges drives, outside of a transaction, whichever of its calls fail, leaves
-- every drive alone that was not deleted by the time of retention before the run: where each row with
-- the id is not deleted, or was deleted after that time, the drive and its storage are found as before.
-- A retention of 0 stands for seven days.
pub purge_drives-Kept :
    {S : Type 0} (retention : ℕ) (id : Text) (e : Env) (s : Site S)
    → s.world.tx ≡ none
    → IsYoung id (e.now s.world.tick - retention_or_default retention) s.world.committed.drives
    → Kept id s.world (purge_drives retention e s).1.world
unfolding purge_drives draw_now
purge_drives-Kept retention id e s closed young =
    let before = e.now s.world.tick - retention_or_default retention in
    let w = step s.world in
    found-Kept id (list_deleted_for_admin true before default_process_limit e w).0 s.world e
      (record s { world = (list_deleted_for_admin true before default_process_limit e w).1 })
      (ap (λ (v : World). v.tx) (listed-step before e w) ∙ closed)
      (ap (λ (v : World). v.committed) (listed-step before e w))
      (λ ds h. listed-Avoids id before ds e w closed young h)
