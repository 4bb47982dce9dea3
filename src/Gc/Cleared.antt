-- ===== src/Gc/Cleared.antt =====
-- internal/app/gc/runner.go: a run of TombstoneCleaner in which nothing fails.
use mdrive.Prelude.{
  ◌≤◌, length, ltb, ltb→le, arith, true, false, ◌++◌, ◌==◌, ℕ, ◌≡◌, refl, sym, ap, ◌∙◌, subst, Bool,
  not, ◌&&◌, ◌||◌, some, List, [], ◌∷◌, Text, no_text, ◌=s=◌, Bool-cases, inl, inr,
}
use mathlib.Core.List.{Perm}
use mdrive.Result.{ok}
use mdrive.World.Tables.{Storage, Tombstone, Db}
use mdrive.World.Rows.{find, delete_where}
use mdrive.World.Action.{World, Env, step}
use mdrive.Drives.Rows.{limit}
use mdrive.Outside.{Site, at}
use mdrive.Upload.Store.{S3Config, S3Cloud, client_of, new_client, delete_objects}
use mdrive.Gc.Tombstones.{
  add_to_group, by_bucket, oldest_first, TombstoneGroup, has_one_of, delete_tombstones,
  query_tombstones, find_storage_by_bucket,
}
use mdrive.Gc.{default_process_limit, string_ptr, process_group, clean_groups, clean_tombstones}
use mdrive.Gc.Cleaner.{batch}
use mdrive.Gc.Sizes.{is_over, limit-not_over}
use mdrive.Gc.Objects.{
  of_group, of_groups, is_named, of_groups-by_bucket, disjunction-Perm, IsStore, delete_objects-ok,
  delete_objects-has,
}

-- The ids of the groups.
abbrev pub in_groups : List TombstoneGroup → ℕ → Bool
in_groups [] id = false
in_groups (g ∷ groups) id = has_one_of g.ids id || in_groups groups id

-- Each group's bucket has a storage, with a region.
abbrev pub HaveStorage : List Storage → List TombstoneGroup → Type 0
HaveStorage storages [] = Unit {0}
HaveStorage storages (g ∷ groups) =
    ((s : Storage) × (find (λ (x : Storage). x.bucket =s= g.bucket) storages ≡ some s)
      × (no_text s.region ≡ false))
    × HaveStorage storages groups

-- A row with the id is among the rows.
abbrev pub is_among : List Tombstone → ℕ → Bool
is_among [] id = false
is_among (r ∷ rows) id = (r.id == id) || is_among rows id

has_one_of-append :
    (ids : List ℕ) (x id : ℕ) → has_one_of (ids ++ x ∷ []) id ≡ ((x == id) || has_one_of ids id)
has_one_of-append [] x id = refl
has_one_of-append (y ∷ ids) x id = ground (arith, has_one_of-append ids x id)

in_groups-add_to_group :
    (r : Tombstone) (groups : List TombstoneGroup) (id : ℕ)
    → in_groups (add_to_group r groups) id ≡ ((r.id == id) || in_groups groups id)
unfolding add_to_group
in_groups-add_to_group r [] id = ground arith
in_groups-add_to_group r (g ∷ groups) id =
    ground (arith, has_one_of-append g.ids r.id id, in_groups-add_to_group r groups id)

in_groups-by_bucket :
    (groups : List TombstoneGroup) (rows : List Tombstone) (id : ℕ)
    → in_groups (by_bucket groups rows) id ≡ (is_among rows id || in_groups groups id)
unfolding by_bucket
in_groups-by_bucket groups [] id = refl
in_groups-by_bucket groups (r ∷ rows) id =
    ground (
      arith,
      in_groups-by_bucket (add_to_group r groups) rows id,
      in_groups-add_to_group r groups id,
    )

delete_where-cong :
    (p q : Tombstone → Bool) (rows : List Tombstone)
    → ((r : Tombstone) → p r ≡ q r)
    → delete_where p rows ≡ delete_where q rows
unfolding delete_where
delete_where-cong p q [] same = refl
delete_where-cong p q (r ∷ rows) same = ground (arith, same r, delete_where-cong p q rows same)

delete_where-or :
    (p q : Tombstone → Bool) (rows : List Tombstone)
    → delete_where q (delete_where p rows) ≡ delete_where (λ r. p r || q r) rows
unfolding delete_where
delete_where-or p q [] = refl
delete_where-or p q (r ∷ rows) = elim (Bool-cases (p r)) [
  | inl a ↦ rw a (delete_where-or p q rows)
  | inr a ↦ elim (Bool-cases (q r)) [
    | inl b ↦ rw (a, b) (delete_where-or p q rows)
    | inr b ↦ rw (a, b) (ap (λ (rows : List Tombstone). r ∷ rows) (delete_where-or p q rows))
  ]
]

delete_where-never : (rows : List Tombstone) → delete_where (λ r. false) rows ≡ rows
unfolding delete_where
delete_where-never [] = refl
delete_where-never (r ∷ rows) = ap (λ (rows : List Tombstone). r ∷ rows) (delete_where-never rows)

abbrev pub cleared_of : (ℕ → Bool) → Db → Db
cleared_of p d = record d { tombstones = delete_where (λ r. p r.id) d.tombstones }

delete_tombstones-rows :
    (ids : List ℕ) (e : Env) (w : World)
    → ((t : ℕ) → e.fault t ≡ false)
    → (delete_tombstones ids e w).1.committed ≡ cleared_of (has_one_of ids) w.committed
unfolding delete_tombstones
delete_tombstones-rows [] e w quiet =
    ap (λ (rows : List Tombstone). record w.committed { tombstones = rows })
      (sym (delete_where-never w.committed.tombstones))
delete_tombstones-rows (x ∷ ids) e w quiet = rw (quiet w.tick) refl

or_neither : (a b : Bool) → (a || b) ≡ false → (a ≡ false) × (b ≡ false)
or_neither true b h = absurd (ground arith)
or_neither false b h = (refl, h)

not_either : (a b c : Bool) → (not b && (not a && c)) ≡ (not (a || b) && c)
not_either true true c = refl
not_either true false c = refl
not_either false b c = refl

-- The oldest tombstones, as many as a run takes.
abbrev pub oldest : Db → List Tombstone
oldest d = limit default_process_limit (oldest_first d.tombstones)

module _ (C : S3Cloud) (w : IsStore C) where
  process_group-ok :
      (g : TombstoneGroup) (row : Storage) (e : Env) (s : Site C.State)
      → ((t : ℕ) → e.fault t ≡ false)
      → find (λ (x : Storage). x.bucket =s= g.bucket) s.world.committed.storages ≡ some row
      → no_text row.region ≡ false
      → length g.keys ≤ 1000
      → (v : C.State) × (process_group C g e s
          ≡ (ok tt, record { world = step (step s.world); servers = v }))
        × ((bucket key : Text)
            → w.has v bucket key ≡ (not (of_group g bucket key) && w.has s.servers bucket key))
  unfolding process_group find_storage_by_bucket new_client
  process_group-ok g row e s quiet there region few =
      let cfg : S3Config = record {
        region = row.region;
        endpoint = string_ptr row.endpoint;
        access_key = row.access_key;
        secret_key = row.secret_key;
        use_path_style = row.use_path_style;
      } in
      let t = at e (step s.world) in
      (
        (delete_objects (client_of C cfg) t g.bucket g.keys s.servers).1,
        rw
            (
              quiet s.world.tick,
              there,
              region,
              delete_objects-ok C w cfg t (quiet _) g.bucket g.keys s.servers few,
            )
            refl,
        λ bucket key.
            delete_objects-has C w cfg t (quiet _) g.bucket g.keys s.servers bucket key few,
      )

  clean_groups-cleared :
      (groups : List TombstoneGroup) (e : Env) (s : Site C.State)
      → ((t : ℕ) → e.fault t ≡ false)
      → HaveStorage s.world.committed.storages groups
      → is_over 1000 groups ≡ false
      → ((clean_groups C groups e s).0 ≡ ok tt)
        × ((clean_groups C groups e s).1.world.committed
            ≡ cleared_of (in_groups groups) s.world.committed)
        × ((bucket key : Text)
            → w.has (clean_groups C groups e s).1.servers bucket key
              ≡ (not (of_groups groups bucket key) && w.has s.servers bucket key))
  unfolding clean_groups
  clean_groups-cleared [] e s quiet have few = (
    refl,
    ap (λ (rows : List Tombstone). record s.world.committed { tombstones = rows })
        (sym (delete_where-never s.world.committed.tombstones)),
    λ bucket key. refl,
  )
  clean_groups-cleared (g ∷ groups) e s quiet ((row, there, region), have) few =
      let (few_here, few_after) = or_neither (ltb 1000 (length g.keys)) (is_over 1000 groups) few in
      let (v, done, gone) = process_group-ok g row e s quiet there region (ltb→le _ _ few_here) in
      let s₁ : Site C.State = record { world = step (step s.world); servers = v } in
      let s₂ : Site C.State = record s₁ { world = (delete_tombstones g.ids e s₁.world).1 } in
      let rows = delete_tombstones-rows g.ids e s₁.world quiet in
      let have₂ : HaveStorage s₂.world.committed.storages groups =
        subst (λ (d : Db). HaveStorage d.storages groups) (sym rows) have in
      let (ran, rest, left) = clean_groups-cleared groups e s₂ quiet have₂ few_after in
      rw done (
        ran,
        rest
            ∙ (ap (cleared_of (in_groups groups)) rows
                ∙ ap (λ (rows : List Tombstone). record s.world.committed { tombstones = rows })
                    (delete_where-or (λ r. has_one_of g.ids r.id) (λ r. in_groups groups r.id)
                      s.world.committed.tombstones)),
        λ bucket key.
            left bucket key
            ∙ (ap (λ (b : Bool). not (of_groups groups bucket key) && b) (gone bucket key)
                ∙ not_either (of_group g bucket key) (of_groups groups bucket key)
                    (w.has s.servers bucket key)),
      )

  -- A run of the job that cleans up tombstones in which no call fails, over an object store that deletes
  -- what it is asked to, up to a thousand keys at a time, whatever the order in which the buckets are visited, where each of the buckets
  -- of the oldest thousand tombstones has a storage that has a region: it succeeds; the objects that the
  -- oldest thousand name are gone from the store, and no others; and of all the tables only the
  -- tombstones change, of which those with an id of one of the oldest thousand are gone and the others are
  -- left in their order.
  pub clean_tombstones-cleared :
      (visit : List TombstoneGroup → List TombstoneGroup) (e : Env) (s : Site C.State)
      → ((groups : List TombstoneGroup) → Perm (visit groups) groups)
      → ((t : ℕ) → e.fault t ≡ false)
      → HaveStorage s.world.committed.storages (batch visit s.world.committed)
      → ((clean_tombstones C visit e s).0 ≡ ok tt)
        × ((clean_tombstones C visit e s).1.world.committed
            ≡ cleared_of (is_among (oldest s.world.committed)) s.world.committed)
        × ((bucket key : Text)
            → w.has (clean_tombstones C visit e s).1.servers bucket key ≡ (
                not (is_named (oldest s.world.committed) bucket key) && w.has s.servers bucket key))
  unfolding clean_tombstones query_tombstones
  clean_tombstones-cleared visit e s order quiet have =
      let d = s.world.committed in
      let (ran, rows, left) =
        clean_groups-cleared (batch visit d) e (record s { world = step s.world }) quiet have
          (limit-not_over visit default_process_limit (oldest_first d.tombstones) order) in
      let same : (r : Tombstone) → in_groups (batch visit d) r.id ≡ is_among (oldest d) r.id = λ r.
        disjunction-Perm (λ groups. in_groups groups r.id) (λ g. has_one_of g.ids r.id) _ _
          (λ g l. refl) (order (by_bucket [] (oldest d)))
        ∙ (in_groups-by_bucket [] (oldest d) r.id ∙ or_false (is_among (oldest d) r.id)) in
      let same_objects : (bucket key : Text)
          → of_groups (batch visit d) bucket key ≡ is_named (oldest d) bucket key =
        λ bucket key.
          disjunction-Perm (λ groups. of_groups groups bucket key) (λ g. of_group g bucket key) _ _
            (λ g l. refl) (order (by_bucket [] (oldest d)))
          ∙ (of_groups-by_bucket [] (oldest d) bucket key
              ∙ or_false (is_named (oldest d) bucket key)) in
      rw (quiet s.world.tick) (
        ran,
        rows
            ∙ ap (λ (rows : List Tombstone). record d { tombstones = rows })
                (delete_where-cong (λ r. in_groups (batch visit d) r.id)
                  (λ r. is_among (oldest d) r.id) d.tombstones same),
        λ bucket key.
            left bucket key
            ∙ ap (λ (b : Bool). not b && w.has s.servers bucket key) (same_objects bucket key),
      )
    where
      or_false : (b : Bool) → (b || false) ≡ b
      or_false true = refl
      or_false false = refl
