-- ===== src/Auth/Found.antt =====
-- internal/auth/flow.go: the user that findOrCreateUser returns.
use mdrive.Prelude.{
  ℕ, suc, ◌≡◌, refl, sym, ap, ◌∙◌, subst, false, Option, none, some, Text, ◌=s=◌, arith, Bool-cases,
  inl, inr,
}
use mdrive.Result.{Result, ok}
use mdrive.World.Tables.{User, Db}
use mdrive.World.Rows.{find}
use mdrive.World.Action.{World, Env, step, ◌>>=◌}
use mdrive.World.Inversion.{>>=-elim}
use mdrive.Users.{has_provider_id, find_user, get_user_by_provider_id}
use mdrive.Users.Settled.{IsKeyed, upsert-IsSettled}
use mdrive.Auth.{
  AuthConfig, look_up, login_command, legacy_provider, legacy_if_new, create_if_new,
  find_or_create_user,
}

abbrev pub under : Text → Text → World → Option User
under provider sub w = find (has_provider_id provider sub) w.committed.users

same_value :
    {A : Type 0} (a b : A) (w v : World) → ◌≡◌ {A = Result A × World} (ok a, w) (ok b, v) → a ≡ b
same_value a b w v h = cc

same_world :
    {A : Type 0} (a b : Result A) (w v : World) → ◌≡◌ {A = Result A × World} (a, w) (b, v) → w ≡ v
same_world {A} a b w v h = ap (λ (r : Result A × World). r.1) h

-- A lookup that found a user, whatever happened to it.
abbrev Finds : Text → Text → World → Option User → World → Type 0
Finds provider sub w o v =
    (v.committed ≡ w.committed) × ((u : User) → o ≡ some u → under provider sub w ≡ some u)

look_up-Finds :
    (provider sub : Text) (o : Option User) (e : Env) (w v : World)
    → look_up provider sub e w ≡ (ok o, v)
    → Finds provider sub w o v
unfolding look_up get_user_by_provider_id find_user
look_up-Finds provider sub o e w v h = elim (Bool-cases (e.fault w.tick)) [
  | inl bad ↦ ground (arith, bad)
  | inr good ↦ ground (arith, good)
]

-- The user has no row under the legacy provider, unless it is the configured one.
abbrev pub NoLegacy : AuthConfig → Text → World → Type 0
NoLegacy c sub w =
    (c.provider_name =s= legacy_provider) ≡ false → under legacy_provider sub w ≡ none

none_found :
    (provider sub : Text) (o : Option User) (w v : World)
    → Finds provider sub w o v
    → under provider sub w ≡ none
    → o ≡ none
none_found provider sub none w v (same, f) h = refl
none_found provider sub (some u) w v (same, f) h = absurd (ground (arith, f u refl))

legacy_if_new-none :
    (c : AuthConfig) (sub : Text) (o : Option User) (e : Env) (w v : World)
    → NoLegacy c sub w
    → legacy_if_new c sub none e w ≡ (ok o, v)
    → (o ≡ none) × (v.committed ≡ w.committed)
unfolding legacy_if_new
legacy_if_new-none c sub o e w v no_legacy h =
    elim (Bool-cases (c.provider_name =s= legacy_provider)) [
      | inl legacy ↦
          let same : ◌≡◌ {A = Result (Option User) × World} (ok none, w) (ok o, v) =
            sym (rw legacy refl) ∙ h in
          (
            sym (same_value none o w v same),
            ap (λ (w : World). w.committed) (sym (same_world (ok none) (ok o) w v same)),
          )
      | inr new ↦
          let found = look_up-Finds legacy_provider sub o e w v (sym (rw new refl) ∙ h) in
          (none_found legacy_provider sub o w v found (no_legacy new), found.0)
    ]

create_if_new-found :
    (c : AuthConfig) (sub name email : Text) (o : Option User) (u : User) (e : Env) (w w' : World)
    → IsKeyed (login_command c sub name email) w.committed.users
    → ((x : User) → o ≡ some x → under c.provider_name sub w ≡ some x)
    → create_if_new c sub name email o e w ≡ (ok u, w')
    → under c.provider_name sub w' ≡ some u
unfolding create_if_new
create_if_new-found c sub name email none u e w w' keyed f h =
    (upsert-IsSettled (login_command c sub name email) u e w w' keyed h).1.0
create_if_new-found c sub name email (some x) u e w w' keyed f h =
    ap (under c.provider_name sub) (sym (same_world (ok x) (ok u) w w' h))
    ∙ (f x refl ∙ ap some (same_value x u w w' h))

-- A user that findOrCreateUser returns has a row under the configured provider, unless it was found
-- under the legacy one.
pub find_or_create_user-found :
    (c : AuthConfig) (sub name email : Text) (u : User) (e : Env) (w w' : World)
    → IsKeyed (login_command c sub name email) w.committed.users
    → NoLegacy c sub w
    → find_or_create_user c sub name email e w ≡ (ok u, w')
    → under c.provider_name sub w' ≡ some u
unfolding find_or_create_user
find_or_create_user-found c sub name email u e w w' keyed no_legacy h =
    >>=-elim (look_up c.provider_name sub)
      (λ o. legacy_if_new c sub o >>= create_if_new c sub name email) e w w' u h
      λ o v h₁ k₁. go o v (look_up-Finds c.provider_name sub o e w v h₁) k₁
  where
    keyed_at :
        (v : World)
        → v.committed ≡ w.committed
        → IsKeyed (login_command c sub name email) v.committed.users
    keyed_at v same =
        subst (λ (d : Db). IsKeyed (login_command c sub name email) d.users) (sym same) keyed

    go :
        (o : Option User) (v : World)
        → Finds c.provider_name sub w o v
        → (legacy_if_new c sub o >>= create_if_new c sub name email) e v ≡ (ok u, w')
        → under c.provider_name sub w' ≡ some u
    go (some x) v (same, f) k =
        create_if_new-found c sub name email (some x) u e v w' (keyed_at v same)
          (λ y q. ap (λ (d : Db). find (has_provider_id c.provider_name sub) d.users) same ∙ f y q)
          k
    go none v (same, f) k =
        >>=-elim (legacy_if_new c sub none) (create_if_new c sub name email) e v w' u k
          λ o₂ v₂ h₂ k₂.
            let (gone, same₂) =
              legacy_if_new-none c sub o₂ e v v₂
                (λ q.
                  ap (λ (d : Db). find (has_provider_id legacy_provider sub) d.users) same
                  ∙ no_legacy q)
                h₂ in
            create_if_new-found c sub name email none u e v₂ w' (keyed_at v₂ (same₂ ∙ same))
              (λ x q. absurd (ground (arith, q)))
              (subst (λ (x : Option User). create_if_new c sub name email x e v₂ ≡ (ok u, w')) gone
                k₂)

pub legacy_found :
    (c : AuthConfig) (sub name email : Text) (old : User) (e : Env) (w : World)
    → (c.provider_name =s= legacy_provider) ≡ false
    → under c.provider_name sub w ≡ none
    → under legacy_provider sub w ≡ some old
    → ((t : ℕ) → e.fault t ≡ false)
    → find_or_create_user c sub name email e w ≡ (ok old, step (step w))
unfolding find_or_create_user look_up get_user_by_provider_id find_user
legacy_found c sub name email old e w new gone there quiet =
    rw (quiet w.tick, gone, new, quiet (suc w.tick), there) refl
