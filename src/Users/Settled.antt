-- ===== src/Users/Settled.antt =====
-- internal/core/user: the row that UpsertFromOIDC leaves.
use mdrive.Prelude.{
  ℕ, suc, ◌≡◌, refl, sym, ap, ◌∙◌, subst, Bool, true, false, Option, none, some, List, [], ◌∷◌,
  ◌++◌, Text, no_text, =s=_refl, arith, Bool-cases, inl, inr,
}
use mdrive.Errorx.{Kind}
use mdrive.Result.{Result, ok}
use mdrive.World.Tables.{User, Db}
use mdrive.World.Rows.{find, find-append, exists-none, exists_where, update_where}
use mdrive.World.Action.{World, Env, step, draw_now, raise_if}
use mdrive.World.Inversion.{>>=-elim, raise_if-ok}
use mdrive.Users.{
  CreateCommand, has_id, has_provider_id, find_user, create_user, clashes, updated_user,
  update_user, email_or, email_differs, differs, upsert_found, upsert,
}

pub find-update :
    (p q : User → Bool) (set : User → User) (x : User) (us : List User)
    → ((y : User) → p (set y) ≡ p y)
    → find p us ≡ some x
    → q x ≡ true
    → find p (update_where q set us) ≡ some (set x)
unfolding find update_where
find-update p q set x [] keep there meets = absurd (ground arith)
find-update p q set x (y ∷ us) keep there meets =
    ground (arith, keep y, find-update p q set x us keep)

abbrev pub wanted : CreateCommand → User → Bool
wanted cmd = has_provider_id cmd.provider cmd.provider_id

abbrev made : CreateCommand → Text → ℕ → User
made cmd id now = record {
  id = id;
  public_id = id;
  name = cmd.name;
  email = cmd.email;
  provider = cmd.provider;
  provider_id = cmd.provider_id;
  created_at = now;
  updated_at = now;
}

user_of : (a b : User) (w v : World) → ◌≡◌ {A = Result User × World} (ok a, w) (ok b, v) → a ≡ b
user_of a b w v h = cc

-- What a creation that succeeded did.
create_user-ok :
    (cmd : CreateCommand) (u : User) (e : Env) (w w' : World)
    → create_user cmd e w ≡ (ok u, w')
    → (u ≡ made cmd (e.ulid w.tick) (e.now (suc w.tick)))
      × (exists_where (clashes u) w.committed.users ≡ false)
      × (w'.committed.users ≡ w.committed.users ++ u ∷ [])
unfolding create_user
create_user-ok cmd u e w w' h = elim (Bool-cases (e.fault (suc (suc w.tick)))) [
  | inl bad ↦ absurd (ground (arith, bad))
  | inr good ↦
      elim (Bool-cases (
        exists_where (clashes (made cmd (e.ulid w.tick) (e.now (suc w.tick)))) w.committed.users)) [
          | inl clash ↦ absurd (ground (arith, good, clash))
          | inr free ↦
              let new = made cmd (e.ulid w.tick) (e.now (suc w.tick)) in
              let done : World = record (step (step (step w))) {
                committed = record w.committed { users = w.committed.users ++ new ∷ [] };
              } in
              let ran : create_user cmd e w ≡ (ok new, done) = rw (good, free) refl in
              let same : ◌≡◌ {A = Result User × World} (ok new, done) (ok u, w') = sym ran ∙ h in
              let is : new ≡ u = user_of new u done w' same in
              (
                sym is,
                subst (λ (x : User). exists_where (clashes x) w.committed.users ≡ false) is free,
                subst (λ (x : User). w'.committed.users ≡ w.committed.users ++ x ∷ []) is
                    (ap (λ (r : Result User × World). r.1.committed.users) (sym same)),
              )
        ]
]

wanted-clashes :
    (u x : User) → has_provider_id u.provider u.provider_id x ≡ true → clashes u x ≡ true
unfolding clashes
wanted-clashes u x h = ground arith

same_email : (o : Option Text) → email_differs o o ≡ false
same_email none = refl
same_email (some a) = rw (=s=_refl a) refl

-- The row that the command looks for is there afterwards, and is the one that is returned.
abbrev IsSettled : CreateCommand → World → User → Type 0
IsSettled cmd w u =
    (find (wanted cmd) w.committed.users ≡ some u)
    × ((m : Text) → cmd.email ≡ some m → differs u cmd ≡ false)

create_user-IsSettled :
    (cmd : CreateCommand) (u : User) (e : Env) (w w' : World)
    → create_user cmd e w ≡ (ok u, w')
    → IsSettled cmd w' u
unfolding differs
create_user-IsSettled cmd u e w w' h =
    let (is, free, rows) = create_user-ok cmd u e w w' h in
    let same_provider : u.provider ≡ cmd.provider = ap (λ (x : User). x.provider) is in
    let same_id : u.provider_id ≡ cmd.provider_id = ap (λ (x : User). x.provider_id) is in
    let meets : wanted cmd u ≡ true =
      rw (same_provider, same_id, =s=_refl cmd.provider, =s=_refl cmd.provider_id) refl in
    let gone : find (wanted cmd) w.committed.users ≡ none =
      exists-none (wanted cmd) (clashes u) w.committed.users
        (λ x q. wanted-clashes u x (rw (same_provider, same_id) q)) free in
    (
      ap (find (wanted cmd)) rows ∙ find-append (wanted cmd) u w.committed.users gone meets,
      λ m given.
          rw
            (
              ap (λ (x : User). x.name) is,
              ap (λ (x : User). x.email) is,
              =s=_refl cmd.name,
              same_email cmd.email,
            )
            refl,
    )

-- A row that is found by its provider and its id there is found by its own id: ids differ.
abbrev pub IsKeyed : CreateCommand → List User → Type 0
IsKeyed cmd us = (u : User) → find (wanted cmd) us ≡ some u → find (has_id u.id) us ≡ some u

update_user-ok :
    (new old u : User) (e : Env) (w w' : World)
    → find (has_id new.id) w.committed.users ≡ some old
    → update_user new e w ≡ (ok u, w')
    → (u ≡ updated_user new (e.now w.tick) old)
      × (w'.committed.users
          ≡ update_where (has_id new.id) (updated_user new (e.now w.tick)) w.committed.users)
unfolding update_user
update_user-ok new old u e w w' there h = elim (Bool-cases (e.fault (suc w.tick))) [
  | inl bad ↦ absurd (ground (arith, bad))
  | inr good ↦
      let set = updated_user new (e.now w.tick) in
      let done : World = record (step (step w)) {
        committed = record w.committed {
          users = update_where (has_id new.id) set w.committed.users;
        };
      } in
      let ran : update_user new e w ≡ (ok (set old), done) = rw (good, there) refl in
      let same : ◌≡◌ {A = Result User × World} (ok (set old), done) (ok u, w') = sym ran ∙ h in
      (
        sym (user_of (set old) u done w' same),
        ap (λ (r : Result User × World). r.1.committed.users) (sym same),
      )
]

given_email :
    (o old : Option Text) (m : Text) → o ≡ some m → email_differs (email_or o old) o ≡ false
given_email none old m h = absurd (ground arith)
given_email (some a) old m h = rw (=s=_refl a) refl

upsert_found-IsSettled :
    (cmd : CreateCommand) (o : Option User) (u : User) (e : Env) (w w' : World)
    → IsKeyed cmd w.committed.users
    → find (wanted cmd) w.committed.users ≡ o
    → upsert_found cmd o e w ≡ (ok u, w')
    → IsSettled cmd w' u
unfolding upsert_found differs updated_user draw_now
upsert_found-IsSettled cmd none u e w w' keyed there h = create_user-IsSettled cmd u e w w' h
upsert_found-IsSettled cmd (some old) u e w w' keyed there h = elim (Bool-cases (differs old cmd)) [
  | inr settled ↦
      let ran : upsert_found cmd (some old) e w ≡ (ok old, w) = rw settled refl in
      let same : ◌≡◌ {A = Result User × World} (ok old, w) (ok u, w') = sym ran ∙ h in
      let is : old ≡ u = user_of old u w w' same in
      (
        ap (λ (r : Result User × World). find (wanted cmd) r.1.committed.users) (sym same)
            ∙ (there ∙ ap some is),
        λ m given. subst (λ (x : User). differs x cmd ≡ false) is settled,
      )
  | inl unsettled ↦
      let new : User = record old {
        name = cmd.name;
        email = cmd.email;
        updated_at = e.now w.tick;
      } in
      let ran : upsert_found cmd (some old) e w ≡ update_user new e (step w) = rw unsettled refl in
      let (is, rows) = update_user-ok new old u e (step w) w' (keyed old there) (sym ran ∙ h) in
      let set = updated_user new (e.now (suc w.tick)) in
      (
        ap (find (wanted cmd)) rows
            ∙ (find-update (wanted cmd) (has_id old.id) set old w.committed.users (λ y. refl) there
                  (=s=_refl old.id)
                ∙ ap some (sym is)),
        λ m given.
            subst (λ (x : User). differs x cmd ≡ false) (sym is)
              (rw (=s=_refl cmd.name, given_email cmd.email old.email m given) refl),
      )
]

find_user-ok :
    (p : User → Bool) (o : Option User) (e : Env) (w v : World)
    → find_user p e w ≡ (ok o, v)
    → (find p w.committed.users ≡ o) × (v.committed ≡ w.committed)
unfolding find_user
find_user-ok p o e w v h = elim (Bool-cases (e.fault w.tick)) [
  | inl bad ↦ absurd (ground (arith, bad))
  | inr good ↦ ground (arith, good)
]

-- The conditions of UpsertFromOIDC on the command.
abbrev pub IsComplete : CreateCommand → Type 0
IsComplete cmd =
    (no_text cmd.provider ≡ false) × (no_text cmd.provider_id ≡ false) × (no_text cmd.name ≡ false)

pub upsert-IsSettled :
    (cmd : CreateCommand) (u : User) (e : Env) (w w' : World)
    → IsKeyed cmd w.committed.users
    → upsert cmd e w ≡ (ok u, w')
    → IsComplete cmd × IsSettled cmd w' u
unfolding upsert
upsert-IsSettled cmd u e w w' keyed h =
    >>=-elim (raise_if (no_text cmd.provider) Kind.invalid_argument) _ e w w' u h λ _ w₁ h₁ k₁.
      >>=-elim (raise_if (no_text cmd.provider_id) Kind.invalid_argument) _ e w₁ w' u k₁
        λ _ w₂ h₂ k₂.
          >>=-elim (raise_if (no_text cmd.name) Kind.invalid_argument) _ e w₂ w' u k₂ λ _ w₃ h₃ k₃.
            >>=-elim (find_user (wanted cmd)) (upsert_found cmd) e w₃ w' u k₃ λ o w₄ h₄ k₄.
              let (a, e₁) = raise_if-ok (no_text cmd.provider) Kind.invalid_argument e w w₁ _ h₁ in
              let (b, e₂) =
                raise_if-ok (no_text cmd.provider_id) Kind.invalid_argument e w₁ w₂ _ h₂ in
              let (c, e₃) = raise_if-ok (no_text cmd.name) Kind.invalid_argument e w₂ w₃ _ h₃ in
              let (found, same) = find_user-ok (wanted cmd) o e w₃ w₄ h₄ in
              let back : w₄.committed ≡ w.committed =
                same ∙ ap (λ (v : World). v.committed) (e₃ ∙ (e₂ ∙ e₁)) in
              (
                (a, b, c),
                upsert_found-IsSettled cmd o u e w₄ w'
                    (subst (λ (d : Db). IsKeyed cmd d.users) (sym back) keyed)
                    (ap (λ (d : Db). find (wanted cmd) d.users) same ∙ found) k₄,
              )
