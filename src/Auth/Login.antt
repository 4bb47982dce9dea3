-- ===== src/Auth/Login.antt =====
-- internal/auth: a login, and the requests that come with its cookie.
use mdrive.Prelude.{
  ℕ, suc, ◌+◌, ◌≡◌, ◌≤◌, refl, sym, ap, ◌∙◌, Bool, false, none, some, Text, no_text, ◌=s=◌, arith,
}
use mdrive.Errorx.{Kind}
use mdrive.Result.{Result, ok, err}
use mdrive.Crypto.{IsLawful}
use mdrive.World.Tables.{User, Db}
use mdrive.World.Rows.{find}
use mdrive.World.Action.{World, Env, step, draw_now, lift}
use mdrive.World.Inversion.{>>=-elim, lift-ok}
use mdrive.Users.{has_provider_id, find_user, get_user_by_provider_id}
use mdrive.Users.Settled.{IsKeyed}
use mdrive.Auth.{
  Session, SessionData, SessionJson, AuthConfig, is_expired, read_session_cookie_from_value,
  handle_cookie_auth, login_command, legacy_provider, find_or_create_user, login,
}
use mdrive.Auth.Found.{under, NoLegacy, find_or_create_user-found, legacy_found}

-- encoding/json reads back what it wrote.
pub record IsRoundTrip (json : SessionJson) : Type 0 where
  pub unmarshal-marshal :
      (d : SessionData) (raw : Text) → json.marshal d ≡ ok raw → json.unmarshal raw ≡ ok d

-- The session of a user.
abbrev pub session_of : AuthConfig → Text → Text → Bool → ℕ → Env → Session
session_of c sub user_id admin t e = record {
  id = sub;
  user_id = user_id;
  provider = c.provider_name;
  is_admin = admin;
  created_at = e.now (suc (suc t));
  expires_at = e.now (suc (suc (suc t))) + c.session_ttl;
}

module _ (c : AuthConfig) (cipher : IsLawful c.cipher) (json : IsRoundTrip c.json) where
  data_of : Text → Text → Bool → Text → Text → Text → ℕ → SessionData
  data_of sub user_id admin id_token name email now = record {
    subject = sub;
    user_id = user_id;
    provider = c.provider_name;
    is_admin = admin;
    id_token = id_token;
    name = name;
    email = email;
    expires_at = now + c.session_ttl;
  }

  -- What a cookie that can be read leads to.
  with_cookie :
      (value raw : Text) (d : SessionData) (u : User) (e : Env) (w : World)
      → no_text value ≡ false
      → c.cipher.decrypt value ≡ ok raw
      → c.json.unmarshal raw ≡ ok d
      → is_expired (e.now w.tick) d ≡ false
      → e.fault (suc w.tick) ≡ false
      → under c.provider_name d.subject w ≡ some u
      → (handle_cookie_auth c value e w).0 ≡ ok (session_of c d.subject u.id d.is_admin w.tick e)
  unfolding handle_cookie_auth read_session_cookie_from_value get_user_by_provider_id find_user
      draw_now
  with_cookie value raw d u e w full opened read fresh quiet there =
      rw (full, opened, read, fresh, quiet, there) refl

  without_row :
      (value raw : Text) (d : SessionData) (e : Env) (w : World)
      → no_text value ≡ false
      → c.cipher.decrypt value ≡ ok raw
      → c.json.unmarshal raw ≡ ok d
      → is_expired (e.now w.tick) d ≡ false
      → e.fault (suc w.tick) ≡ false
      → under c.provider_name d.subject w ≡ none
      → (handle_cookie_auth c value e w).0 ≡ err Kind.unauthenticated
  unfolding handle_cookie_auth read_session_cookie_from_value get_user_by_provider_id find_user
      draw_now
  without_row value raw d e w full opened read fresh quiet gone =
      rw (full, opened, read, fresh, quiet, gone) refl

  -- The parts of a login that succeeded.
  login-parts :
      {C : Type 0} (nonce : ℕ) (sub name email : Text) (admin : Bool) (id_token value : Text)
      (e : Env) (w w' : World)
      → login c nonce sub name email admin id_token e w ≡ (ok value, w')
      → ((u : User) (v : World) (raw : Text)
          → find_or_create_user c sub name email e w ≡ (ok u, v)
          → w' ≡ step v
          → c.cipher.decrypt value ≡ ok raw
          → c.json.unmarshal raw ≡ ok (data_of sub u.id admin id_token name email (e.now v.tick))
          → C)
      → C
  unfolding login draw_now data_of
  login-parts nonce sub name email admin id_token value e w w' h k =
      >>=-elim (find_or_create_user c sub name email) _ e w w' value h λ u v h₁ k₁.
        >>=-elim (lift (c.json.marshal (data_of sub u.id admin id_token name email (e.now v.tick))))
          (λ raw. lift (c.cipher.encrypt nonce raw)) e (step v) w' value k₁
          λ raw v₂ h₂ k₂.
            let (marshalled, e₂) =
              lift-ok (c.json.marshal (data_of sub u.id admin id_token name email (e.now v.tick))) e
                (step v) v₂ raw h₂ in
            let (sealed, e₃) = lift-ok (c.cipher.encrypt nonce raw) e v₂ w' value k₂ in
            k u v raw h₁ (e₃ ∙ e₂) (cipher.decrypt-encrypt nonce raw value sealed)
              (json.unmarshal-marshal _ raw marshalled)

  -- A login that succeeded, of a user without a row under the legacy provider (or where that is the
  -- configured one), and then a request with its cookie, where the cookie is not empty, the query of the
  -- request does not fail, two successive calls of the clock are at most the lifetime of a session
  -- apart, rows found by the provider are found by their ids, and the cipher and the JSON codec read
  -- back what they wrote: the request is authenticated, as the user that the login found or created, an
  -- administrator where the login said so.
  pub handle_cookie_auth-login :
      (nonce : ℕ) (sub name email : Text) (admin : Bool) (id_token value : Text) (e : Env)
      (w w' : World)
      → IsKeyed (login_command c sub name email) w.committed.users
      → NoLegacy c sub w
      → login c nonce sub name email admin id_token e w ≡ (ok value, w')
      → no_text value ≡ false
      → e.fault (suc w'.tick) ≡ false
      → ((t : ℕ) → e.now (suc t) ≤ e.now t + c.session_ttl)
      → (u : User) × (v : World) × (find_or_create_user c sub name email e w ≡ (ok u, v))
        × ((handle_cookie_auth c value e w').0 ≡ ok (session_of c sub u.id admin w'.tick e))
  unfolding data_of
  handle_cookie_auth-login nonce sub name email admin id_token value e w w' keyed no_legacy h full
        quiet soon =
      login-parts nonce sub name email admin id_token value e w w' h
        λ u v raw found end opened read.
          let d = data_of sub u.id admin id_token name email (e.now v.tick) in
          let there : under c.provider_name sub w' ≡ some u =
            ap (under c.provider_name sub) end
            ∙ find_or_create_user-found c sub name email u e w v keyed no_legacy found in
          let tick : w'.tick ≡ suc v.tick = ap (λ (w : World). w.tick) end in
          let fresh : is_expired (e.now w'.tick) d ≡ false = ground (arith, soon v.tick, tick) in
          (u, v, found, with_cookie value raw d u e w' full opened read fresh quiet there)

  -- A login of a user who has a row under the legacy provider and none under the configured one, which is
  -- another, and then a request with its cookie, where the cookie is not empty, no call fails, two
  -- successive calls of the clock are at most the lifetime of a session apart, and the cipher and the
  -- JSON codec read back what they wrote: the request's error is of the kind unauthenticated.
  pub handle_cookie_auth-legacy :
      (nonce : ℕ) (sub name email : Text) (admin : Bool) (id_token value : Text) (old : User)
      (e : Env) (w w' : World)
      → (c.provider_name =s= legacy_provider) ≡ false
      → under c.provider_name sub w ≡ none
      → under legacy_provider sub w ≡ some old
      → ((t : ℕ) → e.fault t ≡ false)
      → login c nonce sub name email admin id_token e w ≡ (ok value, w')
      → no_text value ≡ false
      → ((t : ℕ) → e.now (suc t) ≤ e.now t + c.session_ttl)
      → (handle_cookie_auth c value e w').0 ≡ err Kind.unauthenticated
  unfolding data_of
  handle_cookie_auth-legacy nonce sub name email admin id_token value old e w w' new gone there
        quiet h full soon =
      login-parts nonce sub name email admin id_token value e w w' h
        λ u v raw found end opened read.
          let d = data_of sub u.id admin id_token name email (e.now v.tick) in
          let same : v.committed ≡ w.committed =
            ap (λ (r : Result User × World). r.1.committed)
              (sym found ∙ legacy_found c sub name email old e w new gone there quiet) in
          let tick : w'.tick ≡ suc v.tick = ap (λ (w : World). w.tick) end in
          let fresh : is_expired (e.now w'.tick) d ≡ false = ground (arith, soon v.tick, tick) in
          let gone' : under c.provider_name sub w' ≡ none =
            ap (under c.provider_name sub) end
            ∙ (ap (λ (d : Db). find (has_provider_id c.provider_name sub) d.users) same ∙ gone) in
          without_row value raw d e w' full opened read fresh (quiet _) gone'
