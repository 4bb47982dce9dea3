-- ===== src/Auth.antt =====
-- internal/auth: sessions and the security handler, of session.go and security.go, and of flow.go the
-- user and the session of a login.
pub mod Found
pub mod Login
pub mod State
use mdrive.Prelude.{
  ℕ, ◌+◌, Bool, true, false, not, ◌&&◌, Option, none, some, [], Text, codes, no_text, ◌==◌, ◌=s=◌,
  ltb, if◌then◌else◌,
}
use mdrive.Errorx.{Kind}
use mdrive.Result.{Result, ok, err}
use mdrive.Crypto.{Cipher}
use mdrive.World.Tables.{User}
use mdrive.World.Action.{World, Action, pure, raise, raise_if, lift, wrap_as, draw_now, ◌>>=◌, ◌>>◌}
use mdrive.Users.{CreateCommand, get_user_by_provider_id, upsert}

-- Session
pub record Session : Type 0 where
  pub id : Text
  pub user_id : Text
  pub provider : Text
  pub is_admin : Bool
  pub created_at : ℕ
  pub expires_at : ℕ

-- sessionData; the zero time is 0.
pub record SessionData : Type 0 where
  pub subject : Text
  pub user_id : Text
  pub provider : Text
  pub is_admin : Bool
  pub id_token : Text
  pub name : Text
  pub email : Text
  pub expires_at : ℕ

-- IsExpired
abbrev pub is_expired : ℕ → SessionData → Bool
is_expired now d = not (d.expires_at == 0) && ltb d.expires_at now

-- encoding/json on sessionData, which is not part of the program.
pub record SessionJson : Type 0 where
  pub marshal : SessionData → Result Text
  pub unmarshal : Text → Result SessionData

-- What Service is made with: the key of the cookie, as the cipher under it, the name of the provider
-- and the time that a session lasts.
pub record AuthConfig : Type 0 where
  pub cipher : Cipher
  pub json : SessionJson
  pub provider_name : Text
  pub session_ttl : ℕ

-- readSessionCookieFromValue
unfoldable pub read_session_cookie_from_value : AuthConfig → Text → Action SessionData
unfolding draw_now
read_session_cookie_from_value c value = do
  raw ← lift (c.cipher.decrypt value)
  d ← lift (c.json.unmarshal raw)
  now ← draw_now
  raise_if (is_expired now d) Kind.invalid_argument
  pure d

-- HandleCookieAuth: every failure is of the kind unauthenticated.
abbrev pub user_or_unauthenticated : Option User → Action User
user_or_unauthenticated none = raise Kind.unauthenticated
user_or_unauthenticated (some u) = pure u

unfoldable pub handle_cookie_auth : AuthConfig → Text → Action Session
unfolding read_session_cookie_from_value get_user_by_provider_id draw_now
handle_cookie_auth c api_key = do
  raise_if (no_text api_key) Kind.unauthenticated
  d ← wrap_as Kind.unauthenticated (read_session_cookie_from_value c api_key)
  found ← wrap_as Kind.unauthenticated (get_user_by_provider_id c.provider_name d.subject)
  u ← user_or_unauthenticated found
  created ← draw_now
  expires ← draw_now
  pure (record {
    id = d.subject;
    user_id = u.id;
    provider = c.provider_name;
    is_admin = d.is_admin;
    created_at = created;
    expires_at = expires + c.session_ttl;
  })

-- UserIDFromContext and IsAdmin, of the session that the context has, if any.
abbrev pub user_id_from_context : Option Session → Text
user_id_from_context none = []
user_id_from_context (some s) = s.user_id

abbrev pub is_admin : Option Session → Bool
is_admin none = false
is_admin (some s) = s.is_admin

-- findOrCreateUser: the error of a lookup is dropped, and the user counts as not found.
abbrev pub found_or_none : Result (Option User) → Option User
found_or_none (ok u) = u
found_or_none (err k) = none

unfoldable pub look_up : Text → Text → Action (Option User)
unfolding get_user_by_provider_id
look_up provider sub e w =
    let (r, w') = get_user_by_provider_id provider sub e w in (ok (found_or_none r), w')

abbrev pub text_or_none : Text → Option Text
text_or_none s = if no_text s then none else some s

abbrev pub login_command : AuthConfig → Text → Text → Text → CreateCommand
login_command c sub name email = record {
  name = if no_text name then sub else name;
  email = text_or_none email;
  provider = c.provider_name;
  provider_id = sub;
}

abbrev pub legacy_provider : Text
legacy_provider = codes "zitadel"

abbrev pub create_if_new : AuthConfig → Text → Text → Text → Option User → Action User
unfolding upsert
create_if_new c sub name email none = upsert (login_command c sub name email)
create_if_new c sub name email (some u) = pure u

abbrev pub legacy_if_new : AuthConfig → Text → Option User → Action (Option User)
unfolding look_up ◌=s=◌
legacy_if_new c sub (some u) = pure (some u)
legacy_if_new c sub none =
    if c.provider_name =s= legacy_provider then pure none else look_up legacy_provider sub

unfoldable pub find_or_create_user : AuthConfig → Text → Text → Text → Action User
unfolding look_up upsert ◌=s=◌
find_or_create_user c sub name email = do
  here ← look_up c.provider_name sub
  found ← legacy_if_new c sub here
  create_if_new c sub name email found

-- Callback, from the subject, the name and the email of a token that was verified: the user, and the
-- payload of the cookie that writeSessionCookie writes; `nonce` is that of the cipher.
unfoldable pub login : AuthConfig → ℕ → Text → Text → Text → Bool → Text → Action Text
unfolding find_or_create_user draw_now
login c nonce sub name email admin id_token = do
  u ← find_or_create_user c sub name email
  now ← draw_now
  raw ← lift (
      c.json.marshal (record {
        subject = sub;
        user_id = u.id;
        provider = c.provider_name;
        is_admin = admin;
        id_token = id_token;
        name = name;
        email = email;
        expires_at = now + c.session_ttl;
      }))
  lift (c.cipher.encrypt nonce raw)
