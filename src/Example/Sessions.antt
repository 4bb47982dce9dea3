-- ===== src/Example/Sessions.antt =====
-- Logins, with a codec for sessions.
use mdrive.Prelude.{
  some, ℕ, zero, suc, ◌≡◌, refl, ap, subst, Bool, true, false, [], ◌∷◌, ◌++◌, Text, codes, ◌=s=◌,
  ◌==◌, if◌then◌else◌, arith,
}
use mdrive.Errorx.{Kind}
use mdrive.Result.{Result, ok, err}
use mdrive.Crypto.{no_op, IsLawful}
use mdrive.World.Tables.{User}
use mdrive.World.Rows.{find}
use mdrive.World.Action.{World}
use mdrive.Users.{upsert}
use mdrive.Auth.{SessionData, AuthConfig, handle_cookie_auth, find_or_create_user, login, look_up}
use mdrive.Auth.State
use mdrive.Auth.State.{
  StateData, StateJson, state_cookie, consume_state_cookie, consume_state_cookie-state_cookie,
}
use mdrive.Auth.Login.{IsRoundTrip, session_of, handle_cookie_auth-login, handle_cookie_auth-legacy}
use mdrive.Example.Fixture.{quiet, value}
use mdrive.Example.Users.{known, peopled}
use mdrive.Example.Paths.{world}

-- A codec that writes the length of a text before it.
abbrev length : Text → ℕ
length [] = 0
length (c ∷ s) = suc (length s)

unfoldable put : Text → Text → Text
put s rest = length s ∷ s ++ rest

unfoldable split_at : ℕ → Text → Text × Text
split_at zero t = ([], t)
split_at (suc n) [] = ([], [])
split_at (suc n) (c ∷ t) = let (a, b) = split_at n t in (c ∷ a, b)

unfoldable take_text : Text → Text × Text
unfolding split_at
take_text [] = ([], [])
take_text (n ∷ t) = split_at n t

split_at-append : (s rest : Text) → split_at (length s) (s ++ rest) ≡ (s, rest)
unfolding split_at
split_at-append [] rest = refl
split_at-append (c ∷ s) rest = rw (split_at-append s rest) refl

take_text-put : (s rest : Text) → take_text (put s rest) ≡ (s, rest)
unfolding take_text put
take_text-put s rest = split_at-append s rest

unfoldable written : SessionData → Text
unfolding put
written d =
    d.expires_at
    ∷ (if d.is_admin then 1 else 0)
    ∷ put d.subject (put d.user_id (put d.provider (put d.id_token (put d.name (put d.email [])))))

unfoldable read_back : Text → Result SessionData
unfolding take_text
read_back [] = err Kind.unknown
read_back (e ∷ []) = err Kind.unknown
read_back (e ∷ a ∷ t) =
    let (subject, t₁) = take_text t in
    let (user_id, t₂) = take_text t₁ in
    let (provider, t₃) = take_text t₂ in
    let (id_token, t₄) = take_text t₃ in
    let (name, t₅) = take_text t₄ in
    let (email, t₆) = take_text t₅ in
    ok (record {
      subject = subject;
      user_id = user_id;
      provider = provider;
      is_admin = a == 1;
      id_token = id_token;
      name = name;
      email = email;
      expires_at = e;
    })

flag : (b : Bool) → ((if b then 1 else 0) == 1) ≡ b
flag true = refl
flag false = refl

read_back-written : (d : SessionData) → read_back (written d) ≡ ok d
unfolding read_back written
read_back-written d =
    rw
      (
        take_text-put d.subject
            (put d.user_id (put d.provider (put d.id_token (put d.name (put d.email []))))),
        take_text-put d.user_id (put d.provider (put d.id_token (put d.name (put d.email [])))),
        take_text-put d.provider (put d.id_token (put d.name (put d.email []))),
        take_text-put d.id_token (put d.name (put d.email [])),
        take_text-put d.name (put d.email []),
        take_text-put d.email [],
        flag d.is_admin,
      )
      refl

abbrev config : AuthConfig
unfolding written read_back
config = record {
  cipher = no_op;
  json = record { marshal = λ d. ok (written d); unmarshal = read_back };
  provider_name = codes "kc";
  session_ttl = 50;
}

config-IsRoundTrip : IsRoundTrip config.json
unfolding config
config-IsRoundTrip = record {
  unmarshal-marshal =
      λ d raw h. subst (λ (t : Text). read_back t ≡ ok d) (ap (value []) h) (read_back-written d);
}

no_op-IsLawful : IsLawful config.cipher
unfolding config
no_op-IsLawful = record { decrypt-encrypt = λ nonce plain cipher h. ground arith }

unfoldable logged_in : Result Text × World
unfolding login
logged_in = login config 0 (codes "1") (codes "n") (codes "m") false (codes "j") quiet world

handle_cookie_auth-login_example :
    (u : User) × (v : World) × (find_or_create_user config
        (codes "1")
        (codes "n")
        (codes "m")
        quiet
        world
      ≡ (ok u, v))
    × ((handle_cookie_auth config (value [] logged_in.0) quiet logged_in.1).0
        ≡ ok (session_of config (codes "1") u.id false logged_in.1.tick quiet))
unfolding logged_in login config find_or_create_user look_up upsert find
handle_cookie_auth-login_example =
    handle_cookie_auth-login config no_op-IsLawful config-IsRoundTrip 0 (codes "1") (codes "n")
      (codes "m") false (codes "j") (value [] logged_in.0) quiet world logged_in.1
      (λ u h. absurd (ground arith)) (λ h. refl) refl refl refl (λ t. omega arith)

unfoldable old_login : Result Text × World
unfolding login
old_login = login config 0 (codes "1") (codes "n") (codes "m") false (codes "j") quiet peopled

handle_cookie_auth-legacy_example :
    (handle_cookie_auth config (value [] old_login.0) quiet old_login.1).0
    ≡ err Kind.unauthenticated
unfolding old_login login config find_or_create_user look_up find ◌=s=◌
handle_cookie_auth-legacy_example =
    handle_cookie_auth-legacy config no_op-IsLawful config-IsRoundTrip 0 (codes "1") (codes "n")
      (codes "m") false (codes "j") (value [] old_login.0) known quiet peopled old_login.1 refl refl
      refl (λ t. refl) refl refl (λ t. omega arith)

-- The same codec for the state of a login.
unfoldable state_back : Text → Result StateData
unfolding take_text
state_back t =
    let (state, t₁) = take_text t in
    let (verifier, t₂) = take_text t₁ in ok (record { state = state; verifier = verifier })

abbrev state_json : StateJson
unfolding put state_back
state_json = record { marshal = λ d. ok (put d.state (put d.verifier [])); unmarshal = state_back }

state_json-IsRoundTrip : State.IsRoundTrip state_json
unfolding state_json state_back
state_json-IsRoundTrip = record {
  unmarshal-marshal = λ d raw h.
      subst (λ (t : Text). state_back t ≡ ok d) (ap (value []) h)
        (rw (take_text-put d.state (put d.verifier []), take_text-put d.verifier []) refl);
}

consume_state_cookie-state_cookie_example :
    consume_state_cookie no_op state_json (some (put (codes "s") (put (codes "v") []))) (codes "t")
    ≡ err Kind.invalid_argument
unfolding state_json state_cookie ◌=s=◌
consume_state_cookie-state_cookie_example =
    consume_state_cookie-state_cookie no_op state_json
      (record { decrypt-encrypt = λ nonce plain cipher h. ground arith }) state_json-IsRoundTrip 0
      (codes "s") (codes "v") (put (codes "s") (put (codes "v") [])) (codes "t") refl refl
