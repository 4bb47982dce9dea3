-- ===== src/Auth/State.antt =====
-- internal/auth/flow.go: the state cookie of a login, and the identity that a login is for.
use mdrive.Prelude.{
  ◌≡◌, refl, Bool, true, false, not, ◌&&◌, ◌||◌, Option, none, some, Text, no_text, List, [], ◌∷◌,
  codes, ◌=s=◌, if◌then◌else◌, ℕ, arith, Bool-cases, inl, inr,
}
use mdrive.Errorx.{Kind}
use mdrive.Result.{Result, ok, err}
use mdrive.Crypto.{Cipher, IsLawful}

-- stateData
pub record StateData : Type 0 where
  pub state : Text
  pub verifier : Text

-- encoding/json on stateData, which is not part of the program.
pub record StateJson : Type 0 where
  pub marshal : StateData → Result Text
  pub unmarshal : Text → Result StateData

-- encoding/json reads back what it wrote.
pub record IsRoundTrip (json : StateJson) : Type 0 where
  pub unmarshal-marshal :
      (d : StateData) (raw : Text) → json.marshal d ≡ ok raw → json.unmarshal raw ≡ ok d

module _ (c : Cipher) (json : StateJson) where
  -- Authenticate: the payload of the cookie, from the state and the verifier that were drawn.
  abbrev sealed : ℕ → Result Text → Result Text
  sealed nonce (err k) = err k
  sealed nonce (ok raw) = c.encrypt nonce raw

  unfoldable pub state_cookie : ℕ → Text → Text → Result Text
  state_cookie nonce state verifier =
      sealed nonce (json.marshal (record { state = state; verifier = verifier }))

  -- consumeStateCookie, of the payload of the cookie, if there is one, and the state of the query. Its
  -- four errors are of one kind.
  abbrev matched : Text → Result StateData → Result StateData
  unfolding ◌=s=◌
  matched state (err k) = err Kind.invalid_argument
  matched state (ok d) =
      if no_text d.state || not (d.state =s= state) then err Kind.invalid_argument else ok d

  abbrev opened : Text → Result Text → Result StateData
  unfolding matched ◌=s=◌
  opened state (err k) = err Kind.invalid_argument
  opened state (ok raw) = matched state (json.unmarshal raw)

  unfoldable pub consume_state_cookie : Option Text → Text → Result StateData
  unfolding opened matched ◌=s=◌
  consume_state_cookie none state = err Kind.invalid_argument
  consume_state_cookie (some value) state = opened state (c.decrypt value)

  -- A state cookie that Authenticate made for a state that is not empty, over a cipher and a codec that
  -- read back what they wrote: consumeStateCookie returns its state and verifier for the same state, and
  -- the kind invalid_argument for any other.
  pub consume_state_cookie-state_cookie :
      (L : IsLawful c) (J : IsRoundTrip json) (nonce : ℕ) (state verifier value other : Text)
      → no_text state ≡ false
      → state_cookie nonce state verifier ≡ ok value
      → consume_state_cookie (some value) other ≡ (
          if state =s= other
          then ok (record { state = state; verifier = verifier })
          else err Kind.invalid_argument)
  unfolding state_cookie consume_state_cookie
  consume_state_cookie-state_cookie L J nonce state verifier value other full made =
      go (json.marshal (record { state = state; verifier = verifier })) refl made
    where
      go :
          (r : Result Text)
          → json.marshal (record { state = state; verifier = verifier }) ≡ r
          → sealed nonce r ≡ ok value
          → opened other (c.decrypt value) ≡ (
              if state =s= other
              then ok (record { state = state; verifier = verifier })
              else err Kind.invalid_argument)
      go (err k) m h = absurd (ground arith)
      go (ok raw) m h =
          rw
            (
              L.decrypt-encrypt nonce raw value h,
              J.unmarshal-marshal (record { state = state; verifier = verifier }) raw m,
              full,
            )
            (elim (Bool-cases (state =s= other)) [
              | inl same ↦ rw same refl
              | inr apart ↦ rw apart refl
            ])

-- isAdminRole, of the roles in the id token, if they can be decoded.
abbrev pub admin_role : Text
admin_role = codes "admin"

abbrev has_role : List Text → Bool
unfolding ◌=s=◌
has_role [] = false
has_role (r ∷ roles) = if r =s= admin_role then true else has_role roles

unfoldable pub is_admin_role : Result (List Text) → Bool
unfolding has_role
is_admin_role (err k) = false
is_admin_role (ok roles) = has_role roles

-- What the id token, or the endpoint for user info, says of the name and the email.
pub record Identity : Type 0 where
  pub name : Text
  pub email : Text

abbrev pub filled : Text → Text → Text
filled claimed other = if no_text claimed then other else claimed

-- resolveIdentity: the claims of the id token, and what the endpoint answers where it is asked.
abbrev with_info : Identity → Result Identity → Result Identity
with_info claims (err k) =
    if not (no_text claims.name) || not (no_text claims.email) then ok claims else err k
with_info claims (ok info) =
    ok (record { name = filled claims.name info.name; email = filled claims.email info.email })

unfoldable pub resolve_identity : Result Identity → Result Identity → Result Identity
resolve_identity (err k) answer = err k
resolve_identity (ok claims) answer =
    if not (no_text claims.name) && not (no_text claims.email)
    then ok claims
    else with_info claims answer

both :
    (c info i : Identity)
    → resolve_identity (ok c) (ok info) ≡ ok i
    → (other : Identity) → ok info ≡ ok other
    → (i.name ≡ filled c.name other.name) × (i.email ≡ filled c.email other.email)
unfolding resolve_identity
both c info i h other q = elim (Bool-cases (no_text c.name)) [
  | inl a ↦ ground (arith, a)
  | inr a ↦ elim (Bool-cases (no_text c.email)) [
    | inl b ↦ ground (arith, a, b)
    | inr b ↦ ground (arith, a, b)
  ]
]

kept :
    (c : Identity) (k : Kind) (i : Identity)
    → resolve_identity (ok c) (err k) ≡ ok i
    → (j : Kind) → ◌≡◌ {A = Result Identity} (err k) (err j)
    → (i ≡ c) × ((no_text c.name && no_text c.email) ≡ false)
unfolding resolve_identity
kept c k i h j q = elim (Bool-cases (no_text c.name)) [
  | inl a ↦ elim (Bool-cases (no_text c.email)) [
    | inl b ↦ absurd (ground (arith, a, b))
    | inr b ↦ ground (arith, a, b)
  ]
  | inr a ↦ elim (Bool-cases (no_text c.email)) [
    | inl b ↦ ground (arith, a, b)
    | inr b ↦ ground (arith, a, b)
  ]
]

-- The identity that resolveIdentity returns: the claims of the id token can be decoded, and each of the
-- name and the email is the claimed one unless that is empty, in which case it is what the endpoint
-- answers, or empty where the endpoint fails; and where it fails, a claim is not empty.
pub resolve_identity-ok :
    (claims answer : Result Identity) (i : Identity)
    → resolve_identity claims answer ≡ ok i
    → (c : Identity) × (claims ≡ ok c)
      × ((info : Identity)
          → answer ≡ ok info
          → (i.name ≡ filled c.name info.name) × (i.email ≡ filled c.email info.email))
      × ((k : Kind) → answer ≡ err k → (i ≡ c) × ((no_text c.name && no_text c.email) ≡ false))
unfolding resolve_identity
resolve_identity-ok (err k) answer i h = absurd (ground arith)
resolve_identity-ok (ok c) (ok info) i h = (c, refl, both c info i h, λ k q. absurd (ground arith))
resolve_identity-ok (ok c) (err k) i h = (c, refl, (λ info q. absurd (ground arith)), kept c k i h)
