-- ===== src/Errorx/Chain.antt =====
-- internal/errorx/errorx.go and internal/app/apiserver/middleware/error.go: how the kind of an
-- error travels along its chain and reaches the wire.
use mdrive.Prelude.{◌≤◌, ◌≡◌, ◌≢◌, refl, Option, none, some, arith, Text}
use mdrive.Errorx.{
  Kind, status, Error, foreign, foreign_wrap, errorx, errorx_wrap, as_error, wrap, kind_loop,
  kind_of, kind_to_code, code_of, StatusCode,
}

-- The loop finds the kind that the first `errors.As` finds, so no second round changes it.
kind_loop_lem :
    (e : Error) → kind_loop e ≡ elim (as_error e) [ none ↦ Kind.unknown | some (k, _) ↦ k ]
unfolding kind_loop as_error
kind_loop_lem (foreign m) = refl
kind_loop_lem (foreign_wrap m e) = ground (arith, kind_loop_lem e)
kind_loop_lem (errorx k m) = refl
kind_loop_lem (errorx_wrap k m e) = refl

-- Wrapping without an override keeps the kind of every error, nil included; with an override the
-- kind is the override's.
pub kind_of-wrap :
    (e : Option Error) (m : Text)
    → (kind_of (wrap e m none) ≡ kind_of e)
      × ((c : Error) (k : Kind) → kind_of (wrap (some c) m (some k)) ≡ k)
unfolding kind_of wrap kind_loop
kind_of-wrap none m = (refl, λ c k. refl)
kind_of-wrap (some c) m = (ground (arith, kind_loop_lem c), λ d k. refl)

status_range : (k : Kind) → (400 ≤ status k) × (status k ≤ 504)
unfolding status
status_range Kind.unknown = omega arith
status_range _ = omega arith

code_of-ne-unknown : (k : Kind) → code_of k ≢ Kind.unknown
unfolding code_of
code_of-ne-unknown Kind.unknown e = cc
code_of-ne-unknown _ e = cc

code_of_known : (k : Kind) → k ≢ Kind.unknown → code_of k ≡ k
unfolding code_of
code_of_known Kind.unknown h = absurd (h refl)
code_of_known _ h = refl

-- A nil error is not reported. Every other error is reported with the status of its kind, which
-- lies from 400 to 504, and with a code that is never `unknown` and is the kind for all other
-- kinds.
pub kind_to_code_total :
    (e : Error)
    → (kind_to_code none ≡ none)
      × ((c : StatusCode) × (kind_to_code (some e) ≡ some c)
          × (c.status_code ≡ status (kind_of (some e)))
          × (400 ≤ c.status_code)
          × (c.status_code ≤ 504)
          × (c.code ≢ Kind.unknown)
          × (kind_of (some e) ≢ Kind.unknown → c.code ≡ kind_of (some e)))
unfolding kind_to_code
kind_to_code_total e = (
  refl,
  (
    _,
    refl,
    refl,
    (status_range (kind_of (some e))).0,
    (status_range (kind_of (some e))).1,
    code_of-ne-unknown (kind_of (some e)),
    code_of_known (kind_of (some e)),
  ),
)
