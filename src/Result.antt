-- ===== src/Result.antt =====
-- A Go pair (value, error). An error is its kind: Errorx.Chain shows that wrapping keeps it, and
-- the kind is all that the code ever asks of an error.
use mdrive.Prelude.{Bool, true, false}
use mdrive.Errorx.{Kind}

pub data Result {ℓ} (A : Type ℓ) : Type ℓ where
  ok : A → Result A
  err : Kind → Result A

infixl 5 ◌>>=◌ ◌>>◌
abbrev pub ◌>>=◌ {ℓ κ} : {A : Type ℓ} {B : Type κ} → Result A → (A → Result B) → Result B
ok a >>= f = f a
err k >>= f = err k

abbrev pub ◌>>◌ {ℓ} : {B : Type ℓ} → Result (Unit {0}) → Result B → Result B
m >> k = m >>= λ _. k

-- `if bad { return errorx.New(k, …) }`
abbrev pub err_if : Bool → Kind → Result (Unit {0})
err_if true k = err k
err_if false k = ok tt
