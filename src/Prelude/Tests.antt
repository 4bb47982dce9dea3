-- ===== src/Prelude/Tests.antt =====
-- Boolean tests, the conditional, and case splits that keep an equation.
use Prim.Native.Nat.{ℕ, ◌≤◌, compare, Ordering}
use mathlib.Core.Path.{◌≡◌, refl}
use mathlib.Core.Logic.{◌↔◌, ◌⊎◌, inl, inr}
use mathlib.Core.Bool.{Bool, true, false, ◌&&◌}
use mathlib.Core.Option.{Option, none, some}
use mathlib.Core.List.{List, [], ◌∷◌}
use Prim.Native.Char.{code}
use Prim.Native.String.{String}
use native.Mathlib.Omega.{arith}

abbrev pub ltb : ℕ → ℕ → Bool
ltb a b = elim (compare a b) [ Ordering.lt ↦ true | _ ↦ false ]

abbrev pub leb : ℕ → ℕ → Bool
leb a b = elim (compare a b) [ Ordering.gt ↦ false | _ ↦ true ]

infix 50 ◌==◌
abbrev pub ◌==◌ : ℕ → ℕ → Bool
a == b = elim (compare a b) [ Ordering.eq ↦ true | _ ↦ false ]

infix 1 if◌then◌else◌
abbrev pub if◌then◌else◌ {ℓ} : {A : Type ℓ} → Bool → A → A → A
if true then x else y = x
if false then x else y = y

pub leb→le : (a b : ℕ) → leb a b ≡ true → a ≤ b
leb→le a b h = ground arith

pub ltb→le : (a b : ℕ) → ltb a b ≡ false → b ≤ a
ltb→le a b h = ground arith

pub ==_iff : (a b : ℕ) → ((a == b) ≡ true) ↔ (a ≡ b)
==_iff a b = ground arith

pub Bool-cases : (b : Bool) → (b ≡ true) ⊎ (b ≡ false)
Bool-cases true = inl refl
Bool-cases false = inr refl

pub Option-cases {ℓ} : {A : Type ℓ} (o : Option A) → (o ≡ none) ⊎ ((a : A) × (o ≡ some a))
Option-cases none = inl refl
Option-cases (some a) = inr (a, refl)

-- A Go string as the list of its code points (valid UTF-8).
abbrev pub Text : Type 0
Text = List ℕ

-- The text that a Go string literal stands for.
abbrev pub codes : String → Text
codes String.[] = []
codes (String.◌∷◌ c s) = code c ∷ codes s

abbrev pub no_text : Text → Bool
no_text [] = true
no_text (c ∷ s) = false

infix 50 ◌=s=◌
-- `a == b` on strings.
unfoldable pub ◌=s=◌ : Text → Text → Bool
[] =s= [] = true
[] =s= (d ∷ t) = false
(c ∷ s) =s= [] = false
(c ∷ s) =s= (d ∷ t) = (c == d) && (s =s= t)

pub =s=_iff : (s t : Text) → ((s =s= t) ≡ true) ↔ (s ≡ t)
unfolding ◌=s=◌
=s=_iff [] [] = ground arith
=s=_iff [] (d ∷ t) = ground arith
=s=_iff (c ∷ s) [] = ground arith
=s=_iff (c ∷ s) (d ∷ t) = ground (arith, =s=_iff s t)

pub =s=_refl : (s : Text) → (s =s= s) ≡ true
=s=_refl s = (=s=_iff s s).1 refl
