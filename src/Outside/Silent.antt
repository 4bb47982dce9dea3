-- ===== src/Outside/Silent.antt =====
-- Calls that leave the tables alone, and calls that succeeded.
use mdrive.Prelude.{◌≡◌, refl, ap, ◌∙◌, Bool, true, false}
use mdrive.Errorx.{Kind}
use mdrive.Result.{Result, ok, err}
use mdrive.World.Action.{Env, Action}
use mdrive.World.Reads.{Reads}
use mdrive.Outside.{
  Moment, Site, Call, pure, raise, raise_if, lift, attempt, wrap_as, db, ask, ◌>>=◌,
}

-- The call leaves the tables alone, the committed ones and those of a transaction.
pub record Silent {S A : Type 0} (m : Call S A) : Type 0 where
  pub at :
      (e : Env) (s : Site S)
      → ((m e s).1.world.committed ≡ s.world.committed) × ((m e s).1.world.tx ≡ s.world.tx)

module _ {S A : Type 0} where
  pub Silent-pure : (a : A) → Silent (pure {S = S} a)
  Silent-pure a = record { at = λ e s. (refl, refl) }

  pub Silent-raise : (k : Kind) → Silent (raise {S = S} {A = A} k)
  Silent-raise k = record { at = λ e s. (refl, refl) }

  pub Silent-lift : (r : Result A) → Silent (lift {S = S} r)
  Silent-lift r = record { at = λ e s. (refl, refl) }

  pub Silent-ask : (f : Moment → S → Result A × S) → Silent (ask f)
  Silent-ask f = record { at = λ e s. (refl, refl) }

  pub Silent-attempt : (m : Call S A) → Silent m → Silent (attempt m)
  Silent-attempt m p = record { at = p.at }

  pub Silent-wrap_as : (k : Kind) (m : Call S A) → Silent m → Silent (wrap_as k m)
  Silent-wrap_as k m p = record { at = p.at }

  pub Silent-db : (m : Action A) → Reads m → Silent (db {S = S} m)
  Silent-db m p = record { at = λ e s. p.at e s.world }

pub Silent-raise_if : {S : Type 0} (b : Bool) (k : Kind) → Silent (raise_if {S = S} b k)
Silent-raise_if true k = record { at = λ e s. (refl, refl) }
Silent-raise_if false k = record { at = λ e s. (refl, refl) }

pub Silent-bind :
    {S A B : Type 0} (m : Call S A) (f : A → Call S B)
    → Silent m
    → ((a : A) → Silent (f a))
    → Silent (m >>= f)
Silent-bind {S} {A} {B} m f p q = record { at = λ e s. go e s (m e s).0 (m e s).1 (p.at e s) }
  where
    go :
        (e : Env) (s : Site S) (r : Result A) (s' : Site S)
        → (s'.world.committed ≡ s.world.committed) × (s'.world.tx ≡ s.world.tx)
        → let n : Result B × Site S = (lift r >>= f) e s' in
          (n.1.world.committed ≡ s.world.committed) × (n.1.world.tx ≡ s.world.tx)
    go e s (ok a) s' (c, t) = let (c', t') = (q a).at e s' in (c' ∙ c, t' ∙ t)
    go e s (err k) s' h = h

pub ruleset silent_rules = (
  Silent-pure, Silent-raise, Silent-lift, Silent-ask, Silent-attempt, Silent-wrap_as, Silent-db,
  Silent-raise_if, Silent-bind,
)

-- A bind that succeeded.
pub >>=-ok :
    {S A B : Type 0} (m : Call S A) (f : A → Call S B) (e : Env) (s s' : Site S) (b : B)
    → (m >>= f) e s ≡ (ok b, s')
    → (a : A) × (v : Site S) × (m e s ≡ (ok a, v)) × (f a e v ≡ (ok b, s'))
>>=-ok {S} {A} {B} m f e s s' b h = go (m e s).0 (m e s).1 refl h
  where
    go :
        (r : Result A) (v : Site S)
        → m e s ≡ (r, v)
        → (lift r >>= f) e v ≡ (ok b, s')
        → (a : A) × (v : Site S) × (m e s ≡ (ok a, v)) × (f a e v ≡ (ok b, s'))
    go (ok a) v p q = (a, v, p, q)
    go (err k) v p q = cc

-- The same, handed on.
pub >>=-elim :
    {S A B C : Type 0} (m : Call S A) (f : A → Call S B) (e : Env) (s s' : Site S) (b : B)
    → (m >>= f) e s ≡ (ok b, s')
    → ((a : A) (v : Site S) → m e s ≡ (ok a, v) → f a e v ≡ (ok b, s') → C)
    → C
>>=-elim m f e s s' b h k = let (a, v, p, q) = >>=-ok m f e s s' b h in k a v p q

pub raise_if-ok :
    {S : Type 0} (b : Bool) (k : Kind) (e : Env) (s s' : Site S) (a : Unit)
    → raise_if b k e s ≡ (ok a, s')
    → (b ≡ false) × (s ≡ s')
raise_if-ok true k e s s' a h = cc
raise_if-ok {S} false k e s s' a h = (refl, ap (λ (x : Result Unit × Site S). x.1) h)

pub bind_assoc :
    {S A B C : Type 0} (m : Call S A) (f : A → Call S B) (g : B → Call S C) (e : Env) (s : Site S)
    → ((m >>= f) >>= g) e s ≡ (m >>= λ a. f a >>= g) e s
bind_assoc {S} {A} {B} {C} m f g e s = go (m e s).0 (m e s).1
  where
    go :
        (r : Result A) (v : Site S)
        → (lift {S = S} r >>= f >>= g) e v ≡ (lift {S = S} r >>= λ a. f a >>= g) e v
    go (ok a) v = refl
    go (err k) v = refl
