-- ===== src/Outside.antt =====
-- Calls of servers beside the database: the token registry, the object store and the authorisation
-- server. A call is an action on a site, the world and the state of the servers.
pub mod Silent
use mdrive.Prelude.{ℕ, Bool, true, false}
use mdrive.Errorx.{Kind}
use mdrive.Result.{Result, ok, err}
use mdrive.World.Action.{World, Env, Action, step, wrapped}

-- What a server sees of a call: the time, and whether the call fails (the network, a cancelled
-- context).
pub record Moment : Type 0 where
  pub now : ℕ
  pub fails : Bool

pub record Site (S : Type 0) : Type 0 where
  pub world : World
  pub servers : S

abbrev pub Call : Type 0 → Type 0 → Type 0
Call S A = Env → Site S → Result A × Site S

-- The moment of the next call.
abbrev pub at : Env → World → Moment
at e w = record { now = e.now w.tick; fails = e.fault w.tick }

module _ {S : Type 0} where
  abbrev pub pure : {A : Type 0} → A → Call S A
  pure a e s = (ok a, s)

  abbrev pub raise : {A : Type 0} → Kind → Call S A
  raise k e s = (err k, s)

  abbrev pub lift : {A : Type 0} → Result A → Call S A
  lift r e s = (r, s)

  abbrev continue : {A B : Type 0} → Result A → (A → Call S B) → Call S B
  continue (ok a) f e s = f a e s
  continue (err k) f e s = (err k, s)

  abbrev pub raise_if : Bool → Kind → Call S (Unit {0})
  raise_if true k e s = (err k, s)
  raise_if false k e s = (ok tt, s)

  -- The error of a call as a value.
  abbrev pub attempt : {A : Type 0} → Call S A → Call S (Result A)
  attempt m e s = let (r, s') = m e s in (ok r, s')

  abbrev pub wrap_as : {A : Type 0} → Kind → Call S A → Call S A
  wrap_as k m e s = let (r, s') = m e s in (wrapped k r, s')

  -- An action on the database.
  abbrev pub db : {A : Type 0} → Action A → Call S A
  db m e s = let (r, w) = m e s.world in (r, record s { world = w })

  -- A call of the servers.
  abbrev pub ask : {A : Type 0} → (Moment → S → Result A × S) → Call S A
  ask f e s =
      let (r, servers) = f (at e s.world) s.servers in
      (r, record { world = step s.world; servers = servers })

infixl 5 ◌>>=◌ ◌>>◌
abbrev pub ◌>>=◌ : {S A B : Type 0} → Call S A → (A → Call S B) → Call S B
◌>>=◌ m f e s = let (r, s') = m e s in continue r f e s'

abbrev pub ◌>>◌ : {S A B : Type 0} → Call S A → Call S B → Call S B
m >> k = m >>= λ _. k
