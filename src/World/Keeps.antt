-- ===== src/World/Keeps.antt =====
-- internal/entx/manager.go: what a transaction isolates, one rule for each way to build an action.
use mdrive.Prelude.{
  suc, ◌≡◌, refl, ◌∙◌, inl, inr, Bool, true, false, none, some, arith, if◌then◌else◌, Bool-cases,
}
use mdrive.Errorx.{Kind}
use mdrive.Result.{Result, ok, err}
use mdrive.World.Tables.{Db}
use mdrive.World.Action.{
  World, Env, Action, pure, raise, lift, ◌>>=◌, raise_if, step, draw_stamp, draw_seed, db_call,
  draw_now, query, change, wrap_as,
}
use mdrive.World.Tx.{finish, with_tx}

abbrev pub is_open : World → Bool
is_open w = elim w.tx [ none ↦ false | some _ ↦ true ]

-- Inside a transaction the action leaves the committed tables alone and the transaction open.
pub record Isolated {A : Type 0} (m : Action A) : Type 0 where
  pub at :
      (e : Env) (w : World)
      → is_open w ≡ true
      → ((m e w).1.committed ≡ w.committed) × (is_open (m e w).1 ≡ true)

pub Isolated-pure : {A : Type 0} (a : A) → Isolated (pure a)
Isolated-pure a = record { at = λ e w o. (refl, o) }

pub Isolated-raise : {A : Type 0} (k : Kind) → Isolated (raise {A = A} k)
Isolated-raise k = record { at = λ e w o. (refl, o) }

pub Isolated-lift : {A : Type 0} (r : Result A) → Isolated (lift r)
Isolated-lift r = record { at = λ e w o. (refl, o) }

pub Isolated-raise_if : (b : Bool) (k : Kind) → Isolated (raise_if b k)
Isolated-raise_if true k = record { at = λ e w o. (refl, o) }
Isolated-raise_if false k = record { at = λ e w o. (refl, o) }

pub Isolated-draw_stamp : Isolated draw_stamp
unfolding draw_stamp
Isolated-draw_stamp = record { at = λ e w o. (refl, o) }

pub Isolated-draw_seed : Isolated draw_seed
unfolding draw_seed
Isolated-draw_seed = record { at = λ e w o. (refl, o) }

pub Isolated-db_call : Isolated db_call
unfolding db_call
Isolated-db_call = record { at = λ e w o. (refl, o) }

pub Isolated-draw_now : Isolated draw_now
unfolding draw_now
Isolated-draw_now = record { at = λ e w o. (refl, o) }

pub Isolated-query : {A : Type 0} (f : Db → A) → Isolated (query f)
Isolated-query f = record { at = λ e w o. (refl, o) }

pub Isolated-change : (f : Db → Db) → Isolated (change f)
Isolated-change f = record { at = λ e w o. ground arith }

pub Isolated-wrap_as : {A : Type 0} (k : Kind) (m : Action A) → Isolated m → Isolated (wrap_as k m)
Isolated-wrap_as k m p = record { at = p.at }

pub Isolated-if :
    {A : Type 0} (b : Bool) (m n : Action A)
    → Isolated m
    → Isolated n
    → Isolated (if b then m else n)
Isolated-if true m n p q = p
Isolated-if false m n p q = q

pub Isolated-bind :
    {A B : Type 0} (m : Action A) (f : A → Action B)
    → Isolated m
    → ((a : A) → Isolated (f a))
    → Isolated (m >>= f)
Isolated-bind {A} {B} m f p q = record { at = λ e w o. go e w (m e w).0 (m e w).1 (p.at e w o) }
  where
    go :
        (e : Env) (w : World) (r : Result A) (w' : World)
        → (w'.committed ≡ w.committed) × (is_open w' ≡ true)
        → let n : Result B × World = (lift r >>= f) e w' in
          (n.1.committed ≡ w.committed) × (is_open n.1 ≡ true)
    go e w (ok a) w' (c, o) = let (c', o') = (q a).at e w' o in (c' ∙ c, o')
    go e w (err k) w' h = h

pub with_tx_open :
    {A : Type 0} (m : Action A) (e : Env) (w : World) → is_open w ≡ true → with_tx m e w ≡ m e w
unfolding with_tx
with_tx_open m e w o = ground arith

abbrev pub begun : World → World
begun w = record w { tx = some w.committed; tick = suc w.tick }

pub with_tx_closed :
    {A : Type 0} (m : Action A) (e : Env) (w : World)
    → w.tx ≡ none
    → with_tx m e w ≡ (
        if e.fault w.tick
        then (err Kind.unknown, step w)
        else finish (m e (begun w)).0 e (m e (begun w)).1)
unfolding with_tx
with_tx_closed m e w c = ground arith

-- A transaction inside another joins it.
pub Isolated-with_tx : {A : Type 0} (m : Action A) → Isolated m → Isolated (with_tx m)
Isolated-with_tx m p = record { at = λ e w o. rw (with_tx_open m e w o) (p.at e w o) }

pub ruleset isolated_rules = (
  Isolated-pure, Isolated-raise, Isolated-lift, Isolated-raise_if, Isolated-draw_stamp,
  Isolated-draw_seed, Isolated-draw_now, Isolated-query, Isolated-change, Isolated-wrap_as,
  Isolated-db_call, Isolated-if, Isolated-bind, Isolated-with_tx,
)

-- How a transaction may end that began with the tables `c`.
abbrev pub Atomic : {A : Type 0} → Db → Result A × World → Type 0
Atomic c (r, w) = (w.tx ≡ none) × ((k : Kind) → r ≡ err k → w.committed ≡ c)

finish-Atomic :
    {A : Type 0} (c : Db) (r : Result A) (e : Env) (w : World)
    → w.committed ≡ c
    → Atomic c (finish r e w)
unfolding finish
finish-Atomic c (ok a) e w h = elim (Bool-cases (e.fault w.tick)) [
  | inl bad ↦ rw bad (refl, λ k _. h)
  | inr good ↦ rw good (refl, λ k x. cc)
]
finish-Atomic c (err j) e w h = (refl, λ k _. h)

-- WithTx is atomic, for a body that in an open transaction leaves the committed tables alone and the
-- transaction open: begun outside of a transaction, it closes the transaction, and if it returns an
-- error, from the body, the begin, the commit or the rollback, the committed tables are those of
-- before.
pub with_tx-Atomic :
    {A : Type 0} (m : Action A) (e : Env) (w : World)
    → Isolated m
    → w.tx ≡ none
    → Atomic w.committed (with_tx m e w)
with_tx-Atomic m e w p closed = elim (Bool-cases (e.fault w.tick)) [
  | inl bad ↦ rw (with_tx_closed m e w closed, bad) (closed, λ k _. refl)
  | inr good ↦
      rw (with_tx_closed m e w closed, good)
        (finish-Atomic w.committed (m e (begun w)).0 e (m e (begun w)).1 (p.at e (begun w) refl).0)
]
