-- ===== src/World/Reads.antt =====
-- internal/entx/manager.go and internal/core/node/ent.go: actions that only read, one rule for each way
-- to build one.
use mdrive.Prelude.{◌≡◌, refl, sym, ap, ◌∙◌, Bool, true, false, none, some, if◌then◌else◌}
use mdrive.Errorx.{Kind}
use mdrive.Result.{Result, ok, err}
use mdrive.World.Tables.{Db}
use mdrive.World.Action.{
  World, Env, Action, pure, raise, lift, ◌>>=◌, raise_if, draw_stamp, draw_seed, db_call, draw_now,
  query, query_committed, wrap_as, view,
}
use mdrive.World.Keeps.{Isolated, Atomic}

-- The action leaves the tables alone, the committed ones and those of the transaction.
pub record Reads {A : Type 0} (m : Action A) : Type 0 where
  pub at : (e : Env) (w : World) → ((m e w).1.committed ≡ w.committed) × ((m e w).1.tx ≡ w.tx)

pub Reads-pure : {A : Type 0} (a : A) → Reads (pure a)
Reads-pure a = record { at = λ e w. (refl, refl) }

pub Reads-raise : {A : Type 0} (k : Kind) → Reads (raise {A = A} k)
Reads-raise k = record { at = λ e w. (refl, refl) }

pub Reads-lift : {A : Type 0} (r : Result A) → Reads (lift r)
Reads-lift r = record { at = λ e w. (refl, refl) }

pub Reads-raise_if : (b : Bool) (k : Kind) → Reads (raise_if b k)
Reads-raise_if true k = record { at = λ e w. (refl, refl) }
Reads-raise_if false k = record { at = λ e w. (refl, refl) }

pub Reads-draw_stamp : Reads draw_stamp
unfolding draw_stamp
Reads-draw_stamp = record { at = λ e w. (refl, refl) }

pub Reads-draw_seed : Reads draw_seed
unfolding draw_seed
Reads-draw_seed = record { at = λ e w. (refl, refl) }

pub Reads-db_call : Reads db_call
unfolding db_call
Reads-db_call = record { at = λ e w. (refl, refl) }

pub Reads-draw_now : Reads draw_now
unfolding draw_now
Reads-draw_now = record { at = λ e w. (refl, refl) }

pub Reads-query : {A : Type 0} (f : Db → A) → Reads (query f)
Reads-query f = record { at = λ e w. (refl, refl) }

pub Reads-query_committed : {A : Type 0} (f : Db → A) → Reads (query_committed f)
Reads-query_committed f = record { at = λ e w. (refl, refl) }

pub Reads-wrap_as : {A : Type 0} (k : Kind) (m : Action A) → Reads m → Reads (wrap_as k m)
Reads-wrap_as k m p = record { at = p.at }

pub Reads-if :
    {A : Type 0} (b : Bool) (m n : Action A) → Reads m → Reads n → Reads (if b then m else n)
Reads-if true m n p q = p
Reads-if false m n p q = q

pub Reads-bind :
    {A B : Type 0} (m : Action A) (f : A → Action B)
    → Reads m
    → ((a : A) → Reads (f a))
    → Reads (m >>= f)
Reads-bind {A} {B} m f p q = record { at = λ e w. go e w (m e w).0 (m e w).1 (p.at e w) }
  where
    go :
        (e : Env) (w : World) (r : Result A) (w' : World)
        → (w'.committed ≡ w.committed) × (w'.tx ≡ w.tx)
        → let n : Result B × World = (lift r >>= f) e w' in
          (n.1.committed ≡ w.committed) × (n.1.tx ≡ w.tx)
    go e w (ok a) w' (c, t) = let (c', t') = (q a).at e w' in (c' ∙ c, t' ∙ t)
    go e w (err k) w' h = h

-- What only reads is isolated.
pub Reads-Isolated : {A : Type 0} (m : Action A) → Reads m → Isolated m
Reads-Isolated m p = record {
  at = λ e w o.
      let (c, t) = p.at e w in (c, ap (λ x. elim x [ none ↦ false | some _ ↦ true ]) t ∙ o);
}

-- An action that only reads, seen through its result.
pub Reads-ok :
    {A : Type 0} (m : Action A) (e : Env) (w w' : World) (r : Result A)
    → Reads m
    → m e w ≡ (r, w')
    → (w'.committed ≡ w.committed) × (w'.tx ≡ w.tx)
Reads-ok {A} m e w w' r p h =
    let last : (m e w).1 ≡ w' = ap (λ (q : Result A × World). q.1) h in
    let (c, t) = p.at e w in
    (ap (λ (v : World). v.committed) (sym last) ∙ c, ap (λ (v : World). v.tx) (sym last) ∙ t)

pub Reads-view :
    {A : Type 0} (m : Action A) (e : Env) (w w' : World) (r : Result A)
    → Reads m
    → m e w ≡ (r, w')
    → view w' ≡ view w
Reads-view m e w w' r p h =
    let (c, t) = Reads-ok m e w w' r p h in λ i. elim (t i) [ none ↦ c i | some d ↦ d ]

-- What comes after an action that only reads is all that has to be atomic.
pub Atomic-after :
    {A B : Type 0} (m : Action A) (f : A → Action B) (c : Db) (e : Env) (w : World)
    → Reads m
    → w.committed ≡ c
    → w.tx ≡ none
    → ((a : A) (v : World) → v.committed ≡ c → v.tx ≡ none → Atomic c (f a e v))
    → Atomic c ((m >>= f) e w)
Atomic-after {A} m f c e w p same closed q =
    let (kept, tx) = p.at e w in go (m e w).0 (m e w).1 (kept ∙ same) (tx ∙ closed)
  where
    go : (r : Result A) (v : World) → v.committed ≡ c → v.tx ≡ none → Atomic c ((lift r >>= f) e v)
    go (ok a) v same closed = q a v same closed
    go (err k) v same closed = (closed, λ _ _. same)

pub ruleset reads_rules = (
  Reads-pure, Reads-raise, Reads-lift, Reads-raise_if, Reads-draw_stamp, Reads-draw_seed,
  Reads-draw_now, Reads-query, Reads-query_committed, Reads-wrap_as, Reads-db_call, Reads-if,
  Reads-bind,
)
