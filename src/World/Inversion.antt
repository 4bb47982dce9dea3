-- ===== src/World/Inversion.antt =====
-- Actions that succeeded: what their parts did.
use mdrive.Errorx.{Kind}
use mdrive.Prelude.{ap, ◌∙◌, Bool, true, false, ◌≡◌, refl, none, arith, Bool-cases, inl, inr}
use mdrive.Result.{Result, ok, err}
use mdrive.Node.Inode.{Stamp}
use mdrive.World.Tables.{Db}
use mdrive.World.Action.{
  pure, raise_if, World, Env, Action, lift, ◌>>=◌, draw_stamp, view, put_view,
}
use mdrive.World.Tx.{with_tx, finish}
use mdrive.World.Keeps.{begun, with_tx_closed}

-- A bind that succeeded.
pub >>=-ok :
    {A B : Type 0} (m : Action A) (f : A → Action B) (e : Env) (w w' : World) (b : B)
    → (m >>= f) e w ≡ (ok b, w')
    → (a : A) × (v : World) × (m e w ≡ (ok a, v)) × (f a e v ≡ (ok b, w'))
>>=-ok {A} {B} m f e w w' b h = go (m e w).0 (m e w).1 refl h
  where
    go :
        (r : Result A) (v : World)
        → m e w ≡ (r, v)
        → (lift r >>= f) e v ≡ (ok b, w')
        → (a : A) × (v : World) × (m e w ≡ (ok a, v)) × (f a e v ≡ (ok b, w'))
    go (ok a) v p q = (a, v, p, q)
    go (err k) v p q = cc

-- The same, handed on: what follows from the two parts follows from the bind.
pub >>=-elim :
    {A B C : Type 0} (m : Action A) (f : A → Action B) (e : Env) (w w' : World) (b : B)
    → (m >>= f) e w ≡ (ok b, w')
    → ((a : A) (v : World) → m e w ≡ (ok a, v) → f a e v ≡ (ok b, w') → C)
    → C
>>=-elim m f e w w' b h k = let (a, v, p, q) = >>=-ok m f e w w' b h in k a v p q

-- A pure step that succeeded.
pub lift-ok :
    {A : Type 0} (r : Result A) (e : Env) (w w' : World) (a : A)
    → lift r e w ≡ (ok a, w')
    → (r ≡ ok a) × (w' ≡ w)
lift-ok (ok x) e w w' a h = ground arith
lift-ok (err k) e w w' a h = cc

-- Drawing a stamp leaves the tables alone.
pub draw_stamp-ok :
    (e : Env) (w w' : World) (st : Stamp) → draw_stamp e w ≡ (ok st, w') → view w' ≡ view w
unfolding draw_stamp
draw_stamp-ok e w w' st h = ground arith

finish-ok :
    {A : Type 0} (r : Result A) (e : Env) (w' v : World) (a : A) (p : Result A × World)
    → p ≡ (r, v)
    → finish r e v ≡ (ok a, w')
    → (u : World) × (p ≡ (ok a, u)) × (w'.committed ≡ view u) × (w'.tx ≡ none)
unfolding finish
finish-ok (ok x) e w' v a p q h = elim (Bool-cases (e.fault v.tick)) [
  | inl bad ↦ absurd (ground arith)
  | inr good ↦ (v, ground arith, ground arith, ground arith)
]
finish-ok (err k) e w' v a p q h = absurd (ground arith)

-- A transaction that was begun outside of any other and succeeded: the body ran on the committed
-- tables, and the tables that it left were committed.
pub with_tx-ok :
    {A : Type 0} (m : Action A) (e : Env) (w w' : World) (a : A)
    → w.tx ≡ none
    → with_tx m e w ≡ (ok a, w')
    → (v : World) × (m e (begun w) ≡ (ok a, v)) × (w'.committed ≡ view v) × (w'.tx ≡ none)
with_tx-ok {A} m e w w' a closed h = elim (Bool-cases (e.fault w.tick)) [
  | inl bad ↦ absurd (ground (arith, with_tx_closed m e w closed))
  | inr good ↦
      finish-ok (m e (begun w)).0 e w' (m e (begun w)).1 a (m e (begun w)) refl
        (ground (arith, with_tx_closed m e w closed))
]

pub raise_if-ok :
    (b : Bool) (k : Kind) (e : Env) (w w' : World) (a : Unit)
    → raise_if b k e w ≡ (ok a, w')
    → (b ≡ false) × (w' ≡ w)
raise_if-ok true k e w w' a h = absurd (ground arith)
raise_if-ok false k e w w' a h = (refl, ground arith)

pub pure-value : {A : Type 0} (a b : A) (e : Env) (w w' : World) → pure a e w ≡ (ok b, w') → a ≡ b
pure-value a b e w w' h = ground arith

-- Two continuations that agree on what an action returns.
pub bind-same :
    {A B : Type 0} (m : Action A) (f g : A → Action B) (e : Env) (w : World)
    → ((a : A) (v : World) → m e w ≡ (ok a, v) → f a e v ≡ g a e v)
    → (m >>= f) e w ≡ (m >>= g) e w
bind-same {A} {B} m f g e w same = go (m e w).0 (m e w).1 refl
  where
    go : (r : Result A) (v : World) → m e w ≡ (r, v) → (lift r >>= f) e v ≡ (lift r >>= g) e v
    go (ok a) v h = same a v h
    go (err k) v h = refl

-- The same, where the first actions agree as well.
pub bind-cong :
    {A B : Type 0} (m m' : Action A) (f g : A → Action B) (e : Env) (w : World)
    → m e w ≡ m' e w
    → ((a : A) (v : World) → m e w ≡ (ok a, v) → f a e v ≡ g a e v)
    → (m >>= f) e w ≡ (m' >>= g) e w
bind-cong {A} m m' f g e w first same =
    bind-same m f g e w same ∙ ap (λ (r : Result A × World). (lift r.0 >>= g) e r.1) first

pub view-put_view : (db : Db) (w : World) → view (put_view db w) ≡ db
view-put_view db w = ground arith
