-- ===== src/World/Action.antt =====
-- Actions: what a Go function with a context does to the world, and the pair that it returns.
use mdrive.Prelude.{ℕ, suc, Bool, true, false, Option, none, some, Text, if◌then◌else◌}
use mdrive.Errorx.{Kind}
use mdrive.Result.{Result, ok, err}
use mdrive.Node.Inode.{Stamp}
use mdrive.Node.Typed.{Seed}
use mdrive.World.Tables.{Db}

-- The world: the tables that others see, those of the running transaction, and how many calls of
-- the clock, the generators and the database were made.
pub record World : Type 0 where
  pub committed : Db
  pub tx : Option Db
  pub tick : ℕ

-- What the calls of `time.Now`, `ulid.Make` and `uuid.New` return, and which calls of the database
-- fail, by the number of the call.
pub record Env : Type 0 where
  pub now : ℕ → ℕ
  pub ulid : ℕ → Text
  pub uuid : ℕ → ℕ
  pub fault : ℕ → Bool

abbrev pub Action : Type 0 → Type 0
Action A = Env → World → Result A × World

abbrev pub pure : {A : Type 0} → A → Action A
pure a e w = (ok a, w)

abbrev pub raise : {A : Type 0} → Kind → Action A
raise k e w = (err k, w)

abbrev pub lift : {A : Type 0} → Result A → Action A
lift r e w = (r, w)

abbrev continue : {A B : Type 0} → Result A → (A → Action B) → Action B
continue (ok a) f e w = f a e w
continue (err k) f e w = (err k, w)

infixl 5 ◌>>=◌ ◌>>◌
abbrev pub ◌>>=◌ : {A B : Type 0} → Action A → (A → Action B) → Action B
◌>>=◌ m f e w = let (r, w') = m e w in continue r f e w'

abbrev pub ◌>>◌ : {A B : Type 0} → Action A → Action B → Action B
m >> k = m >>= λ _. k

abbrev pub raise_if : Bool → Kind → Action (Unit {0})
raise_if true k e w = (err k, w)
raise_if false k e w = (ok tt, w)

-- `errorx.Wrap(err, …, k)` on the error of an action.
abbrev pub wrapped : {A : Type 0} → Kind → Result A → Result A
wrapped k (ok a) = ok a
wrapped k (err j) = err k

abbrev pub wrap_as : {A : Type 0} → Kind → Action A → Action A
wrap_as k m e w = let (r, w') = m e w in (wrapped k r, w')

abbrev pub step : World → World
step w = record w { tick = suc w.tick }

-- `time.Now()` and `newRevision()` for one write.
unfoldable pub draw_stamp : Action Stamp
draw_stamp e w = (ok (record { now = e.now w.tick; rev = e.ulid w.tick }), step w)

-- The id and the stamps of a constructor.
unfoldable pub draw_seed : Action Seed
draw_seed e w =
    let born : Stamp = record { now = e.now w.tick; rev = e.ulid w.tick } in
    let written : Stamp = record { now = e.now (suc w.tick); rev = e.ulid (suc w.tick) } in
    (ok (record { id = e.uuid w.tick; born = born; written = written }), step (step w))

-- `time.Now()`
unfoldable pub draw_now : Action ℕ
draw_now e w = (ok (e.now w.tick), step w)

-- A call of the database: a failure of it is a foreign error, of the kind unknown.
unfoldable pub db_call : Action (Unit {0})
db_call e w = (if e.fault w.tick then err Kind.unknown else ok tt, step w)

-- The tables that a call reads or writes that asks the context for a transaction first.
abbrev pub view : World → Db
view w = elim w.tx [ none ↦ w.committed | some d ↦ d ]

abbrev pub put_view : Db → World → World
put_view d w = elim w.tx [ none ↦ record w { committed = d } | some _ ↦ record w { tx = some d } ]

-- A query that asks the context for a transaction first.
abbrev pub query : {A : Type 0} → (Db → A) → Action A
query f e w = (ok (f (view w)), w)

-- A change of the tables by such a call.
abbrev pub change : (Db → Db) → Action (Unit {0})
change f e w = (ok tt, put_view (f (view w)) w)

-- A query of the client that does not ask the context, and a change by it.
abbrev pub query_committed : {A : Type 0} → (Db → A) → Action A
query_committed f e w = (ok (f w.committed), w)

abbrev pub change_committed : (Db → Db) → Action (Unit {0})
change_committed f e w = (ok tt, record w { committed = f w.committed })
