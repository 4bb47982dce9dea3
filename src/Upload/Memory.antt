-- ===== src/Upload/Memory.antt =====
-- internal/upload/memory.go: the registry in memory.
use mdrive.Prelude.{
  ℕ, ◌+◌, ◌≡◌, ◌≤◌, refl, false, Option, none, some, List, [], ◌∷◌, Text, ltb, ◌=s=◌, =s=_iff,
  if◌then◌else◌, arith, Bool-cases, Option-cases, inl, inr,
}
use mdrive.Errorx.{Kind}
use mdrive.Result.{Result, ok, err}
use mdrive.Outside.{Moment}
use mdrive.Upload.Tokens.{PresignMeta, Entry, TokenRegistry, Refines}

-- MemoryRegistry: the map of its entries, an association list without repeated keys.
abbrev pub Items : Type 0
Items = List (Text × Entry)

unfoldable pub item : Text → Items → Option Entry
item id [] = none
item id ((j, x) ∷ items) = if j =s= id then some x else item id items

unfoldable pub without : Text → Items → Items
without id [] = []
without id ((j, x) ∷ items) =
    let rest = without id items in if j =s= id then rest else (j, x) ∷ rest

-- Put; a context that is done is a call that fails.
unfoldable pub put : Moment → PresignMeta → ℕ → Items → Result (Unit {0}) × Items
unfolding without
put t m ttl items =
    if t.fails
    then (err Kind.unknown, items)
    else (ok tt, (m.upload_id, record { meta = m; exp = t.now + ttl }) ∷ without m.upload_id items)

-- Get
abbrev live : Moment → Option Entry → Result PresignMeta
live t none = err Kind.invalid_argument
live t (some x) = if ltb x.exp t.now then err Kind.invalid_argument else ok x.meta

unfoldable pub get : Moment → Text → Items → Result PresignMeta × Items
unfolding item
get t id items = (if t.fails then err Kind.unknown else live t (item id items), items)

-- Delete
unfoldable pub delete : Moment → Text → Items → Result (Unit {0}) × Items
unfolding without
delete t id items = if t.fails then (err Kind.unknown, items) else (ok tt, without id items)

unfoldable pub memory_registry : TokenRegistry
unfolding put get delete
memory_registry = record { State = Items; put = put; get = get; delete = delete; scan_page = none }

pub item-without :
    (id other : Text) (items : Items)
    → item other (without id items) ≡ (if id =s= other then none else item other items)
unfolding item without
item-without id other [] = elim (Bool-cases (id =s= other)) [
  | inl same ↦ rw same refl
  | inr apart ↦ rw apart refl
]
item-without id other ((j, x) ∷ items) =
    ground (arith, =s=_iff j id, =s=_iff j other, =s=_iff id other, item-without id other items)

put-ok :
    (t : Moment) (m : PresignMeta) (ttl : ℕ) (items : Items) (id : Text)
    → (put t m ttl items).0 ≡ ok tt
    → item id (put t m ttl items).1 ≡ (
        if m.upload_id =s= id then some (record { meta = m; exp = t.now + ttl }) else item id items)
unfolding put item
put-ok t m ttl items id h = ground (arith, item-without m.upload_id id items)

put-err :
    (t : Moment) (m : PresignMeta) (ttl : ℕ) (items : Items) (id : Text) (k : Kind)
    → (put t m ttl items).0 ≡ err k
    → item id (put t m ttl items).1 ≡ item id items
unfolding put
put-err t m ttl items id k h = ground arith

get-live :
    (t : Moment) (id : Text) (items : Items) (x : Entry)
    → t.fails ≡ false
    → item id items ≡ some x
    → t.now ≤ x.exp
    → t.now ≤ x.meta.expires_at
    → (get t id items).0 ≡ ok x.meta
unfolding get
get-live t id items x quiet found fresh live = ground arith

get-ok :
    (t : Moment) (id : Text) (items : Items) (m : PresignMeta)
    → (get t id items).0 ≡ ok m
    → (x : Entry) × (item id items ≡ some x)
      × (x.meta ≡ m)
      × (t.now ≤ x.exp)
      × (item id (get t id items).1 ≡ some x)
unfolding get
get-ok t id items m h = elim (Option-cases (item id items)) [
  | inl absent ↦ absurd (ground arith)
  | inr (x, found) ↦ (x, found, ground arith, ground arith, found)
]

delete-ok :
    (t : Moment) (id other : Text) (items : Items)
    → (delete t id items).0 ≡ ok tt
    → item other (delete t id items).1 ≡ (if id =s= other then none else item other items)
unfolding delete
delete-ok t id other items h = ground (arith, item-without id other items)

-- The registry in memory, with the list of its entries seen as a map, meets what the clients of a
-- registry rely on: a Put that succeeds changes one place, one that fails changes none, and a Delete that
-- succeeds empties one place; Get returns the token of an entry that has not expired, unless the call
-- fails, and no other; entries are kept for exactly the time that Put is given.
pub memory_registry-Refines : Refines memory_registry (λ ttl. ttl)
unfolding memory_registry
memory_registry-Refines = record {
  entry = λ items id. item id items;
  put-ok = put-ok;
  put-err = put-err;
  get-live = get-live;
  get-ok = get-ok;
  delete-ok = delete-ok;
}
