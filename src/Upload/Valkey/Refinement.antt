-- ===== src/Upload/Valkey/Refinement.antt =====
-- internal/upload/valkey.go: the registry on a key server that does what its documentation says.
use mdrive.Prelude.{
  ℕ, ◌+◌, ◌*◌, ◌/◌, ◌≡◌, ◌≤◌, refl, ap, ◌∙◌, false, Option, none, some, [], ◌∷◌, ◌++◌, Text, ◌=s=◌,
  ==_iff, if◌then◌else◌, arith, Bool-cases, Option-cases, inl, inr,
}
use mdrive.Errorx.{Kind}
use mdrive.Result.{Result, ok, err}
use mdrive.Outside.{Moment}
use mdrive.Upload.Tokens.{PresignMeta, is_expired, Entry, Refines}
use mdrive.Upload.Valkey.{
  KeyServer, IsServer, Cell, second, prefix, default_key, answer, put, get, delete, valkey_registry,
}

-- Keys of different ids differ.
=s=-append : (p s t : Text) → ((p ++ s) =s= (p ++ t)) ≡ (s =s= t)
unfolding ◌=s=◌
=s=-append [] s t = refl
=s=-append (c ∷ p) s t = ground (arith, ==_iff c c, =s=-append p s t)

default_key-same : (id other : Text) → (default_key id =s= default_key other) ≡ (id =s= other)
unfolding default_key
default_key-same id other = =s=-append prefix id other

-- The entry that a cell stands for.
abbrev entry_in : Option Cell → Option Entry
entry_in none = none
entry_in (some x) = elim x.value [
  | none ↦ none
  | some m ↦ some (record { meta = m; exp = x.deadline })
]

cell_of_entry :
    (o : Option Cell) (x : Entry)
    → entry_in o ≡ some x
    → o ≡ some (record { value = some x.meta; deadline = x.exp })
cell_of_entry none x h = absurd (ground arith)
cell_of_entry (some c) x h = elim (Option-cases c.value) [
  | inl foreign ↦ absurd (ground arith)
  | inr (m, token) ↦ ground arith
]

module _ (V : KeyServer) (L : IsServer V) where
  abbrev entry : V.State → Text → Option Entry
  entry s id = entry_in (L.cell s (default_key id))

  put-ok :
      (t : Moment) (m : PresignMeta) (ttl : ℕ) (s : V.State) (id : Text)
      → (put V t m ttl s).0 ≡ ok tt
      → entry (put V t m ttl s).1 id ≡ (
          if m.upload_id =s= id
          then some (record { meta = m; exp = t.now + ttl / second * second })
          else entry s id)
  unfolding put
  put-ok t m ttl s id h = ground (
    arith,
    L.set-ok t (default_key m.upload_id) (some m) (ttl / second) s (default_key id),
    default_key-same m.upload_id id,
  )

  put-err :
      (t : Moment) (m : PresignMeta) (ttl : ℕ) (s : V.State) (id : Text) (k : Kind)
      → (put V t m ttl s).0 ≡ err k
      → entry (put V t m ttl s).1 id ≡ entry s id
  unfolding put
  put-err t m ttl s id k h =
      ap entry_in
        (L.set-err t (default_key m.upload_id) (some m) (ttl / second) s (default_key id) k h)

  get-live :
      (t : Moment) (id : Text) (s : V.State) (x : Entry)
      → t.fails ≡ false
      → entry s id ≡ some x
      → t.now ≤ x.exp
      → t.now ≤ x.meta.expires_at
      → (get V t id s).0 ≡ ok x.meta
  unfolding get
  get-live t id s x quiet found fresh live =
      let cell = cell_of_entry (L.cell s (default_key id)) x found in
      rw
        (L.get-live t (default_key id) s (record { value = some x.meta; deadline = x.exp }) quiet
          cell fresh)
        (ground arith)

  delete-ok :
      (t : Moment) (id other : Text) (s : V.State)
      → (delete V t id s).0 ≡ ok tt
      → entry (delete V t id s).1 other ≡ (if id =s= other then none else entry s other)
  unfolding delete
  delete-ok t id other s h =
      ground (arith, L.del-ok t (default_key id) (default_key other) s, default_key-same id other)

  -- Get returned a token: the server's answer was that token, and nothing was deleted.
  answer-ok :
      (t : Moment) (id : Text) (r : Result (Option (Option PresignMeta))) (s : V.State)
      (m : PresignMeta)
      → (answer V t id r s).0 ≡ ok m
      → (r ≡ ok (some (some m))) × ((answer V t id r s).1 ≡ s)
  unfolding answer
  answer-ok t id (err k) s m h = absurd (ground arith)
  answer-ok t id (ok none) s m h = absurd (ground arith)
  answer-ok t id (ok (some none)) s m h = absurd (ground arith)
  answer-ok t id (ok (some (some x))) s m h = elim (Bool-cases (is_expired t.now x)) [
    | inl late ↦ absurd (ground (arith, late))
    | inr early ↦ (ground (arith, early), rw early refl)
  ]

  get-ok :
      (t : Moment) (id : Text) (s : V.State) (m : PresignMeta)
      → (get V t id s).0 ≡ ok m
      → (x : Entry) × (entry s id ≡ some x)
        × (x.meta ≡ m)
        × (t.now ≤ x.exp)
        × (entry (get V t id s).1 id ≡ some x)
  unfolding get
  get-ok t id s m h =
      let key = default_key id in
      let (answered, kept) = answer-ok t id (V.get t key s).0 (V.get t key s).1 m h in
      let (c, found, token, fresh, still) = L.get-ok t key s (some m) answered in
      let x : Entry = record { meta = m; exp = c.deadline } in
      let is : c ≡ record { value = some m; deadline = c.deadline } = ground (arith, token) in
      let stands : entry_in (some c) ≡ some x = ap (λ (c : Cell). entry_in (some c)) is in
      (
        x,
        ap entry_in found ∙ stands,
        refl,
        fresh,
        ap (λ (s : V.State). entry s id) kept ∙ (ap entry_in still ∙ stands),
      )

  -- The registry on a key server that does what its documentation says meets what the clients of a
  -- registry rely on, as the registry in memory does: a Put that succeeds changes one place, one that
  -- fails changes none, and a Delete that succeeds empties one place; Get returns the token of an entry
  -- that has expired neither on the server nor by its own time, unless the call fails, and no other;
  -- entries are kept for the whole seconds of the time that Put is given.
  pub valkey_registry-Refines : Refines (valkey_registry V) (λ ttl. ttl / second * second)
  unfolding valkey_registry
  valkey_registry-Refines = record {
    entry = entry;
    put-ok = put-ok;
    put-err = put-err;
    get-live = get-live;
    get-ok = get-ok;
    delete-ok = delete-ok;
  }

-- Get never returns a token that has expired by its own time, whatever the server does.
answer-fresh :
    (V : KeyServer) (t : Moment) (id : Text) (r : Result (Option (Option PresignMeta)))
    (s : V.State) (m : PresignMeta)
    → (answer V t id r s).0 ≡ ok m
    → is_expired t.now m ≡ false
unfolding answer
answer-fresh V t id (err k) s m h = absurd (ground arith)
answer-fresh V t id (ok none) s m h = absurd (ground arith)
answer-fresh V t id (ok (some none)) s m h = absurd (ground arith)
answer-fresh V t id (ok (some (some x))) s m h = elim (Bool-cases (is_expired t.now x)) [
  | inl late ↦ absurd (ground (arith, late))
  | inr early ↦ ground (arith, early)
]

pub get-fresh :
    (V : KeyServer) (t : Moment) (id : Text) (s : V.State) (m : PresignMeta)
    → (get V t id s).0 ≡ ok m
    → is_expired t.now m ≡ false
unfolding get
get-fresh V t id s m h =
    answer-fresh V t id (V.get t (default_key id) s).0 (V.get t (default_key id) s).1 m h
