-- ===== src/Upload/Valkey.antt =====
-- internal/upload/valkey.go: the registry on a key server.
pub mod Refinement
use mdrive.Prelude.{
  ℕ, ◌+◌, ◌*◌, ◌/◌, ◌≡◌, ◌≤◌, refl, sym, ap, ◌∙◌, Bool, true, false, Option, none, some, List, [],
  ◌∷◌, ◌++◌, map, Text, codes, ltb, ◌=s=◌, =s=_iff, ◌==◌, if◌then◌else◌, arith, Bool-cases,
  Option-cases, inl, inr,
}
use mdrive.Errorx.{Kind}
use mdrive.Result.{Result, ok, err}
use mdrive.Outside.{Moment}
use mdrive.Upload.Tokens.{PresignMeta, is_expired, Entry, TokenRegistry, Refines}

-- The server, which is not part of the program: SET with EX, GET, DEL and SCAN with MATCH. A value is the
-- JSON of a token, or none if it is no such JSON.
pub record KeyServer : Type 1 where
  pub State : Type 0
  pub set : Moment → Text → Option PresignMeta → ℕ → State → Result (Unit {0}) × State
  pub get : Moment → Text → State → Result (Option (Option PresignMeta)) × State
  pub del : Moment → Text → State → Result (Unit {0}) × State
  pub scan : Moment → ℕ → Text → State → Result (List Text × ℕ) × State

-- nanoseconds
abbrev pub second : ℕ
second = 1000000000

pub record Cell : Type 0 where
  pub value : Option PresignMeta
  pub deadline : ℕ

-- What the documentation of the server says of SET, GET and DEL.
pub record IsServer (V : KeyServer) : Type 0 where
  pub cell : V.State → Text → Option Cell
  pub set-ok :
      (t : Moment) (key : Text) (v : Option PresignMeta) (secs : ℕ) (s : V.State) (other : Text)
      → (V.set t key v secs s).0 ≡ ok tt
      → cell (V.set t key v secs s).1 other ≡ (
          if key =s= other
          then some (record { value = v; deadline = t.now + secs * second })
          else cell s other)
  pub set-err :
      (t : Moment) (key : Text) (v : Option PresignMeta) (secs : ℕ) (s : V.State) (other : Text)
      (k : Kind)
      → (V.set t key v secs s).0 ≡ err k
      → cell (V.set t key v secs s).1 other ≡ cell s other
  pub get-live :
      (t : Moment) (key : Text) (s : V.State) (x : Cell)
      → t.fails ≡ false
      → cell s key ≡ some x
      → t.now ≤ x.deadline
      → (V.get t key s).0 ≡ ok (some x.value)
  pub get-ok :
      (t : Moment) (key : Text) (s : V.State) (v : Option PresignMeta)
      → (V.get t key s).0 ≡ ok (some v)
      → (x : Cell) × (cell s key ≡ some x)
        × (x.value ≡ v)
        × (t.now ≤ x.deadline)
        × (cell (V.get t key s).1 key ≡ some x)
  pub del-ok :
      (t : Moment) (key other : Text) (s : V.State)
      → (V.del t key s).0 ≡ ok tt
      → cell (V.del t key s).1 other ≡ (if key =s= other then none else cell s other)

-- DefaultKeyPrefix and DefaultKey
abbrev pub prefix : Text
prefix = codes "mdrive:upload:"

unfoldable pub default_key : Text → Text
default_key id = prefix ++ id

-- strings.TrimPrefix
unfoldable pub trim_prefix : Text → Text → Text → Text
trim_prefix whole s [] = s
trim_prefix whole [] (c ∷ p) = whole
trim_prefix whole (d ∷ s) (c ∷ p) = if c == d then trim_prefix whole s p else whole

module _ (V : KeyServer) where
  -- Put
  unfoldable pub put : Moment → PresignMeta → ℕ → V.State → Result (Unit {0}) × V.State
  unfolding default_key
  put t m ttl s = V.set t (default_key m.upload_id) (some m) (ttl / second) s

  -- Delete
  unfoldable pub delete : Moment → Text → V.State → Result (Unit {0}) × V.State
  unfolding default_key
  delete t id s = V.del t (default_key id) s

  -- Get: what it makes of the answer to GET.
  abbrev pub answer :
      Moment → Text → Result (Option (Option PresignMeta)) → V.State → Result PresignMeta × V.State
  unfolding delete
  answer t id (err k) s = (err k, s)
  answer t id (ok none) s = (err Kind.invalid_argument, s)
  answer t id (ok (some none)) s = (err Kind.internal, s)
  answer t id (ok (some (some m))) s =
      if is_expired t.now m then (err Kind.invalid_argument, (delete t id s).1) else (ok m, s)

  unfoldable pub get : Moment → Text → V.State → Result PresignMeta × V.State
  unfolding default_key answer delete
  get t id s = let (r, s') = V.get t (default_key id) s in answer t id r s'

  -- One page of Scan.
  abbrev ids_of : Result (List Text × ℕ) → Result (List Text × ℕ)
  ids_of (err k) = err k
  ids_of (ok (keys, cursor)) = ok (map (λ key. trim_prefix key key prefix) keys, cursor)

  unfoldable pub scan_page : Moment → ℕ → V.State → Result (List Text × ℕ) × V.State
  scan_page t cursor s = let (r, s') = V.scan t cursor (prefix ++ codes "*") s in (ids_of r, s')

  unfoldable pub valkey_registry : TokenRegistry
  unfolding put get delete scan_page
  valkey_registry = record {
    State = V.State;
    put = put;
    get = get;
    delete = delete;
    scan_page = some scan_page;
  }
