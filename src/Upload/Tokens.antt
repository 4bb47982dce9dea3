-- ===== src/Upload/Tokens.antt =====
-- internal/upload: meta.go, registry.go and memory.go: upload tokens and where they are kept.
use mdrive.Prelude.{
  ℕ, ◌+◌, ◌≡◌, ◌≤◌, Bool, false, Option, none, some, List, Text, ℤ, ltb, ◌=s=◌, if◌then◌else◌,
}
use mdrive.Errorx.{Kind}
use mdrive.Result.{Result, ok, err}
use mdrive.Outside.{Moment}

-- PresignMeta. Encode and DecodePresignMeta are encoding/json on it: the model keeps the record.
pub record PresignMeta : Type 0 where
  pub upload_id : Text
  pub drive_id : Text
  pub user_id : Text
  pub path : Text
  pub bucket : Text
  pub key : Text
  pub content_type : Option Text
  pub size : Option ℤ
  pub expires_at : ℕ

-- IsExpired
abbrev pub is_expired : ℕ → PresignMeta → Bool
is_expired now m = ltb m.expires_at now

-- TokenRegistry, and TokenScanner with the pages of a scan: from a cursor to the ids of a page and the
-- next cursor, which is 0 at the end. A registry without it has none.
pub record TokenRegistry : Type 1 where
  pub State : Type 0
  pub put : Moment → PresignMeta → ℕ → State → Result (Unit {0}) × State
  pub get : Moment → Text → State → Result PresignMeta × State
  pub delete : Moment → Text → State → Result (Unit {0}) × State
  pub scan_page : Option (Moment → ℕ → State → Result (List Text × ℕ) × State)

-- entry
pub record Entry : Type 0 where
  pub meta : PresignMeta
  pub exp : ℕ

-- What the clients of a registry rely on: its state stands for a map from ids to entries. Put and Delete
-- change it in one place, or nowhere when they fail; Get returns the token of an entry that has not
-- expired, unless the call fails, and never another. An entry is kept for `kept ttl`, where `ttl` is the
-- time that Put is given and `kept` says how the registry rounds it.
pub record Refines (R : TokenRegistry) (kept : ℕ → ℕ) : Type 0 where
  pub entry : R.State → Text → Option Entry
  pub put-ok :
      (t : Moment) (m : PresignMeta) (ttl : ℕ) (s : R.State) (id : Text)
      → (R.put t m ttl s).0 ≡ ok tt
      → entry (R.put t m ttl s).1 id ≡ (
          if m.upload_id =s= id
          then some (record { meta = m; exp = t.now + kept ttl })
          else entry s id)
  pub put-err :
      (t : Moment) (m : PresignMeta) (ttl : ℕ) (s : R.State) (id : Text) (k : Kind)
      → (R.put t m ttl s).0 ≡ err k
      → entry (R.put t m ttl s).1 id ≡ entry s id
  pub get-live :
      (t : Moment) (id : Text) (s : R.State) (x : Entry)
      → t.fails ≡ false
      → entry s id ≡ some x
      → t.now ≤ x.exp
      → t.now ≤ x.meta.expires_at
      → (R.get t id s).0 ≡ ok x.meta
  pub get-ok :
      (t : Moment) (id : Text) (s : R.State) (m : PresignMeta)
      → (R.get t id s).0 ≡ ok m
      → (x : Entry) × (entry s id ≡ some x)
        × (x.meta ≡ m)
        × (t.now ≤ x.exp)
        × (entry (R.get t id s).1 id ≡ some x)
  pub delete-ok :
      (t : Moment) (id other : Text) (s : R.State)
      → (R.delete t id s).0 ≡ ok tt
      → entry (R.delete t id s).1 other ≡ (if id =s= other then none else entry s other)
