-- ===== src/Node/Dir/Entries.antt =====
-- internal/core/node/dir.go: what the loops over the entries do, name by name.
use mdrive.Prelude.{
  ◌+◌, ◌≡◌, refl, ap, inl, inr, true, Option, none, some, List, [], ◌∷◌, ◌++◌, Text, ◌=s=◌,
  if◌then◌else◌, arith, =s=_iff, =s=_refl, length, Bool-cases, ◌≤◌, ◌==◌,
}
use Prim.Native.Nat.{max}
use mdrive.Node.Content.{DirEntry, entry_len, rest_len, dir_len}
use mdrive.Node.Dir.{find_entry, without, remove_first, listed, keep_unlisted}

-- No name stands twice.
abbrev pub Distinct : List DirEntry → Type 0
Distinct [] = Unit
Distinct (e ∷ es) = (find_entry e.name es ≡ none) × Distinct es

abbrev pub or_else {ℓ} : {A : Type ℓ} → Option A → Option A → Option A
or_else none o = o
or_else (some a) o = some a

or_else-none {ℓ} : {A : Type ℓ} (o : Option A) → or_else o none ≡ o
or_else-none none = refl
or_else-none (some a) = refl

pub find_entry-append :
    (m : Text) (es : List DirEntry) (e : DirEntry)
    → find_entry m (es ++ e ∷ [])
      ≡ or_else (find_entry m es) (if e.name =s= m then some e else none)
unfolding find_entry
find_entry-append m [] e = refl
find_entry-append m (x ∷ es) e = ground (arith, find_entry-append m es e)

-- An entry with a new name, put last.
pub find_entry-append_new :
    (m : Text) (es : List DirEntry) (e : DirEntry)
    → find_entry e.name es ≡ none
    → find_entry m (es ++ e ∷ []) ≡ (if e.name =s= m then some e else find_entry m es)
find_entry-append_new m es e h = elim (Bool-cases (e.name =s= m)) [
  | inl same ↦ ground (
    arith,
    find_entry-append m es e,
    same,
    ap (λ (x : Text). find_entry x es) ((=s=_iff e.name m).0 same),
  )
  | inr other ↦ ground (arith, find_entry-append m es e, or_else-none (find_entry m es))
]

-- What is found has the name that was asked for.
pub find_entry-name :
    (m : Text) (es : List DirEntry) (e : DirEntry) → find_entry m es ≡ some e → e.name ≡ m
unfolding find_entry
find_entry-name m [] e h = cc
find_entry-name m (x ∷ es) e h = ground (arith, find_entry-name m es e, =s=_iff x.name m)

pub find_entry-without :
    (name m : Text) (es : List DirEntry)
    → find_entry m (without name es) ≡ (if name =s= m then none else find_entry m es)
unfolding find_entry without
find_entry-without name m [] = ground arith
find_entry-without name m (x ∷ es) =
    ground
      (arith, find_entry-without name m es, =s=_iff x.name name, =s=_iff x.name m, =s=_iff name m)

pub Distinct-append :
    (es : List DirEntry) (e : DirEntry)
    → Distinct es
    → find_entry e.name es ≡ none
    → Distinct (es ++ e ∷ [])
unfolding find_entry
Distinct-append [] e d h = (refl, tt)
Distinct-append (x ∷ es) e d h = ground (
  arith,
  Distinct-append es e d.1,
  find_entry-append x.name es e,
  =s=_iff x.name e.name,
  =s=_iff e.name x.name,
)

pub Distinct-without : (name : Text) (es : List DirEntry) → Distinct es → Distinct (without name es)
unfolding without
Distinct-without name [] d = tt
Distinct-without name (x ∷ es) d =
    ground (arith, Distinct-without name es d.1, find_entry-without name x.name es)

without_absent :
    (name : Text) (es : List DirEntry) → find_entry name es ≡ none → without name es ≡ es
unfolding find_entry without
without_absent name [] h = refl
without_absent name (x ∷ es) h = ground (arith, without_absent name es)

-- With distinct names, cutting out the first entry of a name drops that name.
pub remove_first_lem :
    (name : Text) (es : List DirEntry)
    → Distinct es
    → remove_first name es
      ≡ elim (find_entry name es) [ none ↦ none | some _ ↦ some (without name es) ]
unfolding remove_first find_entry without
remove_first_lem name [] d = refl
remove_first_lem name (x ∷ es) d =
    ground (arith, remove_first_lem name es d.1, without_absent name es, =s=_iff x.name name)

-- What was appended under a new name is what is cut out under that name.
pub without-append :
    (es : List DirEntry) (e : DirEntry)
    → find_entry e.name es ≡ none
    → without e.name (es ++ e ∷ []) ≡ es
unfolding find_entry without
without-append [] e h = rw =s=_refl
without-append (x ∷ es) e h = ground (arith, without-append es e)

pub find_entry-keep_unlisted :
    (names : List Text) (m : Text) (es : List DirEntry)
    → find_entry m (keep_unlisted names es) ≡ (if listed m names then none else find_entry m es)
unfolding find_entry keep_unlisted
find_entry-keep_unlisted names m [] = ground arith
find_entry-keep_unlisted names m (x ∷ es) =
    ground (arith, find_entry-keep_unlisted names m es, =s=_iff x.name m)

pub Distinct-keep_unlisted :
    (names : List Text) (es : List DirEntry) → Distinct es → Distinct (keep_unlisted names es)
unfolding keep_unlisted
Distinct-keep_unlisted names [] d = tt
Distinct-keep_unlisted names (x ∷ es) d =
    ground (arith, Distinct-keep_unlisted names es d.1, find_entry-keep_unlisted names x.name es)

length-keep_unlisted :
    (names : List Text) (es : List DirEntry) → length (keep_unlisted names es) ≤ length es
unfolding keep_unlisted
length-keep_unlisted names [] = omega arith
length-keep_unlisted names (x ∷ es) = ground (arith, length-keep_unlisted names es)

-- If the loop kept as many entries as there were, it kept them all.
pub keep_unlisted_all :
    (names : List Text) (es : List DirEntry)
    → (length (keep_unlisted names es) == length es) ≡ true
    → keep_unlisted names es ≡ es
unfolding keep_unlisted
keep_unlisted_all names [] h = refl
keep_unlisted_all names (x ∷ es) h =
    ground (arith, keep_unlisted_all names es, length-keep_unlisted names es)

-- The length of a listing, with the brackets and the commas.
dir_len_lem : (es : List DirEntry) → dir_len es ≡ max 12 (11 + rest_len es)
unfolding dir_len rest_len entry_len
dir_len_lem [] = omega arith
dir_len_lem (x ∷ es) = omega arith

rest_len-without : (name : Text) (es : List DirEntry) → rest_len (without name es) ≤ rest_len es
unfolding without rest_len
rest_len-without name [] = omega arith
rest_len-without name (x ∷ es) = ground (arith, rest_len-without name es)

rest_len-keep_unlisted :
    (names : List Text) (es : List DirEntry) → rest_len (keep_unlisted names es) ≤ rest_len es
unfolding keep_unlisted rest_len
rest_len-keep_unlisted names [] = omega arith
rest_len-keep_unlisted names (x ∷ es) = ground (arith, rest_len-keep_unlisted names es)

-- A listing from which entries were dropped is no longer.
pub dir_len-without : (name : Text) (es : List DirEntry) → dir_len (without name es) ≤ dir_len es
dir_len-without name es =
    omega (arith, dir_len_lem es, dir_len_lem (without name es), rest_len-without name es)

pub dir_len-keep_unlisted :
    (names : List Text) (es : List DirEntry) → dir_len (keep_unlisted names es) ≤ dir_len es
dir_len-keep_unlisted names es =
    omega
      (arith, dir_len_lem es, dir_len_lem (keep_unlisted names es), rest_len-keep_unlisted names es)
