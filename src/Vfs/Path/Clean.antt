-- ===== src/Vfs/Path/Clean.antt =====
-- internal/vfs/path.go: which components the walk along a path sees.
use mdrive.Prelude.{
  ℕ, ◌≡◌, refl, Bool, true, false, ◌||◌, List, [], ◌∷◌, Text, Bool-cases, inl, inr,
}
use mdrive.Vfs.Path.{
  is_slash, onto_first, split, is_dot, is_dotdot, back_up, clean_part, clean_parts, reverse_onto,
}

unfoldable pub has_slash : Text → Bool
has_slash [] = false
has_slash (c ∷ s) = is_slash c || has_slash s

-- A component is not empty, a dot or two dots, and has no slash in it.
abbrev pub Plain : Text → Type 0
Plain p = (is_dot p ≡ false) × (is_dotdot p ≡ false) × (has_slash p ≡ false)

abbrev pub AllPlain : List Text → Type 0
AllPlain [] = Unit
AllPlain (p ∷ ps) = Plain p × AllPlain ps

abbrev NoSlashes : List Text → Type 0
NoSlashes [] = Unit
NoSlashes (p ∷ ps) = (has_slash p ≡ false) × NoSlashes ps

NoSlashes-onto_first :
    (c : ℕ) (ps : List Text) → is_slash c ≡ false → NoSlashes ps → NoSlashes (onto_first c ps)
unfolding has_slash
NoSlashes-onto_first c [] h n = (rw h refl, tt)
NoSlashes-onto_first c (p ∷ ps) h (a, b) = (rw (h, a) refl, b)

NoSlashes-split : (s : Text) → NoSlashes (split s)
unfolding split has_slash
NoSlashes-split [] = (refl, tt)
NoSlashes-split (c ∷ s) = elim (Bool-cases (is_slash c)) [
  | inl cut ↦ rw cut (refl, NoSlashes-split s)
  | inr whole ↦ rw whole (NoSlashes-onto_first c (split s) whole (NoSlashes-split s))
]

AllPlain-back_up : (p : Text) (out : List Text) → AllPlain out → AllPlain (back_up true p out)
AllPlain-back_up p [] a = tt
AllPlain-back_up p (q ∷ out) a = rw (a.0.1) (a.1)

AllPlain-clean_part :
    (p : Text) (out : List Text)
    → has_slash p ≡ false
    → AllPlain out
    → AllPlain (clean_part true p out)
AllPlain-clean_part p out n a = elim (Bool-cases (is_dot p)) [
  | inl dot ↦ rw dot a
  | inr plain ↦ elim (Bool-cases (is_dotdot p)) [
    | inl up ↦ rw (plain, up) (AllPlain-back_up p out a)
    | inr in_ ↦ rw (plain, in_) ((plain, in_, n), a)
  ]
]

AllPlain-clean_parts :
    (ps out : List Text) → NoSlashes ps → AllPlain out → AllPlain (clean_parts true ps out)
unfolding clean_parts
AllPlain-clean_parts [] out n a = a
AllPlain-clean_parts (p ∷ ps) out n a =
    AllPlain-clean_parts ps (clean_part true p out) n.1 (AllPlain-clean_part p out n.0 a)

AllPlain-reverse_onto :
    (ps out : List Text) → AllPlain ps → AllPlain out → AllPlain (reverse_onto ps out)
unfolding reverse_onto
AllPlain-reverse_onto [] out a b = b
AllPlain-reverse_onto (p ∷ ps) out a b = AllPlain-reverse_onto ps (p ∷ out) a.1 (a.0, b)

-- The components that path.Clean leaves of a path with a leading slash.
abbrev pub kept : Text → List Text
kept s = reverse_onto (clean_parts true (split s) []) []

pub AllPlain-kept : (s : Text) → AllPlain (kept s)
AllPlain-kept s =
    AllPlain-reverse_onto (clean_parts true (split s) []) []
      (AllPlain-clean_parts (split s) [] (NoSlashes-split s) tt) tt
