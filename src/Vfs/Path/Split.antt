-- ===== src/Vfs/Path/Split.antt =====
-- internal/vfs/path.go: splitPath reads the components of a cleaned path back.
use mdrive.Prelude.{
  ℕ, ◌≡◌, refl, sym, ap, ◌∙◌, Bool, true, false, List, [], ◌∷◌, ◌++◌, Text, ◌=s=◌, arith,
}
use mdrive.Vfs.Path.{
  is_space, trim_left, trim_right, trim, is_slash, slash, split, join_parts, clean_parts,
  reverse_onto, clean_path, split_path, split_if_any,
}
use mdrive.Vfs.Path.Clean.{has_slash, Plain, AllPlain, kept, AllPlain-kept}

split-plain : (p : Text) → has_slash p ≡ false → split p ≡ p ∷ []
unfolding split has_slash
split-plain [] n = refl
split-plain (c ∷ p) n = ground (arith, split-plain p)

split-append : (p s : Text) → has_slash p ≡ false → split (p ++ 0x2f ∷ s) ≡ p ∷ split s
unfolding split has_slash
split-append [] s n = refl
split-append (c ∷ p) s n = ground (arith, split-append p s)

split-join_parts :
    (p : Text) (ps : List Text) → AllPlain (p ∷ ps) → split (join_parts (p ∷ ps)) ≡ p ∷ ps
unfolding join_parts
split-join_parts p [] a = split-plain p a.0.2
split-join_parts p (q ∷ ps) a =
    split-append p (join_parts (q ∷ ps)) a.0.2 ∙ ap (λ l. p ∷ l) (split-join_parts q ps a.1)

trim_right-cons :
    (cut : ℕ → Bool) (d : ℕ) (s : Text) (c : ℕ) (t : Text)
    → trim_right cut s ≡ c ∷ t
    → trim_right cut (d ∷ s) ≡ d ∷ c ∷ t
unfolding trim_right
trim_right-cons cut d s c t h = rw h refl

-- What is not trimmed at the right end is not trimmed behind more text.
trim_right-append :
    (cut : ℕ → Bool) (s : Text) (c : ℕ) (t : Text)
    → trim_right cut (c ∷ t) ≡ c ∷ t
    → trim_right cut (s ++ c ∷ t) ≡ s ++ c ∷ t
trim_right-append cut [] c t h = h
trim_right-append cut (d ∷ []) c t h = trim_right-cons cut d (c ∷ t) c t h
trim_right-append cut (d ∷ d' ∷ s) c t h =
    trim_right-cons cut d (d' ∷ s ++ c ∷ t) d' (s ++ c ∷ t) (trim_right-append cut (d' ∷ s) c t h)

trim_right-plain : (p : Text) → has_slash p ≡ false → trim_right is_slash p ≡ p
unfolding trim_right has_slash
trim_right-plain [] n = refl
trim_right-plain (c ∷ []) n = ground arith
trim_right-plain (c ∷ d ∷ p) n =
    trim_right-cons is_slash c (d ∷ p) d p (trim_right-plain (d ∷ p) (ground (arith, n)))

-- A component is not empty.
Plain-cons : (p : Text) → Plain p → (c : ℕ) × (s : Text) × (p ≡ c ∷ s) × (is_slash c ≡ false)
unfolding ◌=s=◌ has_slash
Plain-cons [] a = absurd (ground (arith, a.0))
Plain-cons (c ∷ s) a = (c, s, refl, ground (arith, a.2))

join_parts-cons :
    (p : Text) (ps : List Text)
    → AllPlain (p ∷ ps)
    → (c : ℕ) × (s : Text) × (join_parts (p ∷ ps) ≡ c ∷ s)
      × (is_slash c ≡ false)
      × (trim_right is_slash (c ∷ s) ≡ c ∷ s)
unfolding join_parts
join_parts-cons p [] a =
    let (c, s, is, n) = Plain-cons p a.0 in
    (c, s, is, n, ap (trim_right is_slash) (sym is) ∙ (trim_right-plain p a.0.2 ∙ is))
join_parts-cons p (q ∷ ps) a =
    let (c, s, is, n) = Plain-cons p a.0 in
    let (d, t, there, m, stays) = join_parts-cons q ps a.1 in
    let rest = s ++ 0x2f ∷ d ∷ t in
    (
      c,
      rest,
      ap (λ x. x ++ 0x2f ∷ join_parts (q ∷ ps)) is ∙ ap (λ x. c ∷ s ++ 0x2f ∷ x) there,
      n,
      trim_right-append is_slash (c ∷ s) 0x2f (d ∷ t)
          (trim_right-cons is_slash 0x2f (d ∷ t) d t stays),
    )

trimmed :
    (c : ℕ) (s : Text)
    → is_slash c ≡ false
    → trim_right is_slash (c ∷ s) ≡ c ∷ s
    → split_path (slash ++ c ∷ s) ≡ split (c ∷ s)
unfolding split_path trim_left
trimmed c s n stays =
    let left : trim_left is_slash (slash ++ c ∷ s) ≡ c ∷ s = rw n refl in
    ap split_if_any (ap (trim_right is_slash) left ∙ stays)

split_path-rooted : (ps : List Text) → AllPlain ps → split_path (slash ++ join_parts ps) ≡ ps
unfolding split_path join_parts trim_left trim_right
split_path-rooted [] a = refl
split_path-rooted (p ∷ ps) a =
    let (c, s, is, n, stays) = join_parts-cons p ps a in
    ap (λ x. split_path (slash ++ x)) is
    ∙ (trimmed c s n stays ∙ (ap split (sym is) ∙ split-join_parts p ps a))

clean_path-kept : (p : Text) → clean_path p ≡ slash ++ join_parts (kept (trim is_space p))
unfolding clean_path
clean_path-kept p = refl

-- The components of a cleaned path are those that path.Clean leaves of the trimmed path, and none of
-- them is empty, a dot or two dots, or has a slash in it.
pub split_path-clean_path :
    (p : Text)
    → (split_path (clean_path p) ≡ kept (trim is_space p)) × AllPlain (split_path (clean_path p))
split_path-clean_path p =
    let same : split_path (clean_path p) ≡ kept (trim is_space p) =
      ap split_path (clean_path-kept p)
      ∙ split_path-rooted (kept (trim is_space p)) (AllPlain-kept (trim is_space p)) in
    (same, rw same (AllPlain-kept (trim is_space p)))

clean_parts-plain :
    (ps out : List Text) → AllPlain ps → clean_parts true ps out ≡ reverse_onto ps out
unfolding clean_parts reverse_onto
clean_parts-plain [] out a = refl
clean_parts-plain (p ∷ ps) out a = rw (a.0.0, a.0.1) (clean_parts-plain ps (p ∷ out) a.1)

reverse_onto-reverse_onto :
    (ps out acc : List Text) → reverse_onto (reverse_onto ps out) acc ≡ reverse_onto out (ps ++ acc)
unfolding reverse_onto
reverse_onto-reverse_onto [] out acc = refl
reverse_onto-reverse_onto (p ∷ ps) out acc = reverse_onto-reverse_onto ps (p ∷ out) acc

append_nil : (ps : List Text) → ps ++ [] ≡ ps
append_nil [] = refl
append_nil (p ∷ ps) = ap (λ l. p ∷ l) (append_nil ps)

kept-rooted : (ps : List Text) → AllPlain ps → kept (slash ++ join_parts ps) ≡ ps
unfolding split join_parts clean_parts reverse_onto ◌=s=◌
kept-rooted [] a = refl
kept-rooted (p ∷ ps) a =
    ap (λ l. reverse_onto (clean_parts true l []) []) (split-join_parts p ps a)
    ∙ (ap (λ l. reverse_onto l []) (clean_parts-plain (p ∷ ps) [] a)
        ∙ (reverse_onto-reverse_onto (p ∷ ps) [] [] ∙ append_nil (p ∷ ps)))

-- A cleaned path that has no white space at either end stays as it is when it is cleaned again.
pub clean_path-clean_path :
    (p : Text)
    → trim is_space (clean_path p) ≡ clean_path p
    → clean_path (clean_path p) ≡ clean_path p
clean_path-clean_path p tight =
    let ps = kept (trim is_space p) in
    clean_path-kept (clean_path p)
    ∙ (ap (λ s. slash ++ join_parts (kept s)) (tight ∙ clean_path-kept p)
        ∙ (ap (λ l. slash ++ join_parts l) (kept-rooted ps (AllPlain-kept (trim is_space p)))
            ∙ sym (clean_path-kept p)))
