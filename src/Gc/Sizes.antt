-- ===== src/Gc/Sizes.antt =====
-- internal/app/gc/store.go: how many keys a group of tombstones has.
use mdrive.Prelude.{
  ℕ, zero, suc, ◌+◌, ◌≡◌, ◌≤◌, refl, ◌∙◌, subst, Bool, false, ◌||◌, List, [], ◌∷◌, ◌++◌, Text,
  length, length-append, ltb, ◌=s=◌, Bool-cases, inl, inr, arith,
}
use mathlib.Core.List.{Perm}
use mdrive.World.Tables.{Tombstone}
use mdrive.Drives.Rows.{limit}
use mdrive.Gc.Tombstones.{TombstoneGroup, add_to_group, by_bucket}
use mdrive.Gc.Objects.{disjunction-Perm}

-- One of the groups has more than `n` keys.
abbrev pub is_over : ℕ → List TombstoneGroup → Bool
is_over n [] = false
is_over n (g ∷ groups) = ltb n (length g.keys) || is_over n groups

ltb-suc : (n a : ℕ) → ltb n a ≡ false → ltb (suc n) a ≡ false
ltb-suc n a h = ground arith

ltb-append :
    (n : ℕ) (keys : List Text) (x : Text)
    → ltb n (length keys) ≡ false
    → ltb (suc n) (length (keys ++ x ∷ [])) ≡ false
ltb-append n keys x h = ground (arith, length-append keys (x ∷ []))

is_over-suc :
    (n : ℕ) (groups : List TombstoneGroup)
    → is_over n groups ≡ false
    → is_over (suc n) groups ≡ false
is_over-suc n [] h = refl
is_over-suc n (g ∷ groups) h = ground (arith, is_over-suc n groups, ltb-suc n (length g.keys))

is_over-add_to_group :
    (r : Tombstone) (groups : List TombstoneGroup) (n : ℕ)
    → is_over n groups ≡ false
    → is_over (suc n) (add_to_group r groups) ≡ false
unfolding add_to_group
is_over-add_to_group r [] n h = ground arith
is_over-add_to_group r (g ∷ groups) n h = elim (Bool-cases (g.bucket =s= r.bucket)) [
  | inl same ↦ rw same (ground (arith, is_over-suc n groups, ltb-append n g.keys r.key))
  | inr other ↦
      rw other (ground (arith, is_over-add_to_group r groups n, ltb-suc n (length g.keys)))
]

is_over-by_bucket :
    (groups : List TombstoneGroup) (rows : List Tombstone) (n : ℕ)
    → is_over n groups ≡ false
    → is_over (length rows + n) (by_bucket groups rows) ≡ false
unfolding by_bucket
is_over-by_bucket groups [] n h =
    let same : n ≡ 0 + n = omega arith in subst (λ (k : ℕ). is_over k groups ≡ false) same h
is_over-by_bucket groups (r ∷ rows) n h =
    let next : length rows + suc n ≡ suc (length rows) + n = omega arith in
    subst (λ (k : ℕ). is_over k (by_bucket (add_to_group r groups) rows) ≡ false) next
      (is_over-by_bucket (add_to_group r groups) rows (suc n) (is_over-add_to_group r groups n h))

length-limit : {A : Type 0} (n : ℕ) (xs : List A) → length (limit n xs) ≤ n
unfolding limit
length-limit zero xs = omega arith
length-limit (suc n) [] = omega arith
length-limit (suc n) (x ∷ xs) = omega (arith, length-limit n xs)

is_over_le :
    (n m : ℕ) (groups : List TombstoneGroup)
    → n ≤ m
    → is_over n groups ≡ false
    → is_over m groups ≡ false
is_over_le n m [] le h = refl
is_over_le n m (g ∷ groups) le h = ground (arith, le, is_over_le n m groups le)

-- No group of the rows that a query takes has more keys than it takes rows, in whatever order the
-- groups are visited.
pub limit-not_over :
    (visit : List TombstoneGroup → List TombstoneGroup) (n : ℕ) (rows : List Tombstone)
    → ((groups : List TombstoneGroup) → Perm (visit groups) groups)
    → is_over n (visit (by_bucket [] (limit n rows))) ≡ false
limit-not_over visit n rows order =
    let kept = limit n rows in
    let small : length kept + 0 ≤ n = omega (arith, length-limit n rows) in
    disjunction-Perm (λ groups. is_over n groups) (λ g. ltb n (length g.keys)) _ _ (λ g l. refl)
      (order (by_bucket [] kept))
    ∙ is_over_le (length kept + 0) n (by_bucket [] kept) small (is_over-by_bucket [] kept 0 refl)
