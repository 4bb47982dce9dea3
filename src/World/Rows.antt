-- ===== src/World/Rows.antt =====
-- ent's queries on a table that is a list of rows: Where(p), with Only or First, UpdateOneID and Delete.
use mdrive.Prelude.{
  ◌≡◌, refl, Bool, true, false, Option, none, some, List, [], ◌∷◌, ◌++◌, if◌then◌else◌, Bool-cases,
  inl, inr, arith,
}

module _ {A : Type 0} where
  -- The first row that meets the condition.
  unfoldable pub find : (A → Bool) → List A → Option A
  find p [] = none
  find p (x ∷ xs) = if p x then some x else find p xs

  unfoldable pub exists_where : (A → Bool) → List A → Bool
  exists_where p [] = false
  exists_where p (x ∷ xs) = if p x then true else exists_where p xs

  unfoldable pub update_where : (A → Bool) → (A → A) → List A → List A
  update_where p set [] = []
  update_where p set (x ∷ xs) = (if p x then set x else x) ∷ update_where p set xs

  unfoldable pub delete_where : (A → Bool) → List A → List A
  delete_where p [] = []
  delete_where p (x ∷ xs) = let rest = delete_where p xs in if p x then rest else x ∷ rest

  unfoldable pub select : (A → Bool) → List A → List A
  select p [] = []
  select p (x ∷ xs) = let rest = select p xs in if p x then x ∷ rest else rest

  pub find-meets : (p : A → Bool) (x : A) (xs : List A) → find p xs ≡ some x → p x ≡ true
  unfolding find
  find-meets p x [] h = absurd (ground arith)
  find-meets p x (y ∷ xs) h = elim (Bool-cases (p y)) [
    | inl meets ↦ ground (arith, meets)
    | inr fails ↦ find-meets p x xs (ground (arith, fails))
  ]

  pub find-delete_where : (p : A → Bool) (xs : List A) → find p (delete_where p xs) ≡ none
  unfolding find delete_where
  find-delete_where p [] = refl
  find-delete_where p (x ∷ xs) = elim (Bool-cases (p x)) [
    | inl meets ↦ rw meets (find-delete_where p xs)
    | inr fails ↦ rw (fails, fails) (find-delete_where p xs)
  ]

  -- Rows that do not meet the condition are found as before.
  pub find-delete_where_other :
      (p q : A → Bool) (xs : List A)
      → ((x : A) → q x ≡ true → p x ≡ false)
      → find q (delete_where p xs) ≡ find q xs
  unfolding find delete_where
  find-delete_where_other p q [] h = refl
  find-delete_where_other p q (x ∷ xs) h = ground (arith, h x, find-delete_where_other p q xs h)

  -- Where the update keeps the condition, the row found is the updated one.
  pub find-update_where :
      (p : A → Bool) (set : A → A) (x : A) (xs : List A)
      → ((y : A) → p y ≡ true → p (set y) ≡ true)
      → find p xs ≡ some x
      → find p (update_where p set xs) ≡ some (set x)
  unfolding find update_where
  find-update_where p set x [] keep h = absurd (ground arith)
  find-update_where p set x (y ∷ xs) keep h =
      ground (arith, keep y, find-update_where p set x xs keep)

  pub exists-find :
      (p : A → Bool) (x : A) (xs : List A) → find p xs ≡ some x → exists_where p xs ≡ true
  unfolding find exists_where
  exists-find p x [] h = absurd (ground arith)
  exists-find p x (y ∷ xs) h = ground (arith, exists-find p x xs)

  -- The row that is inserted is found if none was.
  pub find-append :
      (p : A → Bool) (x : A) (xs : List A)
      → find p xs ≡ none
      → p x ≡ true
      → find p (xs ++ x ∷ []) ≡ some x
  unfolding find
  find-append p x [] gone meets = rw meets refl
  find-append p x (y ∷ xs) gone meets = ground (arith, find-append p x xs)

  -- Nothing is found by a condition that is stronger than one that no row meets.
  pub exists-none :
      (p q : A → Bool) (xs : List A)
      → ((x : A) → p x ≡ true → q x ≡ true)
      → exists_where q xs ≡ false
      → find p xs ≡ none
  unfolding find exists_where
  exists-none p q [] stronger free = refl
  exists-none p q (x ∷ xs) stronger free = ground (arith, stronger x, exists-none p q xs stronger)
