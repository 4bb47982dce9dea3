-- ===== src/Gc/Objects.antt =====
-- internal/app/gc/store.go and internal/upload/s3/client.go: the objects that groups of tombstones name,
-- and an object store that deletes.
use mdrive.Prelude.{
  ◌≤◌, length, ◌≡◌, refl, sym, ap, ◌∙◌, Bool, true, false, not, ◌&&◌, ◌||◌, List, [], ◌∷◌, ◌++◌,
  Text, ◌=s=◌, =s=_iff, Bool-cases, inl, inr, arith,
}
use mathlib.Core.List.{Perm, Permᴰ}
use mathlib.Core.Logic.{∥∥₁_elim}
use mathlib.Core.Bool.{Bool-set}
use mdrive.Result.{ok}
use mdrive.World.Tables.{Tombstone}
use mdrive.Outside.{Moment}
use mdrive.Upload.Store.{S3Config, S3Cloud, client_of, delete_objects, dropped}
use mdrive.Gc.Tombstones.{TombstoneGroup, add_to_group, by_bucket}

abbrev pub has_key : List Text → Text → Bool
has_key [] key = false
has_key (x ∷ keys) key = (x =s= key) || has_key keys key

abbrev pub of_group : TombstoneGroup → Text → Text → Bool
of_group g bucket key = (g.bucket =s= bucket) && has_key g.keys key

-- An object of one of the groups.
abbrev pub of_groups : List TombstoneGroup → Text → Text → Bool
of_groups [] bucket key = false
of_groups (g ∷ groups) bucket key = of_group g bucket key || of_groups groups bucket key

-- An object that one of the tombstones names.
abbrev pub is_named : List Tombstone → Text → Text → Bool
is_named [] bucket key = false
is_named (r ∷ rows) bucket key =
    ((r.bucket =s= bucket) && (r.key =s= key)) || is_named rows bucket key

has_key-append :
    (keys : List Text) (x key : Text)
    → has_key (keys ++ x ∷ []) key ≡ ((x =s= key) || has_key keys key)
has_key-append [] x key = refl
has_key-append (y ∷ keys) x key = ground (arith, has_key-append keys x key)

or_swap : (a b c : Bool) → (a || (b || c)) ≡ (b || (a || c))
or_swap true true c = refl
or_swap true false c = refl
or_swap false b c = refl

of_group-append : (a b c rest : Bool) → ((a && (b || c)) || rest) ≡ ((a && b) || ((a && c) || rest))
of_group-append true b c rest = ground arith
of_group-append false b c rest = refl

of_groups-add_to_group :
    (r : Tombstone) (groups : List TombstoneGroup) (bucket key : Text)
    → of_groups (add_to_group r groups) bucket key
      ≡ (((r.bucket =s= bucket) && (r.key =s= key)) || of_groups groups bucket key)
unfolding add_to_group
of_groups-add_to_group r [] bucket key = ground arith
of_groups-add_to_group r (g ∷ groups) bucket key = elim (Bool-cases (g.bucket =s= r.bucket)) [
  | inl same ↦
      let is : g.bucket ≡ r.bucket = (=s=_iff g.bucket r.bucket).0 same in
      rw same (
        ap (λ (b : Bool). ((g.bucket =s= bucket) && b) || of_groups groups bucket key)
          (has_key-append g.keys r.key key)
        ∙ (of_group-append (g.bucket =s= bucket) (r.key =s= key) (has_key g.keys key)
              (of_groups groups bucket key)
            ∙ ap
                (λ (b : Text).
                  ((b =s= bucket) && (r.key =s= key)) || of_groups (g ∷ groups) bucket key)
                is))
  | inr other ↦ rw other (
      ap (λ (b : Bool). of_group g bucket key || b) (of_groups-add_to_group r groups bucket key)
      ∙ or_swap (of_group g bucket key) ((r.bucket =s= bucket) && (r.key =s= key))
          (of_groups groups bucket key))
]

pub of_groups-by_bucket :
    (groups : List TombstoneGroup) (rows : List Tombstone) (bucket key : Text)
    → of_groups (by_bucket groups rows) bucket key
      ≡ (is_named rows bucket key || of_groups groups bucket key)
unfolding by_bucket
of_groups-by_bucket groups [] bucket key = refl
of_groups-by_bucket groups (r ∷ rows) bucket key = ground (
  arith,
  of_groups-by_bucket (add_to_group r groups) rows bucket key,
  of_groups-add_to_group r groups bucket key,
)

-- A test of a list that is a disjunction over its elements does not depend on their order.
pub disjunction-Perm :
    {A : Type 0} (f : List A → Bool) (p : A → Bool) (xs ys : List A)
    → ((x : A) (l : List A) → f (x ∷ l) ≡ (p x || f l))
    → Perm xs ys
    → f xs ≡ f ys
disjunction-Perm {A} f p xs ys step perm = ∥∥₁_elim perm (Bool-set (f xs) (f ys)) go
  where
    go : {xs ys : List A} → Permᴰ xs ys → f xs ≡ f ys
    go Permᴰ.nil = refl
    go (Permᴰ.cons {a} {b} {l₁} {l₂} e d) =
        step a l₁ ∙ (ap (λ (x : A). p x || f l₁) e ∙ (ap (λ c. p b || c) (go d) ∙ sym (step b l₂)))
    go (Permᴰ.swap {a} {b} {a'} {b'} {l} e e') =
        step a (b ∷ l)
        ∙ (ap (λ c. p a || c) (step b l)
            ∙ (or_swap (p a) (p b) (f l)
                ∙ ((λ i. p (e' i) || (p (e i) || f l))
                    ∙ (ap (λ c. p a' || c) (sym (step b' l)) ∙ sym (step a' (b' ∷ l))))))
    go (Permᴰ.trans d d') = go d ∙ go d'

-- The objects of a store: DeleteObjects, for at most a thousand keys and unless the call to it fails,
-- answers that no key is left, and the keys that it was given are gone from the bucket, and no other
-- object is.
pub record IsStore (C : S3Cloud) : Type 0 where
  pub has : C.State → Text → Text → Bool
  pub delete-ok :
      (cfg : S3Config) (t : Moment) (bucket : Text) (keys : List Text) (s : C.State)
      → t.fails ≡ false
      → length keys ≤ 1000
      → (C.delete_objects cfg t bucket keys s).0 ≡ ok []
  pub delete-has :
      (cfg : S3Config) (t : Moment) (bucket : Text) (keys : List Text) (s : C.State)
      (other key : Text)
      → t.fails ≡ false
      → length keys ≤ 1000
      → has (C.delete_objects cfg t bucket keys s).1 other key
        ≡ (not ((bucket =s= other) && has_key keys key) && has s other key)

and_false : (a b : Bool) → (not (a && false) && b) ≡ b
and_false true b = refl
and_false false b = refl

module _ (C : S3Cloud) (w : IsStore C) (cfg : S3Config) (t : Moment) (quiet : t.fails ≡ false) where
  pub delete_objects-ok :
      (bucket : Text) (keys : List Text) (s : C.State)
      → length keys ≤ 1000
      → (delete_objects (client_of C cfg) t bucket keys s).0 ≡ ok tt
  unfolding delete_objects
  delete_objects-ok bucket [] s few = refl
  delete_objects-ok bucket (key ∷ keys) s few =
      ap dropped (w.delete-ok cfg t bucket (key ∷ keys) s quiet few)

  pub delete_objects-has :
      (bucket : Text) (keys : List Text) (s : C.State) (other key : Text)
      → length keys ≤ 1000
      → w.has (delete_objects (client_of C cfg) t bucket keys s).1 other key
        ≡ (not ((bucket =s= other) && has_key keys key) && w.has s other key)
  unfolding delete_objects
  delete_objects-has bucket [] s other key few =
      sym (and_false (bucket =s= other) (w.has s other key))
  delete_objects-has bucket (x ∷ keys) s other key few =
      w.delete-has cfg t bucket (x ∷ keys) s other key quiet few
