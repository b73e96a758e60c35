-- ===== src/Prelude/Sort/Permuted.antt =====
-- Sorting moves items around and loses none; sorting and selection of images.
use mathlib.Core.Path.{◌≡◌, refl, ap, ◌∙◌}
use mathlib.Core.Bool.{Bool}
use mathlib.Core.Logic.{inl, inr}
use mathlib.Core.List.{List, [], ◌∷◌, map, Perm}
use mathlib.Core.List.Perm
use native.Mathlib.Omega.{arith}
use webhook_inbox.Prelude.Tests.{Bool-cases}
use webhook_inbox.Prelude.Sort.{insert_sorted, sort_by, select}

module _ {ℓ} {A : Type ℓ} (before : A → A → Bool) where
  insert_sorted-perm : (x : A) (ys : List A) → Perm (insert_sorted before x ys) (x ∷ ys)
  unfolding insert_sorted
  insert_sorted-perm x [] = Perm.rfl
  insert_sorted-perm x (y ∷ ys) = elim (Bool-cases (before y x)) [
    | inl later ↦ rw later (Perm.trans (Perm.cons y (insert_sorted-perm x ys)) (Perm.swap x y ys))
    | inr first ↦ rw first Perm.rfl
  ]

  pub sort_by-perm : (xs : List A) → Perm (sort_by before xs) xs
  unfolding sort_by
  sort_by-perm [] = Perm.rfl
  sort_by-perm (x ∷ xs) =
      Perm.trans (insert_sorted-perm x (sort_by before xs)) (Perm.cons x (sort_by-perm xs))

module _ {ℓ κ} {A : Type ℓ} {B : Type κ} (f : A → B) where
  pub select-map :
      (test : B → Bool) (xs : List A) → select test (map f xs) ≡ map f (select (λ x. test (f x)) xs)
  select-map test [] = refl
  select-map test (x ∷ xs) = ground (arith, select-map test xs)

  insert_sorted-map :
      (before : B → B → Bool) (x : A) (ys : List A)
      → insert_sorted before (f x) (map f ys)
        ≡ map f (insert_sorted (λ a b. before (f a) (f b)) x ys)
  unfolding insert_sorted
  insert_sorted-map before x [] = refl
  insert_sorted-map before x (y ∷ ys) = ground (arith, insert_sorted-map before x ys)

  pub sort_by-map :
      (before : B → B → Bool) (xs : List A)
      → sort_by before (map f xs) ≡ map f (sort_by (λ a b. before (f a) (f b)) xs)
  unfolding sort_by
  sort_by-map before [] = refl
  sort_by-map before (x ∷ xs) =
      ap (insert_sorted before (f x)) (sort_by-map before xs)
      ∙ insert_sorted-map before x (sort_by (λ a b. before (f a) (f b)) xs)
