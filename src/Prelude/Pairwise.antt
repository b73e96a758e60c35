-- ===== src/Prelude/Pairwise.antt =====
-- Items that are pairwise related, items around one, and the items of a sorted list.
use Prim.Native.Nat.{suc}
use mathlib.Core.Path.{◌≡◌, refl, ap, ◌∙◌}
use mathlib.Core.Logic.{inl, inr}
use mathlib.Core.Bool.{Bool}
use native.Mathlib.Omega.{arith}
use mathlib.Core.List.{List, [], ◌∷◌, ◌++◌}
use webhook_inbox.Prelude.Lists.{length, All, All-append, All-map, All-middle, All-replace}
use webhook_inbox.Prelude.Tests.{Bool-cases}
use webhook_inbox.Prelude.Sort.{Pairwise, insert_sorted, sort_by}

-- Lists of pairwise related items, after the calls that write.
module _ {ℓ} {A : Type ℓ} (R : A → A → Type 0) where
  pub Pairwise-snoc :
      (xs : List A) (x : A) → Pairwise R xs → All (λ y. R y x) xs → Pairwise R (xs ++ x ∷ [])
  Pairwise-snoc [] x h k = (tt, tt)
  Pairwise-snoc (y ∷ xs) x (p, h) (q, k) =
      (All-append (R y) xs (x ∷ []) p (q, tt), Pairwise-snoc xs x h k)

  pub Pairwise-replace :
      (front back : List A) (old new : A)
      → ((a : A) → R a old → R a new)
      → ((a : A) → R old a → R new a)
      → Pairwise R (front ++ old ∷ back)
      → Pairwise R (front ++ new ∷ back)
  Pairwise-replace [] back old new f g (p, h) = (All-map back g p, h)
  Pairwise-replace (y ∷ front) back old new f g (p, h) =
      let (_, here, _) = All-middle (R y) front old back p in
      (All-replace (R y) front old new back (f y here) p, Pairwise-replace front back old new f g h)

  -- One item and all others.
  pub Pairwise-middle :
      (front back : List A) (x : A)
      → Pairwise R (front ++ x ∷ back)
      → All (λ y. R y x) front × All (R x) back
  Pairwise-middle [] back x (p, h) = (tt, p)
  Pairwise-middle (y ∷ front) back x (p, h) =
      let (before, after) = Pairwise-middle front back x h in
      let (_, here, _) = All-middle (R y) front x back p in ((here, before), after)

-- What holds of every item alone and with every other.
pub All-both {ℓ} :
    {A : Type ℓ} {P Q R : A → Type 0} (xs : List A)
    → ((x : A) → P x → Q x → R x)
    → All P xs
    → All Q xs
    → All R xs
All-both [] f h k = tt
All-both (x ∷ xs) f (p, h) (q, k) = (f x p q, All-both xs f h k)

-- All items around one.
pub All-around {ℓ} :
    {A : Type ℓ} {P : A → Type 0} {Q : A → Type 0} (front back : List A) (x : A)
    → ((y : A) → P y → Q y)
    → Q x
    → All P front
    → All P back
    → All Q (front ++ x ∷ back)
All-around [] back x f q h k = (q, All-map back f k)
All-around (y ∷ front) back x f q (p, h) k = (f y p, All-around front back x f q h k)

module _ {ℓ} {A : Type ℓ} (before : A → A → Bool) where
  length-insert_sorted :
      (x : A) (xs : List A) → length (insert_sorted before x xs) ≡ suc (length xs)
  unfolding insert_sorted
  length-insert_sorted x [] = refl
  length-insert_sorted x (y ∷ ys) = ground (arith, length-insert_sorted x ys)

  pub length-sort_by : (xs : List A) → length (sort_by before xs) ≡ length xs
  unfolding sort_by
  length-sort_by [] = refl
  length-sort_by (x ∷ xs) = length-insert_sorted x (sort_by before xs) ∙ ap suc (length-sort_by xs)

  insert_sorted-All :
      (P : A → Type 0) (x : A) (xs : List A) → All P (insert_sorted before x xs) → P x × All P xs
  unfolding insert_sorted
  insert_sorted-All P x [] h = h
  insert_sorted-All P x (y ∷ ys) h = elim (Bool-cases (before y x)) [
    | inl later ↦
        let (q, k) = rw (later, insert_sorted) at h in
        let (p, rest) = insert_sorted-All P x ys k in (p, (q, rest))
    | inr first ↦ rw (first, insert_sorted) at h
  ]

  -- What holds of all items of the sorted list holds of all items.
  pub sort_by-All : (P : A → Type 0) (xs : List A) → All P (sort_by before xs) → All P xs
  unfolding sort_by
  sort_by-All P [] h = tt
  sort_by-All P (x ∷ xs) h =
      let (p, k) = insert_sorted-All P x (sort_by before xs) h in (p, sort_by-All P xs k)
