-- ===== src/Prelude/Sort.antt =====
-- Sorting by a strict test `before`, stable, and the selection of items by a test.
pub mod Permuted
use mathlib.Core.Path.{◌≡◌, refl, ap, ◌∙◌}
use mathlib.Core.Logic.{◌⊎◌, inl, inr}
use mathlib.Core.Bool.{Bool, true, false, ◌&&◌, ◌||◌}
use mathlib.Core.List.{List, [], ◌∷◌, ◌++◌, map}
use native.Mathlib.Omega.{arith}
use webhook_inbox.Prelude.Tests.{if◌then◌else◌, Bool-cases}
use webhook_inbox.Prelude.Lists.{All, All-map, All-middle}

module _ {ℓ} {A : Type ℓ} where
  -- [x for x in xs if test(x)]
  abbrev pub select : (A → Bool) → List A → List A
  select test [] = []
  select test (x ∷ xs) = if test x then x ∷ select test xs else select test xs

  unfoldable pub insert_sorted : (A → A → Bool) → A → List A → List A
  insert_sorted before x [] = x ∷ []
  insert_sorted before x (y ∷ ys) = if before y x then y ∷ insert_sorted before x ys else x ∷ y ∷ ys

  unfoldable pub sort_by : (A → A → Bool) → List A → List A
  unfolding insert_sorted
  sort_by before [] = []
  sort_by before (x ∷ xs) = insert_sorted before x (sort_by before xs)

  pub select_all :
      (test : A → Bool) (xs : List A) → All (λ x. test x ≡ true) xs → select test xs ≡ xs
  select_all test [] h = refl
  select_all test (x ∷ xs) (p, h) = rw p (ap (λ t. x ∷ t) (select_all test xs h))

  pub select_everything : (xs : List A) → select (λ x. true) xs ≡ xs
  select_everything [] = refl
  select_everything (x ∷ xs) = ap (λ t. x ∷ t) (select_everything xs)

  pub select-both :
      (p q : A → Bool) (xs : List A) → select (λ x. p x && q x) xs ≡ select q (select p xs)
  select-both p q [] = refl
  select-both p q (x ∷ xs) = ground (arith, select-both p q xs)

  -- Tests that agree select the same.
  pub select_same :
      (p q : A → Bool) (xs : List A) → ((x : A) → p x ≡ q x) → select p xs ≡ select q xs
  select_same p q [] h = refl
  select_same p q (x ∷ xs) h = ground (arith, h x, select_same p q xs h)

  pub All-select :
      {P : A → Type 0} (test : A → Bool) (xs : List A)
      → ((x : A) → test x ≡ true → P x)
      → All P (select test xs)
  All-select test [] h = tt
  All-select test (x ∷ xs) h = elim (Bool-cases (test x)) [
    | inl hit ↦ rw hit (h x hit, All-select test xs h)
    | inr miss ↦ rw miss (All-select test xs h)
  ]

  pub select-All :
      (P : A → Type 0) (test : A → Bool) (xs : List A) → All P xs → All P (select test xs)
  select-All P test [] h = tt
  select-All P test (x ∷ xs) (p, h) = elim (Bool-cases (test x)) [
    | inl hit ↦ rw hit (p, select-All P test xs h)
    | inr miss ↦ rw miss (select-All P test xs h)
  ]

  All-insert_sorted :
      (P : A → Type 0) (before : A → A → Bool) (x : A) (xs : List A)
      → P x
      → All P xs
      → All P (insert_sorted before x xs)
  unfolding insert_sorted
  All-insert_sorted P before x [] p h = (p, tt)
  All-insert_sorted P before x (y ∷ ys) p (q, h) = elim (Bool-cases (before y x)) [
    | inl later ↦ rw later (q, All-insert_sorted P before x ys p h)
    | inr first ↦ rw first (p, (q, h))
  ]

  -- All pairs of an earlier and a later item are related.
  abbrev pub Pairwise : (A → A → Type 0) → List A → Type 0
  Pairwise R [] = Unit
  Pairwise R (x ∷ xs) = All (R x) xs × Pairwise R xs

  insert_sorted-Pairwise :
      (R : A → A → Type 0) (before : A → A → Bool) (x : A) (xs : List A)
      → ((a b : A) → R a b → R b a)
      → All (R x) xs
      → Pairwise R xs
      → Pairwise R (insert_sorted before x xs)
  unfolding insert_sorted
  insert_sorted-Pairwise R before x [] s h k = (tt, tt)
  insert_sorted-Pairwise R before x (y ∷ ys) s (r, h) (p, k) = elim (Bool-cases (before y x)) [
    | inl later ↦ rw later (
      All-insert_sorted (R y) before x ys (s x y r) p,
      insert_sorted-Pairwise R before x ys s h k,
    )
    | inr first ↦ rw first ((r, h), (p, k))
  ]

  pub All-sort_by :
      (P : A → Type 0) (before : A → A → Bool) (xs : List A) → All P xs → All P (sort_by before xs)
  unfolding sort_by
  All-sort_by P before [] h = tt
  All-sort_by P before (x ∷ xs) (p, h) =
      All-insert_sorted P before x (sort_by before xs) p (All-sort_by P before xs h)

  -- Sorting keeps what holds of any two items, in either order.
  pub sort_by-Pairwise :
      (R : A → A → Type 0) (before : A → A → Bool) (xs : List A)
      → ((a b : A) → R a b → R b a)
      → Pairwise R xs
      → Pairwise R (sort_by before xs)
  unfolding sort_by
  sort_by-Pairwise R before [] s h = tt
  sort_by-Pairwise R before (x ∷ xs) s (p, h) =
      insert_sorted-Pairwise R before x (sort_by before xs) s (All-sort_by (R x) before xs p)
        (sort_by-Pairwise R before xs s h)

  -- A strict order in which items that do not precede one another form classes.
  pub record IsWeakOrder (before : A → A → Bool) : Type ℓ where
    pub asym : (a b : A) → before a b ≡ true → before b a ≡ false
    pub cotrans : (a b c : A) → before a c ≡ true → (before a b ≡ true) ⊎ (before b c ≡ true)

  module _ (before : A → A → Bool) (order : IsWeakOrder before) where
    abbrev pub IsSorted : List A → Type 0
    IsSorted = Pairwise (λ a b. before b a ≡ false)

    skip_first :
        (x y : A) (ys : List A)
        → before y x ≡ false
        → All (λ z. before z y ≡ false) ys
        → All (λ z. before z x ≡ false) ys
    skip_first x y ys h = All-map ys (λ z k. elim (Bool-cases (before z x)) [
      | inr far ↦ far
      | inl near ↦ elim (order.cotrans z y x near) [
        | inl a ↦ absurd (ground (arith, k, a))
        | inr b ↦ absurd (ground (arith, h, b))
      ]
    ])

    insert_sorted-IsSorted :
        (x : A) (xs : List A) → IsSorted xs → IsSorted (insert_sorted before x xs)
    unfolding insert_sorted
    insert_sorted-IsSorted x [] h = (tt, tt)
    insert_sorted-IsSorted x (y ∷ ys) (p, h) = elim (Bool-cases (before y x)) [
      | inl later ↦ rw later (
        All-insert_sorted (λ z. before z y ≡ false) before x ys (order.asym y x later) p,
        insert_sorted-IsSorted x ys h,
      )
      | inr first ↦ rw first ((first, skip_first x y ys first p), (p, h))
    ]

    pub sort_by-IsSorted : (xs : List A) → IsSorted (sort_by before xs)
    unfolding sort_by
    sort_by-IsSorted [] = tt
    sort_by-IsSorted (x ∷ xs) = insert_sorted-IsSorted x (sort_by before xs) (sort_by-IsSorted xs)

    ordered_behind :
        (x : A) (ys : List A)
        → All (λ b. before b x ≡ false) ys
        → All (λ b. (before x b || before b x) ≡ true) ys
        → All (λ b. before x b ≡ true) ys
    ordered_behind x [] h k = tt
    ordered_behind x (y ∷ ys) (p, h) (q, k) = (ground arith, ordered_behind x ys h k)

    insert_first :
        (x : A) (ys : List A)
        → All (λ z. before z x ≡ false) ys
        → insert_sorted before x ys ≡ x ∷ ys
    unfolding insert_sorted
    insert_first x [] h = refl
    insert_first x (y ∷ ys) (p, h) = rw p

    select-insert_sorted :
        (test : A → Bool) (x : A) (ys : List A)
        → IsSorted ys
        → select test (insert_sorted before x ys)
          ≡ (if test x then insert_sorted before x (select test ys) else select test ys)
    unfolding insert_sorted
    select-insert_sorted test x [] h = refl
    select-insert_sorted test x (y ∷ ys) (p, h) = elim (Bool-cases (before y x)) [
      | inl later ↦ ground (arith, later, select-insert_sorted test x ys h)
      | inr first ↦
          let front : insert_sorted before x (select test ys) ≡ x ∷ select test ys =
            insert_first x (select test ys)
              (select-All (λ z. before z x ≡ false) test ys (skip_first x y ys first p)) in
          ground (arith, first, front)
    ]

    -- Selecting and sorting may change places.
    pub select-sort_by :
        (test : A → Bool) (xs : List A)
        → select test (sort_by before xs) ≡ sort_by before (select test xs)
    unfolding sort_by
    select-sort_by test [] = refl
    select-sort_by test (x ∷ xs) =
        select-insert_sorted test x (sort_by before xs) (sort_by-IsSorted xs)
        ∙ ground (arith, select-sort_by test xs)

    -- Of a sorted list in which every two items are ordered, the items that an item precedes are
    -- those behind it.
    pub select_behind :
        (front : List A) (last : A) (rest : List A)
        → IsSorted (front ++ last ∷ rest)
        → Pairwise (λ a b. (before a b || before b a) ≡ true) (front ++ last ∷ rest)
        → select (before last) (front ++ last ∷ rest) ≡ rest
    select_behind [] last rest (p, h) (q, k) = elim (Bool-cases (before last last)) [
      | inl odd ↦ absurd (ground (arith, order.asym last last odd))
      | inr fine ↦ rw fine (select_all (before last) rest (ordered_behind last rest p q))
    ]
    select_behind (x ∷ front) last rest (p, h) (q, k) =
        let (_, past, _) = All-middle (λ b. before b x ≡ false) front last rest p in
        rw past (select_behind front last rest h k)

module _ {ℓ} {A : Type ℓ} where
  pub Pairwise-map :
      {R S : A → A → Type 0} (xs : List A)
      → ((a b : A) → R a b → S a b)
      → Pairwise R xs
      → Pairwise S xs
  Pairwise-map [] g h = tt
  Pairwise-map (x ∷ xs) g (p, h) = (All-map xs (g x) p, Pairwise-map xs g h)

  pub select-Pairwise :
      (R : A → A → Type 0) (test : A → Bool) (xs : List A)
      → Pairwise R xs
      → Pairwise R (select test xs)
  select-Pairwise R test [] h = tt
  select-Pairwise R test (x ∷ xs) (p, h) = elim (Bool-cases (test x)) [
    | inl hit ↦ rw hit (select-All (R x) test xs p, select-Pairwise R test xs h)
    | inr miss ↦ rw miss (select-Pairwise R test xs h)
  ]

module _ {ℓ κ} {A : Type ℓ} {B : Type κ} (f : A → B) where
  pub map-All :
      {P : A → Type 0} (Q : B → Type 0) (xs : List A)
      → ((x : A) → P x → Q (f x))
      → All P xs
      → All Q (map f xs)
  map-All Q [] g h = tt
  map-All Q (x ∷ xs) g (p, h) = (g x p, map-All Q xs g h)

  pub map-Pairwise :
      {R : A → A → Type 0} (S : B → B → Type 0) (xs : List A)
      → ((x y : A) → R x y → S (f x) (f y))
      → Pairwise R xs
      → Pairwise S (map f xs)
  map-Pairwise S [] g h = tt
  map-Pairwise S (x ∷ xs) g (p, h) = (map-All (S (f x)) xs (g x) p, map-Pairwise S xs g h)
