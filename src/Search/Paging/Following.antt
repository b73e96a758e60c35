-- ===== src/Search/Paging/Following.antt =====
-- Following links from page to page gives every row once, for any pages that a cursor continues.
use mathlib.Core.List.{append_assoc, append-nil}
use webhook_inbox.Prelude.{
  ℕ, zero, suc, ◌-◌, ◌≤◌, ◌<◌, ◌≡◌, refl, sym, ap, ◌∙◌, true, false, List, [], ◌∷◌, ◌++◌, Option,
  none, some, length, length-take, take, drop, ◌==◌, arith, Bool-cases, inl, inr,
}
use webhook_inbox.Prelude.Text.{Str}
use webhook_inbox.Search.Query.{Formats, Cursor, encode}
use webhook_inbox.Search.Paging.{last, next_of}

-- The rows of the pages from a cursor on, by the rows that each page has, on fuel.
unfoldable pub follow {ℓ} :
    {A : Type ℓ} → (Option Str → List A) → (List A → Option Str) → ℕ → Option Str → List A
follow page next zero cursor = []
follow page next (suc fuel) cursor =
    page cursor
    ++ elim (next (page cursor)) [ none ↦ [] | some text ↦ follow page next fuel (some text) ]

module _ {ℓ} {A : Type ℓ} where
  take-drop : (n : ℕ) (xs : List A) → take n xs ++ drop n xs ≡ xs
  take-drop zero xs = refl
  take-drop (suc n) [] = refl
  take-drop (suc n) (x ∷ xs) = ap (λ t. x ∷ t) (take-drop n xs)

  length-drop : (n : ℕ) (xs : List A) → length (drop n xs) ≡ length xs - n
  length-drop zero xs = omega arith
  length-drop (suc n) [] = omega arith
  length-drop (suc n) (x ∷ xs) = omega (arith, length-drop n xs)

  take_short : (n : ℕ) (xs : List A) → (length (take n xs) == n) ≡ false → take n xs ≡ xs
  take_short zero xs h = absurd (ground arith)
  take_short (suc n) [] h = refl
  take_short (suc n) (x ∷ xs) h = ground (arith, take_short n xs)

  full_at_most : (n : ℕ) (xs : List A) → (length (take n xs) == n) ≡ true → n ≤ length xs
  full_at_most n xs h = ground (arith, length-take n xs)

  -- A list that is not empty ends in its last item.
  last-some :
      (x : A) (xs : List A)
      → (front : List A) × (y : A) × (last (x ∷ xs) ≡ some y) × (x ∷ xs ≡ front ++ y ∷ [])
  last-some x [] = ([], x, refl, refl)
  last-some x (z ∷ xs) =
      let (front, y, found, split) = last-some z xs in (x ∷ front, y, found, ap (λ t. x ∷ t) split)

module _ {ℓ} {A : Type ℓ} (page : Option Str → List A) (next : List A → Option Str) (fuel : ℕ) where
  follow_on :
      (cursor : Option Str) (rows : List A) (text : Str)
      → page cursor ≡ rows
      → next rows ≡ some text
      → follow page next (suc fuel) cursor ≡ rows ++ follow page next fuel (some text)
  unfolding follow
  follow_on cursor rows text here goes = rw (here, goes, follow) refl

  follow_end :
      (cursor : Option Str) (rows : List A)
      → page cursor ≡ rows
      → next rows ≡ none
      → follow page next (suc fuel) cursor ≡ rows
  unfolding follow
  follow_end cursor rows here ends = rw (here, ends, follow) (append-nil rows)

module _ {ℓ} {A : Type ℓ} (f : Formats) (after : A → Cursor) (size : ℕ) where
  next_short :
      (rest : List A) → (length (take size rest) == size) ≡ false → next_of f after size rest ≡ none
  unfolding next_of
  next_short rest short =
      let small : (length rest == size) ≡ false =
        ap (λ rows. length rows == size) (sym (take_short size rest short)) ∙ short in
      rw small refl

  next_full :
      (rows : List A)
      → 0 < size
      → (length rows == size) ≡ true
      → (front : List A) × (x : A) × (rows ≡ front ++ x ∷ [])
        × (next_of f after size rows ≡ some (encode f (after x)))
  unfolding next_of
  next_full [] pos full = absurd (ground arith)
  next_full (r ∷ rows) pos full =
      let (front, x, found, split) = last-some r rows in (front, x, split, rw (full, found) refl)

module _ {ℓ} {A : Type ℓ} (f : Formats) (after : A → Cursor) (size : ℕ) (page : Option Str → List A)
    (all : List A)
    (next : (front : List A) (x : A) (rest : List A)
      → all ≡ front ++ x ∷ rest
      → page (some (encode f (after x))) ≡ take size rest) where
  follow_from :
      (fuel : ℕ) (front rest : List A) (cursor : Option Str)
      → 0 < size
      → all ≡ front ++ rest
      → page cursor ≡ take size rest
      → length rest < fuel
      → follow page (next_of f after size) fuel cursor ≡ rest
  unfolding follow
  follow_from zero front rest cursor pos split here enough = absurd (omega (arith, enough))
  follow_from (suc fuel) front rest cursor pos split here enough =
      elim (Bool-cases (length (take size rest) == size)) [
        | inr short ↦
            follow_end page (next_of f after size) fuel cursor rest
              (here ∙ take_short size rest short) (next_short f after size rest short)
        | inl full ↦
            let (init, x, ends, goes) = next_full f after size (take size rest) pos full in
            let split_after : all ≡ (front ++ take size rest) ++ drop size rest =
              split
              ∙ ap (λ t. front ++ t) (sym (take-drop size rest))
              ∙ sym (append_assoc front (take size rest) (drop size rest)) in
            let split_last : all ≡ (front ++ init) ++ x ∷ drop size rest =
              split_after
              ∙ ap (λ t. t ++ drop size rest)
                  (ap (λ t. front ++ t) ends ∙ sym (append_assoc front init (x ∷ [])))
              ∙ append_assoc (front ++ init) (x ∷ []) (drop size rest) in
            let less : length (drop size rest) < fuel =
              omega (arith, enough, length-drop size rest, full_at_most size rest full) in
            follow_on page (next_of f after size) fuel cursor (take size rest) (encode f (after x))
              here goes
            ∙ ap (λ t. take size rest ++ t)
                (follow_from fuel (front ++ take size rest) (drop size rest)
                  (some (encode f (after x))) pos split_after
                  (next (front ++ init) x (drop size rest) split_last) less)
            ∙ take-drop size rest
      ]

  -- From the first page on, the pages together are everything.
  pub follow-all :
      (fuel : ℕ)
      → 0 < size
      → page none ≡ take size all
      → length all < fuel
      → follow page (next_of f after size) fuel none ≡ all
  follow-all fuel pos first enough = follow_from fuel [] all none pos refl first enough
