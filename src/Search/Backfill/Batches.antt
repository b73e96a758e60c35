-- ===== src/Search/Backfill/Batches.antt =====
-- What the batches are together.
use mathlib.Core.List.{append_assoc}
use webhook_inbox.Prelude.{
  ℕ, ◌+◌, ◌≤◌, ◌<◌, ◌≡◌, refl, ap, ◌∙◌, Bool, not, ◌||◌, List, [], ◌∷◌, ◌++◌, map, length,
  length-append, leb, arith, All, Bool-cases, inl, inr,
}
use webhook_inbox.Prelude.Sort.{select}
use webhook_inbox.Prelude.Text.{Unicode}
use webhook_inbox.Search.Backfill.{
  batch_size, Stored, UpdateOne, operation, write_batches, backfill,
}

abbrev pub flattened {ℓ} : {A : Type ℓ} → List (List A) → List A
flattened [] = []
flattened (xs ∷ xss) = xs ++ flattened xss

-- A bulk write is neither empty nor larger than a batch.
abbrev pub IsBatch : List UpdateOne → Type 0
IsBatch operations = (1 ≤ length operations) × (length operations ≤ batch_size)

module _ (u : Unicode) where
  -- What is still to come of the loop.
  record IsWritten (operations : List UpdateOne) (updated : ℕ) (documents : List Stored)
      (result : List (List UpdateOne) × ℕ) : Type 0 where
    all_of : flattened result.0 ≡ operations ++ map (operation u) documents
    batches : All IsBatch result.0
    count : result.1 ≡ updated + length operations + length documents

  write_batches-IsWritten :
      (operations : List UpdateOne) (updated : ℕ) (documents : List Stored)
      → length operations < batch_size
      → IsWritten operations updated documents (write_batches u operations updated documents)
  unfolding write_batches
  write_batches-IsWritten [] updated [] small = record {
    all_of = refl;
    batches = tt;
    count = omega arith;
  }
  write_batches-IsWritten (o ∷ operations) updated [] small = record {
    all_of = refl;
    batches = ((omega arith, omega (arith, small)), tt);
    count = omega arith;
  }
  write_batches-IsWritten operations updated (d ∷ documents) small =
      let grown = operations ++ operation u d ∷ [] in
      let size : length grown ≡ length operations + 1 =
        length-append operations (operation u d ∷ []) in
      elim (Bool-cases (leb batch_size (length grown))) [
        | inl full ↦
            let rest =
              write_batches-IsWritten [] (updated + length grown) documents (omega arith) in
            rw full (record {
              all_of =
                  ap (λ t. grown ++ t) rest.all_of
                  ∙ append_assoc operations (operation u d ∷ []) (map (operation u) documents);
              batches = ((omega (arith, size), omega (arith, size, small)), rest.batches);
              count = omega (arith, rest.count, size);
            })
        | inr short ↦
            let rest = write_batches-IsWritten grown updated documents (ground (arith, short)) in
            rw short (record {
              all_of =
                  rest.all_of
                  ∙ append_assoc operations (operation u d ∷ []) (map (operation u) documents);
              batches = rest.batches;
              count = omega (arith, rest.count, size);
            })
      ]

  -- Every event that lacks terms, or every event when all are rebuilt, gets the terms that are built
  -- from it, in bulk writes of 1 to 500 events; and the number that is returned is theirs.
  pub backfill-batches :
      (rebuild : Bool) (documents : List Stored)
      → (flattened (backfill u rebuild documents).0
          ≡ map (operation u) (select (λ d. rebuild || not d.has_search) documents))
        × All IsBatch (backfill u rebuild documents).0
        × ((backfill u rebuild documents).1
            ≡ length (select (λ d. rebuild || not d.has_search) documents))
  unfolding backfill
  backfill-batches rebuild documents =
      let chosen = select (λ d. rebuild || not d.has_search) documents in
      let written = write_batches-IsWritten [] 0 chosen (omega arith) in
      (written.all_of, written.batches, omega (arith, written.count))
