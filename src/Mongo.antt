-- ===== src/Mongo.antt =====
-- A MongoDB collection as the program uses it: the documents in natural order, and the calls of the
-- driver with their documented effect. A query is a test on a document, an update a function.
pub mod Lists
pub mod Indexed
use webhook_inbox.Prelude.{
  ℕ, ◌≤◌, ◌≡◌, Bool, true, false, List, [], ◌∷◌, ◌++◌, map, Option, none, some, ◌==◌, if◌then◌else◌,
  All,
}

-- `after` is `before` with one matching document `old` updated, one whose sort key is least.
pub record Updated {D : Type 0} (test : D → Bool) (key : D → ℕ) (change : D → D)
    (before after : List D) (new : D) : Type 0 where
  pub old : D
  pub front : List D
  pub back : List D
  pub stood : before ≡ front ++ old ∷ back
  pub matched : test old ≡ true
  pub changed : new ≡ change old
  pub stands : after ≡ front ++ new ∷ back
  pub least : All (λ d. test d ≡ true → key old ≤ key d) before

pub record Collection (D : Type 0) (id_of : D → ℕ) : Type 1 where
  pub State : Type 0
  pub documents : State → List D
  -- Whether `insert_one` can write the document: BSON has no key with a NUL, no integer of more than 64
  -- bits and no lone surrogate, and a document has at most 16 MB. For another, `insert_one` raises.
  pub takes : D → Bool
  -- collection.insert_one(document), where no unique index stands in the way
  pub insert_one : D → State → State
  -- collection.find_one(query)
  pub find_one : (D → Bool) → State → Option D
  -- collection.update_many(query, update)
  pub update_many : (D → Bool) → (D → D) → State → State
  -- collection.update_one({"_id": id}, update)
  pub update_one : ℕ → (D → D) → State → State
  -- collection.find_one_and_update(query, update, sort=[(key, 1)], return_document=AFTER)
  pub find_one_and_update : (D → Bool) → (D → ℕ) → (D → D) → State → Option D × State
  pub documents-insert_one :
      (d : D) (s : State) → documents (insert_one d s) ≡ documents s ++ d ∷ []
  -- A document that is found is one of them, and matches.
  pub found_some :
      (test : D → Bool) (s : State) (d : D)
      → find_one test s ≡ some d
      → (front : List D) × (back : List D) × (documents s ≡ front ++ d ∷ back) × (test d ≡ true)
  pub documents-update_many :
      (test : D → Bool) (change : D → D) (s : State)
      → documents (update_many test change s)
        ≡ map (λ d. if test d then change d else d) (documents s)
  -- The index on `_id` is unique, so that at most one document is meant.
  pub documents-update_one :
      (id : ℕ) (change : D → D) (s : State)
      → documents (update_one id change s)
        ≡ map (λ d. if id_of d == id then change d else d) (documents s)
  pub updated_some :
      (test : D → Bool) (key : D → ℕ) (change : D → D) (s after : State) (new : D)
      → find_one_and_update test key change s ≡ (some new, after)
      → Updated test key change (documents s) (documents after) new
  pub updated_none :
      (test : D → Bool) (key : D → ℕ) (change : D → D) (s after : State)
      → find_one_and_update test key change s ≡ (none, after)
      → (documents after ≡ documents s) × All (λ d. test d ≡ false) (documents s)
