-- ===== src/Mongo/Indexed.antt =====
-- A MongoDB collection with a unique index: the calls of the driver with their documented effect on
-- the documents in natural order. `same` tells that two documents have one key in that index.
pub mod Lengths
pub mod Kept
pub mod Places
use webhook_inbox.Prelude.{
  ℕ, ◌≡◌, refl, Bool, true, false, not, List, [], ◌∷◌, ◌++◌, Option, none, some, if◌then◌else◌, any,
  length,
}
use webhook_inbox.Prelude.Sort.{select}
use webhook_inbox.Mongo.Lists.{Place, find_first}

module _ {D : Type 0} where
  behind : D → Option (Place D) → Option (Place D)
  behind d none = none
  behind d (some (front, e, back)) = some (d ∷ front, e, back)

  -- The first document that matches.
  unfoldable pub first_place : (D → Bool) → List D → Option (Place D)
  unfolding behind
  first_place test [] = none
  first_place test (d ∷ ds) = if test d then some ([], d, ds) else behind d (first_place test ds)

  unfoldable pub remove_first : (D → Bool) → List D → List D
  remove_first test [] = []
  remove_first test (d ∷ ds) = if test d then ds else d ∷ remove_first test ds

  -- `none` is a DuplicateKeyError.
  unfoldable pub insert_unique : (D → D → Bool) → D → List D → Option (List D)
  insert_unique same d ds = if any (same d) ds then none else some (ds ++ d ∷ [])

  unfoldable pub replace_unique :
      (D → D → Bool) → (D → D) → List D → Option (Place D) → Option (List D)
  replace_unique same change ds none = some ds
  replace_unique same change ds (some (front, d, back)) =
      if any (same (change d)) (front ++ back) then none else some (front ++ change d ∷ back)

  unfoldable pub update_unique : (D → D → Bool) → (D → Bool) → (D → D) → List D → Option (List D)
  unfolding replace_unique first_place
  update_unique same test change ds = replace_unique same change ds (first_place test ds)

  -- Where nothing matches, the fresh document is inserted.
  unfoldable pub upsert_unique :
      (D → D → Bool) → (D → Bool) → (D → D) → D → List D → Option (List D)
  unfolding replace_unique insert_unique first_place
  upsert_unique same test change fresh ds = elim (first_place test ds) [
    | none ↦ insert_unique same fresh ds
    | some place ↦ replace_unique same change ds (some place)
  ]

-- The documents of an optional state.
abbrev pub documents_in {ℓ κ} : {S : Type ℓ} {L : Type κ} → (S → L) → Option S → Option L
documents_in documents none = none
documents_in documents (some s) = some (documents s)

pub record Indexed (D : Type 0) (same : D → D → Bool) : Type 1 where
  pub State : Type 0
  pub documents : State → List D
  -- collection.find_one(query)
  pub find_one : (D → Bool) → State → Option D
  -- collection.insert_one(document): `none` is a DuplicateKeyError
  pub insert_one : D → State → Option State
  -- collection.update_one(query, update): `none` is a DuplicateKeyError
  pub update_one : (D → Bool) → (D → D) → State → Option State
  -- collection.update_one(query, update, upsert=True): `none` is a DuplicateKeyError
  pub upsert_one : (D → Bool) → (D → D) → D → State → Option State
  -- collection.delete_one(query) and delete_many(query)
  pub delete_one : (D → Bool) → State → State
  pub delete_many : (D → Bool) → State → State
  -- collection.count_documents({})
  pub count_documents : State → ℕ
  pub documents-find_one :
      (test : D → Bool) (s : State) → find_one test s ≡ find_first test (documents s)
  pub documents-insert_one :
      (d : D) (s : State)
      → documents_in documents (insert_one d s) ≡ insert_unique same d (documents s)
  pub documents-update_one :
      (test : D → Bool) (change : D → D) (s : State)
      → documents_in documents (update_one test change s)
        ≡ update_unique same test change (documents s)
  pub documents-upsert_one :
      (test : D → Bool) (change : D → D) (fresh : D) (s : State)
      → documents_in documents (upsert_one test change fresh s)
        ≡ upsert_unique same test change fresh (documents s)
  pub documents-delete_one :
      (test : D → Bool) (s : State)
      → documents (delete_one test s) ≡ remove_first test (documents s)
  pub documents-delete_many :
      (test : D → Bool) (s : State)
      → documents (delete_many test s) ≡ select (λ d. not (test d)) (documents s)
  pub documents-count_documents : (s : State) → count_documents s ≡ length (documents s)

pub documents_in_same : {D : Type 0} (o : Option (List D)) → documents_in (λ s. s) o ≡ o
documents_in_same none = refl
documents_in_same (some s) = refl

-- Such a collection in memory.
abbrev pub indexed_in_memory : (D : Type 0) (same : D → D → Bool) → Indexed D same
indexed_in_memory D same = record {
  State = List D;
  documents = λ s. s;
  find_one = find_first;
  insert_one = insert_unique same;
  update_one = update_unique same;
  upsert_one = upsert_unique same;
  delete_one = remove_first;
  delete_many = λ test s. select (λ d. not (test d)) s;
  count_documents = length;
  documents-find_one = λ test s. refl;
  documents-insert_one = λ d s. documents_in_same (insert_unique same d s);
  documents-update_one = λ test change s. documents_in_same (update_unique same test change s);
  documents-upsert_one =
      λ test change fresh s. documents_in_same (upsert_unique same test change fresh s);
  documents-delete_one = λ test s. refl;
  documents-delete_many = λ test s. refl;
  documents-count_documents = λ s. refl;
}
