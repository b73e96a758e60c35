-- ===== src/Search/Backfill.antt =====
-- app/search/backfill.py: terms for the events that were stored without them, written in batches.
pub mod Batches
mod Tests
use webhook_inbox.Prelude.{
  ℕ, ◌+◌, ◌≡◌, Bool, true, false, not, ◌||◌, List, [], ◌∷◌, ◌++◌, if◌then◌else◌, is_empty, length,
  leb,
}
use webhook_inbox.Prelude.Sort.{select}
use webhook_inbox.Prelude.Text.{Unicode}
use webhook_inbox.Event.{Event, Terms}
use webhook_inbox.Search.Tokenize.{build_from_event}

abbrev pub batch_size : ℕ
batch_size = 500

-- A stored event, and whether it has the field `search`, whose value is read only if it has.
pub record Stored : Type 0 where
  pub event : Event
  pub has_search : Bool

-- UpdateOne({"_id": id}, {"$set": {"search": terms}})
pub record UpdateOne : Type 0 where
  pub id : ℕ
  pub terms : Terms

module _ (u : Unicode) where
  unfoldable pub operation : Stored → UpdateOne
  unfolding build_from_event
  operation d = record { id = d.event.id; terms = build_from_event u d.event }

  -- The loop, with its variables `operations` and `updated`: the bulk writes, in order, and `updated`
  -- at the end.
  unfoldable pub write_batches : List UpdateOne → ℕ → List Stored → List (List UpdateOne) × ℕ
  unfolding operation
  write_batches operations updated [] =
      if is_empty operations then ([], updated) else (operations ∷ [], updated + length operations)
  write_batches operations updated (d ∷ documents) =
      let grown = operations ++ operation d ∷ [] in
      let (later, count) = write_batches [] (updated + length grown) documents in
      let go_on = write_batches grown updated documents in
      if leb batch_size (length grown) then (grown ∷ later, count) else go_on

  -- The bulk writes of `backfill` over the collection, and what it returns.
  unfoldable pub backfill : Bool → List Stored → List (List UpdateOne) × ℕ
  unfolding write_batches
  backfill rebuild documents =
      write_batches [] 0 (select (λ d. rebuild || not d.has_search) documents)
