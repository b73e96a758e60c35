-- ===== src/Search/Paging.antt =====
-- The pages of app/web/routes.py's events_page, each asked for with the cursor that the page before
-- it gave.
pub mod Following
pub mod Complete
mod Tests
use webhook_inbox.Prelude.{
  ℕ, zero, suc, ◌≡◌, List, [], ◌∷◌, ◌++◌, Option, none, some, if◌then◌else◌, length, ◌==◌,
}
use webhook_inbox.Prelude.Text.{Str, Unicode}
use webhook_inbox.Event.{Event}
use webhook_inbox.Search.Query.{Formats, Filters, Cursor, encode, decode}
use webhook_inbox.Search.Ranking.{Hit, Found, ranked, listed, after_hit, after_event, find_events}

abbrev pub page_size : ℕ
page_size = 50

-- rows[-1], where there is one
abbrev pub last {ℓ} : {A : Type ℓ} → List A → Option A
last [] = none
last (x ∷ []) = some x
last (x ∷ y ∷ xs) = last (y ∷ xs)

abbrev pub encoded {ℓ} : {A : Type ℓ} → Formats → (A → Cursor) → Option A → Option Str
encoded f after none = none
encoded f after (some x) = some (encode f (after x))

-- The cursor of the link to the next page, which a full page of `size` rows has.
unfoldable pub next_of {ℓ} : {A : Type ℓ} → Formats → (A → Cursor) → ℕ → List A → Option Str
next_of f after size rows = if length rows == size then encoded f after (last rows) else none

unfoldable pub next_cursor : Formats → Found → Option Str
unfolding next_of
next_cursor f (ranked hits) = next_of f after_hit page_size hits
next_cursor f (listed events) = next_of f after_event page_size events

module _ (u : Unicode) (f : Formats) (events : List Event) where
  -- The rows of events_page, for the query text, the filters and the cursor of the request.
  unfoldable pub events_page : Str → Filters → Option Str → Found
  unfolding find_events decode
  events_page query filters cursor =
      find_events u f events query filters page_size (decode f cursor)
