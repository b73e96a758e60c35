-- ===== src/Search/Paging/Complete.antt =====
-- Who follows the links from page to page sees every match once, in order.
use webhook_inbox.Prelude.{ℕ, ◌≡◌, List, [], none, some}
use webhook_inbox.Prelude.Text.{Str, Unicode}
use webhook_inbox.Event.{Event}
use webhook_inbox.Search.Query.{Formats, Filters, encode, decode}
use webhook_inbox.Search.Ranking.{Hit, Found, ranked, listed, after_hit, after_event}
use webhook_inbox.Search.Query.Cursors.{decode-encode_ranked, decode-encode_listed}
use webhook_inbox.Search.Paging.{page_size, next_of, events_page}
use webhook_inbox.Search.Paging.Following.{follow}

-- The rows of a page, of a search and of a list.
abbrev hits_of : Found → List Hit
hits_of (ranked hits) = hits
hits_of (listed events) = []

abbrev events_of : Found → List Event
events_of (ranked hits) = []
events_of (listed events) = events

decode-encode_hit :
    (f : Formats) (x : Hit) → decode f (some (encode f (after_hit x))) ≡ some (after_hit x)
unfolding after_hit
decode-encode_hit f x = decode-encode_ranked f x.score x.event.received_at x.event.id

decode-encode_event :
    (f : Formats) (e : Event) → decode f (some (encode f (after_event e))) ≡ some (after_event e)
unfolding after_event
decode-encode_event f e = decode-encode_listed f e.received_at

-- A cursor that Cursor.after makes, of a hit or of an event, is read back from its text.
pub decode-encode_after :
    (f : Formats) (x : Hit) (e : Event)
    → (decode f (some (encode f (after_hit x))) ≡ some (after_hit x))
      × (decode f (some (encode f (after_event e))) ≡ some (after_event e))
decode-encode_after f x e = (decode-encode_hit f x, decode-encode_event f e)

module _ (u : Unicode) (f : Formats) (events : List Event) (query : Str) (filters : Filters) where
  -- The rows that a reader sees who follows the links from the first page on.
  unfoldable pub read_hits : ℕ → List Hit
  unfolding follow events_page next_of
  read_hits fuel =
      follow (λ cursor. hits_of (events_page u f events query filters cursor))
        (next_of f after_hit page_size) fuel none

  unfoldable pub read_events : ℕ → List Event
  unfolding follow events_page next_of
  read_events fuel =
      follow (λ cursor. events_of (events_page u f events query filters cursor))
        (next_of f after_event page_size) fuel none
