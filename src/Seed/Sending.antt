-- ===== src/Seed/Sending.antt =====
-- app/seed.py: send and seed, over the handler that takes webhooks in.
use webhook_inbox.Prelude.{ℕ, ◌+◌, List, [], ◌∷◌, Option, none, some}
use webhook_inbox.Prelude.Text.{Unicode}
use webhook_inbox.Mongo.{Collection}
use webhook_inbox.Mongo.Indexed.{Indexed}
use webhook_inbox.Event.{Codec, Event, event_id_of}
use webhook_inbox.Endpoint.{Endpoint, same_path}
use webhook_inbox.Ingest.Body.{Parsers}
use webhook_inbox.Ingest.Signature.{Hmac}
use webhook_inbox.Ingest.Incoming.{Settings, Incoming, Answer, reject, accepted, failed}
use webhook_inbox.Ingest.Receiver.{Inbox, receive}
use webhook_inbox.Seed.{Entry, Posted, posted, timeline, ensure_endpoints, backdate}

-- The times of one round: when the request arrives, by both clocks, with the id that is drawn, and
-- when `backdate` looks at the time.
pub record RoundTime : Type 0 where
  pub clock : ℕ
  pub id : ℕ
  pub received_at : ℕ
  pub now : ℕ

module _ (u : Unicode) (codec : Codec) (parsers : Parsers) (hmac : Hmac) (settings : Settings)
    (endpoints : Indexed Endpoint same_path) (events : Collection Event event_id_of)
    (compact : Entry → List ℕ) (deliver : Posted → Incoming) where
  abbrev pub Service : Type 0
  Service = Inbox u codec parsers hmac settings endpoints events

  -- What follows the answer: an accepted event is backdated and counted.
  backdate_accepted : RoundTime → ℕ → Answer × Service → ℕ × Service
  unfolding backdate
  backdate_accepted t minutes (accepted id, inbox) =
      (1, record inbox { events_now = backdate events t.now id minutes inbox.events_now })
  backdate_accepted t minutes (reject status reason retry, inbox) = (0, inbox)
  backdate_accepted t minutes (failed, inbox) = (0, inbox)

  send_posted : RoundTime → ℕ → Option Posted → Service → Option (ℕ × Service)
  unfolding backdate_accepted receive
  send_posted t minutes none inbox = none
  send_posted t minutes (some p) inbox = some (
      backdate_accepted t minutes (
        receive u codec parsers hmac settings endpoints events t.clock t.id t.received_at
          (deliver p) inbox))

  -- The loop over the timeline, with the events counted; `none` is an exception.
  seed_from : (ℕ → RoundTime) → ℕ → List Entry → ℕ → Service → Option (ℕ × Service)
  unfolding send_posted posted
  seed_from moments i [] seeded inbox = some (seeded, inbox)
  seed_from moments i (e ∷ entries) seeded inbox =
      elim (send_posted (moments i) e.minutes (posted u codec hmac compact e) inbox) [
        | none ↦ none
        | some (more, after) ↦ seed_from moments (i + 1) entries (seeded + more) after
      ]

  -- `seed`, once the endpoints are there.
  unfoldable pub seed_events : (ℕ → RoundTime) → Service → Option (ℕ × Service)
  unfolding seed_from
  seed_events moments inbox = seed_from moments 0 timeline 0 inbox

  seed_ensured : (ℕ → RoundTime) → Service → Option endpoints.State → Option (ℕ × Service)
  unfolding seed_events
  seed_ensured moments inbox none = none
  seed_ensured moments inbox (some s) = seed_events moments (record inbox { endpoints_now = s })

  unfoldable pub seed : (ℕ → RoundTime) → ℕ → Service → Option (ℕ × Service)
  unfolding seed_ensured ensure_endpoints
  seed moments id inbox =
      seed_ensured moments inbox (ensure_endpoints endpoints id inbox.endpoints_now)
