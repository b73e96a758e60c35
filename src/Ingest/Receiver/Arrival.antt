-- ===== src/Ingest/Receiver/Arrival.antt =====
-- What a webhook does to the stored endpoints and events, as a step of Endpoint/Effect.
use webhook_inbox.Prelude.{ℕ, ◌≡◌, refl, sym, ap, ◌∙◌, Bool, true, false, Bool-cases, inl, inr}
use webhook_inbox.Prelude.Text.{Unicode, str_eq}
use webhook_inbox.Mongo.{Collection}
use webhook_inbox.Mongo.Indexed.{Indexed}
use webhook_inbox.Mongo.Indexed.Places.{find_first-IsAmong}
use webhook_inbox.Event.{Codec, Event, event_id_of}
use webhook_inbox.Endpoint.{Endpoint, same_path, normalize_path}
use webhook_inbox.Endpoint.Effect.{Effect, unchanged, arrived}
use webhook_inbox.Ingest.Body.{Parsers}
use webhook_inbox.Ingest.Signature.{Hmac}
use webhook_inbox.Ingest.Incoming.{Settings, Incoming, Answer, Gate, pass, halt}
use webhook_inbox.Ingest.Receiver.{Inbox, receive, answered, limited, after_shape}
use webhook_inbox.Ingest.Receiver.Stored.{Handled, turned_away, stored, receive-Handled}

module _ (u : Unicode) (codec : Codec) (parsers : Parsers) (hmac : Hmac) (settings : Settings)
    (endpoints : Indexed Endpoint same_path) (events : Collection Event event_id_of) where
  answered-endpoints_now :
      (g : Gate Event) (inbox : Inbox u codec parsers hmac settings endpoints events)
      → (answered u codec parsers hmac settings endpoints events g inbox).1.endpoints_now
        ≡ inbox.endpoints_now
  unfolding answered
  answered-endpoints_now (halt answer) inbox = refl
  answered-endpoints_now (pass event) inbox = elim (Bool-cases (events.takes event)) [
    | inl written ↦ rw written refl
    | inr broken ↦ rw broken refl
  ]

  limited-endpoints_now :
      (id received_at : ℕ) (request : Incoming) (allowed : Bool)
      (inbox : Inbox u codec parsers hmac settings endpoints events)
      → (limited u codec parsers hmac settings endpoints events id received_at request allowed
          inbox).1.endpoints_now
        ≡ inbox.endpoints_now
  unfolding limited
  limited-endpoints_now id received_at request false inbox = refl
  limited-endpoints_now id received_at request true inbox = answered-endpoints_now _ inbox

  after_shape-endpoints_now :
      (clock id received_at : ℕ) (request : Incoming) (g : Gate (Unit {0}))
      (inbox : Inbox u codec parsers hmac settings endpoints events)
      → (after_shape u codec parsers hmac settings endpoints events clock id received_at request g
          inbox).1.endpoints_now
        ≡ inbox.endpoints_now
  unfolding after_shape
  after_shape-endpoints_now clock id received_at request (halt answer) inbox = refl
  after_shape-endpoints_now clock id received_at request (pass _) inbox =
      limited-endpoints_now id received_at request _ _

  pub receive-endpoints_now :
      (clock id received_at : ℕ) (request : Incoming)
      (inbox : Inbox u codec parsers hmac settings endpoints events)
      → (receive u codec parsers hmac settings endpoints events clock id received_at request
          inbox).1.endpoints_now
        ≡ inbox.endpoints_now
  unfolding receive
  receive-endpoints_now clock id received_at request inbox =
      after_shape-endpoints_now clock id received_at request _ inbox

  abbrev StepsTo : endpoints.State → events.State → endpoints.State → events.State → Type 0
  StepsTo s es after es' =
      Effect settings.retention (endpoints.documents s) (events.documents es)
        (endpoints.documents after) (events.documents es')

  Handled-Effect :
      (clock : ℕ) (request : Incoming)
      (inbox : Inbox u codec parsers hmac settings endpoints events) (after : endpoints.State)
      (es' : events.State) (answer : Answer)
      → after ≡ inbox.endpoints_now
      → Handled u codec parsers hmac settings endpoints events clock request inbox answer
          (events.documents es')
      → StepsTo inbox.endpoints_now inbox.events_now after es'
  Handled-Effect clock request inbox after es' answer same (turned_away _ still) =
      unchanged (ap endpoints.documents same) still
  Handled-Effect clock request inbox after es' answer same (stored v _ made _ _ admitted) =
      let test = λ (e : Endpoint). str_eq e.path (normalize_path request.path) in
      arrived v
        (record {
          test = test;
          endpoint = admitted.endpoint;
          known =
              find_first-IsAmong test (endpoints.documents inbox.endpoints_now) admitted.endpoint
                (sym (endpoints.documents-find_one test inbox.endpoints_now) ∙ admitted.known);
          of_endpoint = admitted.of_endpoint;
          expires = admitted.expires;
        })
        (ap endpoints.documents same) made

  pub receive-Effect :
      (clock id received_at : ℕ) (request : Incoming)
      (inbox : Inbox u codec parsers hmac settings endpoints events)
      → StepsTo inbox.endpoints_now inbox.events_now
          (receive u codec parsers hmac settings endpoints events clock id received_at request
            inbox).1.endpoints_now
          (receive u codec parsers hmac settings endpoints events clock id received_at request
            inbox).1.events_now
  receive-Effect clock id received_at request inbox =
      Handled-Effect clock request inbox _ _ _
        (receive-endpoints_now clock id received_at request inbox)
        (receive-Handled u codec parsers hmac settings endpoints events clock id received_at request
          inbox)
