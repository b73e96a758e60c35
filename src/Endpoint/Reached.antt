-- ===== src/Endpoint/Reached.antt =====
-- Sequences of requests to the API of app/api/endpoints.py, to the forms of app/web/routes.py, and of
-- webhooks that app/ingest/receiver.py takes in, and what holds of both collections at every moment.
mod Tests
use webhook_inbox.Prelude.{ℕ, ◌<◌, ◌≡◌, [], some, All}
use webhook_inbox.Prelude.Sort.{Pairwise}
use webhook_inbox.Prelude.Text.{Str, Unicode}
use webhook_inbox.Mongo.{Collection}
use webhook_inbox.Mongo.Indexed.{Indexed}
use webhook_inbox.Search.Query.{Formats}
use webhook_inbox.Event.{Codec, Event, event_id_of}
use webhook_inbox.Endpoint.{Endpoint, same_path}
use webhook_inbox.Endpoint.Validation.{EndpointCreate}
use webhook_inbox.Endpoint.Validation.Configured.{IsConfigured}
use webhook_inbox.Endpoint.Update.{EndpointUpdate}
use webhook_inbox.Endpoint.Effect.{IsFresh, Effect}
use webhook_inbox.Endpoint.Effect.Kept.{AreApart, Effect-AreConfigured, Effect-AreApart}
use webhook_inbox.Endpoint.Effect.InStep.{InStep, Effect-InStep}
use webhook_inbox.Endpoint.Store.{create_endpoint, delete_endpoint, change_endpoint}
use webhook_inbox.Endpoint.Store.Steps.{
  create_endpoint-Effect, delete_endpoint-Effect, change_endpoint-Effect,
}
use webhook_inbox.Endpoint.Form.{
  Numerals, EndpointForm, endpoint_create, endpoint_delete, endpoint_save,
}
use webhook_inbox.Endpoint.Form.Steps.{
  endpoint_create-Effect, endpoint_delete-Effect, endpoint_save-Effect,
}
use webhook_inbox.Ingest.Body.{Parsers}
use webhook_inbox.Ingest.Signature.{Hmac}
use webhook_inbox.Ingest.Incoming.{Settings, Incoming}
use webhook_inbox.Ingest.Receiver.{Inbox, receive}
use webhook_inbox.Ingest.Receiver.Arrival.{receive-Effect}

module _ (u : Unicode) (codec : Codec) (parsers : Parsers) (hmac : Hmac) (settings : Settings)
    (f : Formats) (n : Numerals) (endpoints : Indexed Endpoint same_path)
    (events : Collection Event event_id_of) where
  -- The collections that requests lead to from empty ones, as long as no null is written where every
  -- reader needs a value. The ids of new endpoints are drawn by the driver.
  pub data Reached : endpoints.State → events.State → Type 0 where
    begins :
        (s : endpoints.State) (es : events.State)
        → endpoints.documents s ≡ []
        → events.documents es ≡ []
        → Reached s es
    creates :
        {s : endpoints.State} {es : events.State} (id : ℕ) (payload : EndpointCreate)
        → IsFresh id (endpoints.documents s) (events.documents es)
        → Reached s es
        → Reached (create_endpoint u f endpoints id payload s).1 es
    deletes :
        {s : endpoints.State} {es : events.State} (endpoint_id : Str)
        → Reached s es
        → Reached (delete_endpoint u f endpoints endpoint_id s).1 es
    changes :
        {s after : endpoints.State} {es es' : events.State} (endpoint_id : Str)
        (payload : EndpointUpdate)
        → Reached s es
        → (change_endpoint u f endpoints events settings.retention endpoint_id payload s es).1
          ≡ some (after, es')
        → Reached after es'
    submits :
        {s : endpoints.State} {es : events.State} (id : ℕ) (form : EndpointForm)
        → IsFresh id (endpoints.documents s) (events.documents es)
        → Reached s es
        → Reached (endpoint_create u f n endpoints id form s).1 es
    removes :
        {s : endpoints.State} {es : events.State} (endpoint_id : Str)
        → Reached s es
        → Reached (endpoint_delete u f n endpoints endpoint_id s).1 es
    saves :
        {s after : endpoints.State} {es es' : events.State} (endpoint_id : Str)
        (form : EndpointForm)
        → Reached s es
        → (endpoint_save u f n endpoints events settings.retention endpoint_id form s es).1
          ≡ some (after, es')
        → Reached after es'
    receives :
        (clock id received_at : ℕ) (request : Incoming)
        (inbox : Inbox u codec parsers hmac settings endpoints events)
        → Reached inbox.endpoints_now inbox.events_now
        → Reached
            (receive u codec parsers hmac settings endpoints events clock id received_at request
              inbox).1.endpoints_now
            (receive u codec parsers hmac settings endpoints events clock id received_at request
              inbox).1.events_now

  abbrev StepsTo : endpoints.State → events.State → endpoints.State → events.State → Type 0
  StepsTo s es after es' =
      Effect settings.retention (endpoints.documents s) (events.documents es)
        (endpoints.documents after) (events.documents es')

  -- What every step keeps holds at every moment, if it holds of nothing.
  Reached-kept :
      (P : endpoints.State → events.State → Type 0)
      → ((s : endpoints.State) (es : events.State)
          → endpoints.documents s ≡ []
          → events.documents es ≡ []
          → P s es)
      → ((s after : endpoints.State) (es es' : events.State)
          → StepsTo s es after es'
          → P s es
          → P after es')
      → (s : endpoints.State) (es : events.State) → Reached s es
      → P s es
  Reached-kept P first step _ _ (begins s es none_yet no_events) = first s es none_yet no_events
  Reached-kept P first step _ es (creates {s} id payload fresh r) =
      step s _ es es
        (create_endpoint-Effect u f endpoints events settings.retention id payload s es fresh)
        (Reached-kept P first step s es r)
  Reached-kept P first step _ es (deletes {s} endpoint_id r) =
      step s _ es es
        (delete_endpoint-Effect u f endpoints events settings.retention endpoint_id s es)
        (Reached-kept P first step s es r)
  Reached-kept P first step after es' (changes {s} {es = es} endpoint_id payload r made) =
      step s after es es'
        (change_endpoint-Effect u f endpoints events settings.retention endpoint_id payload s after
          es es' made)
        (Reached-kept P first step s es r)
  Reached-kept P first step _ es (submits {s} id form fresh r) =
      step s _ es es
        (endpoint_create-Effect u f n endpoints events settings.retention id form s es fresh)
        (Reached-kept P first step s es r)
  Reached-kept P first step _ es (removes {s} endpoint_id r) =
      step s _ es es
        (endpoint_delete-Effect u f n endpoints events settings.retention endpoint_id s es)
        (Reached-kept P first step s es r)
  Reached-kept P first step after es' (saves {s} {es = es} endpoint_id form r made) =
      step s after es es'
        (endpoint_save-Effect u f n endpoints events settings.retention endpoint_id form s after es
          es' made)
        (Reached-kept P first step s es r)
  Reached-kept P first step _ _ (receives clock id received_at request inbox r) =
      step inbox.endpoints_now _ inbox.events_now _
        (receive-Effect u codec parsers hmac settings endpoints events clock id received_at request
          inbox)
        (Reached-kept P first step inbox.endpoints_now inbox.events_now r)

  -- After any creations, changes and deletions of endpoints over the API or the forms, and any
  -- webhooks, every stored endpoint is well formed, as long as no change writes a null where
  -- every reader needs a value: its path has one or more characters, all of them letters, digits or one of `.`, `_`, `~`, `/`, `-`, save for a newline that may end it, and no two dots in a row; it takes some methods and known ones
  -- only, its authentication is known and has a secret if it needs one, and it has a size limit above
  -- zero or none.
  pub Reached-AreConfigured :
      (s : endpoints.State) (es : events.State)
      → Reached s es
      → All IsConfigured (endpoints.documents s)
  Reached-AreConfigured =
      Reached-kept (λ s es. All IsConfigured (endpoints.documents s))
        (λ s es none_yet _. rw none_yet tt)
        (λ s after es es'. Effect-AreConfigured settings.retention)

  -- If the default retention is at least a day, then after any creations, changes and deletions of
  -- endpoints over the API or the forms, and any webhooks, every stored event of a stored endpoint
  -- expires exactly when that endpoint, as it is now, says of an event that arrived then.
  pub Reached-InStep :
      (s : endpoints.State) (es : events.State)
      → 0 < settings.retention.default_days
      → Reached s es
      → InStep settings.retention (endpoints.documents s) (events.documents es)
  Reached-InStep s es some_days r =
      let (_, in_step) =
        Reached-kept
          (λ s es.
            Pairwise AreApart (endpoints.documents s)
            × InStep settings.retention (endpoints.documents s) (events.documents es))
          (λ s es none_yet _. rw none_yet (tt, tt))
          (λ s after es es' effect (apart, h). (
            Effect-AreApart settings.retention effect apart,
            Effect-InStep settings.retention some_days effect apart h,
          ))
          s es r in
      in_step
