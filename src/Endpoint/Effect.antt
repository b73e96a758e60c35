-- ===== src/Endpoint/Effect.antt =====
-- What a request may do to the stored endpoints and events, as one of five steps. The handlers of
-- app/api/endpoints.py, app/web/routes.py and app/ingest/receiver.py are shown to take no others.
pub mod Kept
pub mod InStep
use webhook_inbox.Prelude.{
  ℕ, ◌≡◌, Bool, false, List, [], ◌∷◌, ◌++◌, map, any, ◌==◌, All, if◌then◌else◌, ◌⊎◌,
}
use webhook_inbox.Mongo.Indexed.{remove_first}
use webhook_inbox.Mongo.Indexed.Places.{IsAmong, IsReplaced}
use webhook_inbox.Event.{Event}
use webhook_inbox.Endpoint.{Endpoint, same_path}
use webhook_inbox.Endpoint.Validation.Configured.{IsConfigured}
use webhook_inbox.Retention.{RetentionConfig, retention_days, expires_at, reapplied}

-- No stored document has the id, as with every id that the driver draws.
pub record IsFresh (id : ℕ) (endpoints : List Endpoint) (events : List Event) : Type 0 where
  pub of_endpoints : All (λ e. (e.id == id) ≡ false) endpoints
  pub of_events : All (λ v. (v.endpoint_id == id) ≡ false) events

-- The events after `reapply`.
abbrev pub reapplied_to : RetentionConfig → Endpoint → List Event → List Event
reapplied_to config e =
    map (λ v. if v.endpoint_id == e.id then reapplied (retention_days e config) v else v)

-- An event that an endpoint lets in, with the expiry that the endpoint gives it.
pub record IsArrival (config : RetentionConfig) (endpoints : List Endpoint) (v : Event)
    : Type 0 where
  pub test : Endpoint → Bool
  pub endpoint : Endpoint
  pub known : IsAmong test endpoints endpoint
  pub of_endpoint : v.endpoint_id ≡ endpoint.id
  pub expires : v.expires_at ≡ expires_at endpoint config v.received_at

pub data Effect (config : RetentionConfig) (endpoints : List Endpoint) (events : List Event)
    (endpoints' : List Endpoint) (events' : List Event) : Type 0 where
  unchanged :
      endpoints' ≡ endpoints → events' ≡ events → Effect config endpoints events endpoints' events'
  added :
      (e : Endpoint)
      → IsConfigured e
      → IsFresh e.id endpoints events
      → any (same_path e) endpoints ≡ false
      → endpoints' ≡ endpoints ++ e ∷ []
      → events' ≡ events
      → Effect config endpoints events endpoints' events'
  removed :
      (test : Endpoint → Bool)
      → endpoints' ≡ remove_first test endpoints
      → events' ≡ events
      → Effect config endpoints events endpoints' events'
  replaced :
      (old new : Endpoint)
      → IsReplaced same_path endpoints endpoints' old new
      → new.id ≡ old.id
      → (IsConfigured old → IsConfigured new)
      → ((new.retention_days ≡ old.retention_days) × (events' ≡ events))
        ⊎ (events' ≡ reapplied_to config new events)
      → Effect config endpoints events endpoints' events'
  arrived :
      (v : Event)
      → IsArrival config endpoints v
      → endpoints' ≡ endpoints
      → events' ≡ events ++ v ∷ []
      → Effect config endpoints events endpoints' events'
