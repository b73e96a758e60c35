-- ===== src/Endpoint/Reached/Tests.antt =====
-- Endpoints are created over the API and by the form, and changed after a webhook came in.
use webhook_inbox.Prelude.{
  ◌+◌, ◌≡◌, refl, Bool, true, false, List, [], ◌∷◌, Option, none, some, All, arith, all, leb, ◌&&◌,
  not, is_empty, ◌==◌, if◌then◌else◌,
}
use webhook_inbox.Json.{null}
use webhook_inbox.Prelude.Text.{
  Str, codes, ascii_case, ascii_upper, ascii_lower, starts_with, contains, one_of, str_eq, strip,
  strip_by, drop_while, is_space, remove_prefix, split_on,
}
use webhook_inbox.Prelude.Dict.{lookup, has_key, insert}
use webhook_inbox.Mongo.{Collection}
use webhook_inbox.Mongo.Lists.{in_memory, find_first}
use webhook_inbox.Mongo.Indexed.{
  Indexed, indexed_in_memory, insert_unique, update_unique, first_place,
}
use webhook_inbox.Search.Samples.{formats, ticks}
use webhook_inbox.Event.{Event, event_id_of}
use webhook_inbox.RateLimit.{new, allow, take_token, prune, retry_after}
use webhook_inbox.RateLimit.Client.{client_key}
use webhook_inbox.Retention.{days_long, retention_days, reapply, reapplied}
use webhook_inbox.Endpoint.{
  no_auth, static_secret, auth_type_of, Endpoint, same_path, normalize_path,
}
use webhook_inbox.Endpoint.Validation.{
  is_slug, slug_tail, matches_path, validate_path, validate_methods, apply_default_header,
  EndpointCreate, meets_constraints, with_fields, validate_create, to_document,
}
use webhook_inbox.Endpoint.Validation.Configured.{IsConfigured}
use webhook_inbox.Endpoint.Update.{
  EndpointUpdate, unset, given, validate_update, merged_type, prepare_changes, update_endpoint,
  apply_changes,
}
use webhook_inbox.Endpoint.Store.{create_endpoint, change_endpoint, find_or_404, reapply_if}
use webhook_inbox.Endpoint.Form.{
  Numerals, EndpointForm, number_of, parse_endpoint_form, update_of, endpoint_create, endpoint_save,
}
use webhook_inbox.Endpoint.Form.Same.{says, endpoint_save-change_endpoint}
use webhook_inbox.Endpoint.Form.Secret.{endpoint_save-KeepsSecret}
use webhook_inbox.Endpoint.View.{EndpointOut}
use webhook_inbox.Endpoint.Listing.{list_endpoints}
use webhook_inbox.Endpoint.Listing.Complete.{IsCatalogue, list_endpoints-IsCatalogue}
use webhook_inbox.Endpoint.Effect.InStep.{InStep}
use webhook_inbox.Ingest.Signature.{compare_digest, compare, verify}
use webhook_inbox.Ingest.Incoming.{
  Settings, dict_from, int_from, read_limited, check_declared, read_stream, check_shape,
  header_bytes,
}
use webhook_inbox.Ingest.Samples.{plain_codec, no_parsers, hmac, settings, hi}
use webhook_inbox.Ingest.Receiver.{
  Inbox, receive, prepare, check_endpoint, check_signature, document_of, bucket_key,
}
use webhook_inbox.Endpoint.Reached.{
  Reached, begins, creates, changes, submits, saves, receives, Reached-AreConfigured,
  Reached-InStep,
}

handling : Unit {0}
unfolding create_endpoint change_endpoint find_or_404 reapply_if insert_unique update_unique
    first_place find_first is_slug slug_tail matches_path validate_path validate_methods
    apply_default_header meets_constraints with_fields validate_create to_document validate_update
    merged_type prepare_changes update_endpoint apply_changes normalize_path starts_with contains
    one_of str_eq strip strip_by drop_while is_space remove_prefix ascii_upper ascii_lower split_on
    auth_type_of number_of parse_endpoint_form update_of endpoint_create endpoint_save int_from
    reapply reapplied retention_days
handling = tt

receiving : Unit {0}
unfolding handling lookup has_key insert new allow take_token prune retry_after client_key
    compare_digest compare verify dict_from read_limited check_declared read_stream check_shape
    header_bytes receive prepare check_endpoint check_signature document_of bucket_key
receiving = tt

abbrev endpoints : Indexed Endpoint same_path
endpoints = indexed_in_memory Endpoint same_path

abbrev events : Collection Event event_id_of
events = in_memory Event event_id_of

abbrev is_decimal : Str → Bool
is_decimal s = not (is_empty s) && all (λ c. leb b'0' c && leb c b'9') s

-- ASCII digits only.
abbrev numerals : Numerals
numerals = record {
  is_digit = is_decimal;
  int = λ s. if is_decimal (strip s) then some (int_from 0 (strip s)) else none;
}

abbrev payload : EndpointCreate
payload = record {
  name = codes "demo";
  path = codes "/webhooks/demo";
  enabled = true;
  authentication = record { kind = no_auth; header = none; signature_prefix = codes "sha256=" };
  secret = none;
  allowed = codes "post" ∷ [];
  max_payload_size = none;
  retention_days = none;
}

abbrev demo : Endpoint
demo = to_document 1 (record payload { path = codes "demo"; allowed = codes "POST" ∷ [] })

abbrev a_week : EndpointUpdate
a_week = record {
  name = unset;
  path = unset;
  enabled = unset;
  authentication = unset;
  secret = unset;
  allowed = unset;
  max_payload_size = unset;
  retention_days = given 7;
}

abbrev keeping : Settings
keeping = record settings { retention = record { enabled = true; default_days = 30 } }

abbrev Reaches : List Endpoint → List Event → Type 0
Reaches = Reached ascii_case plain_codec no_parsers hmac keeping formats numerals endpoints events

created : create_endpoint ascii_case formats endpoints 1 payload [] ≡ (some 201, demo ∷ [])
unfolding handling
created = refl

begun : Reaches (demo ∷ []) []
unfolding handling
begun = creates 1 payload (record { of_endpoints = tt; of_events = tt }) (begins [] [] refl refl)

abbrev inbox : Inbox ascii_case plain_codec no_parsers hmac keeping endpoints events
inbox = record { limiter = new 1 true; endpoints_now = demo ∷ []; events_now = [] }

abbrev arrival : Event
arrival =
    document_of ascii_case plain_codec no_parsers hmac keeping 9 500 hi demo (104 ∷ 105 ∷ []) null

taken_in : Reaches (demo ∷ []) (arrival ∷ [])
unfolding receiving
taken_in = receives 0 9 500 hi inbox begun

abbrev kept_a_week : Event
kept_a_week = record arrival { expires_at = some (500 + days_long 7) }

shortened : Reaches (record demo { retention_days = some 7 } ∷ []) (kept_a_week ∷ [])
unfolding receiving
shortened = changes (ticks 1) a_week taken_in refl

Reached-InStep_example :
    InStep keeping.retention (record demo { retention_days = some 7 } ∷ []) (kept_a_week ∷ [])
Reached-InStep_example =
    Reached-InStep ascii_case plain_codec no_parsers hmac keeping formats numerals endpoints events
      (record demo { retention_days = some 7 } ∷ []) (kept_a_week ∷ []) (omega arith) shortened

abbrev form : EndpointForm
form = record {
  name = codes " demo ";
  path = codes "demo";
  auth_type = codes "static_secret";
  secret = codes "key";
  allowed_methods = codes "POST, GET";
  max_payload_size = [];
  retention_days = [];
  enabled = true;
}

-- What the form of a new endpoint stores.
abbrev from_form : Endpoint
from_form = record {
  id = 1;
  name = codes "demo";
  path = codes "demo";
  enabled = some true;
  authentication = some (record {
    type_text = some (codes "static_secret");
    header = some (codes "x-webhook-secret");
    signature_prefix = some (codes "sha256=");
  });
  secret = some (codes "key");
  allowed_methods = some (codes "POST" ∷ codes "GET" ∷ []);
  max_payload_size = none;
  retention_days = none;
}

-- The secret is left blank, and the endpoint is switched off.
abbrev edited : EndpointForm
edited = record form { secret = []; retention_days = codes " 9 "; enabled = false }

abbrev saved : Endpoint
saved = record from_form { enabled = some false; retention_days = some 9 }

stored_by_form :
    endpoint_create ascii_case formats numerals endpoints 1 form [] ≡ (some 204, from_form ∷ [])
unfolding handling
stored_by_form = refl

unknown_type :
    endpoint_save ascii_case formats numerals endpoints events keeping.retention
      (ticks 1)
      (record edited { auth_type = codes "digest" })
      (from_form ∷ [])
      []
    ≡ (none, some (from_form ∷ [], []))
unfolding handling
unknown_type = refl

submitted : Reaches (saved ∷ []) []
unfolding handling
submitted =
    saves (ticks 1) edited
      (submits 1 form (record { of_endpoints = tt; of_events = tt }) (begins [] [] refl refl)) refl

Reached-AreConfigured_example : All IsConfigured (saved ∷ [])
Reached-AreConfigured_example =
    Reached-AreConfigured ascii_case plain_codec no_parsers hmac keeping formats numerals endpoints
      events (saved ∷ []) [] submitted

list_endpoints-IsCatalogue_example :
    (vs : List EndpointOut) × (list_endpoints ascii_case formats endpoints (saved ∷ []) ≡ some vs)
    × IsCatalogue (saved ∷ []) vs
list_endpoints-IsCatalogue_example =
    list_endpoints-IsCatalogue ascii_case plain_codec no_parsers hmac keeping formats numerals
      endpoints events (saved ∷ []) [] submitted

endpoint_save-KeepsSecret_example :
    (x : Endpoint) × (find_first (λ d. d.id == 1) (saved ∷ []) ≡ some x)
    × (x.secret ≡ some (codes "key"))
unfolding handling
endpoint_save-KeepsSecret_example =
    endpoint_save-KeepsSecret ascii_case formats numerals endpoints events keeping.retention
      (from_form ∷ []) (saved ∷ []) [] [] 1 from_form refl (ticks 1) edited refl refl refl

abbrev sent : EndpointCreate
sent = record payload {
  authentication = record {
    kind = static_secret;
    header = none;
    signature_prefix = codes "sha256=";
  };
  path = codes "demo";
  enabled = false;
  allowed = codes "POST" ∷ codes "GET" ∷ [];
  retention_days = some 9;
}

abbrev Changes : Type 0
Changes = Option (List Endpoint × List Event)

endpoint_save-change_endpoint_example :
    (◌≡◌ {A = Changes}
      (some (saved ∷ [], []))
      (change_endpoint ascii_case formats endpoints events keeping.retention
        (ticks 1)
        (update_of sent)
        (from_form ∷ [])
        []).1)
    × (true
        ≡ says 200
            (change_endpoint ascii_case formats endpoints events keeping.retention
              (ticks 1)
              (update_of sent)
              (from_form ∷ [])
              []).0)
unfolding handling
endpoint_save-change_endpoint_example =
    endpoint_save-change_endpoint ascii_case formats numerals endpoints events keeping.retention
      (ticks 1) edited sent (from_form ∷ []) [] refl
