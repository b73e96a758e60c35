-- ===== src/Ingest/Receiver/Tests.antt =====
-- Requests to an open endpoint and to one with a secret.
use webhook_inbox.Prelude.{◌≡◌, refl, true, [], ◌∷◌, none, some, ◌⊎◌, arith}
use webhook_inbox.Json.{null}
use webhook_inbox.Prelude.Text.{
  Str, codes, ascii_case, ascii_lower, str_eq, one_of, starts_with, remove_prefix, strip, strip_by,
  drop_while, is_space,
}
use webhook_inbox.Prelude.Dict.{Dict, lookup, has_key, insert}
use webhook_inbox.Mongo.{Collection}
use webhook_inbox.Mongo.Indexed.{Indexed, indexed_in_memory}
use webhook_inbox.Mongo.Lists.{in_memory, find_first}
use webhook_inbox.Event.{Event, event_id_of}
use webhook_inbox.Endpoint.{AuthType, no_auth, auth_type_of, Endpoint, same_path, normalize_path}
use webhook_inbox.RateLimit.{new, allow, take_token, prune, retry_after}
use webhook_inbox.RateLimit.Client.{client_key}
use webhook_inbox.Replay.Queue.{event_body}
use webhook_inbox.Ingest.Body.Raw.{event_body-decode_raw}
use webhook_inbox.Ingest.Signature.{compare_digest, compare, auth_of, stored_type, verify}
use webhook_inbox.Ingest.Signature.Authentic.{HasProof, verify-HasProof}
use webhook_inbox.Ingest.Incoming.{
  Incoming, dict_from, Answer, reject, accepted, read_limited, check_declared, read_stream,
  check_shape, header_bytes,
}
use webhook_inbox.Ingest.Samples.{plain_codec, no_parsers, hmac, settings, hi}
use webhook_inbox.Ingest.Receiver.{
  Inbox, receive, prepare, check_endpoint, check_signature, document_of, bucket_key,
}
use webhook_inbox.Ingest.Receiver.Accepted.{receive-accepted}
use webhook_inbox.Ingest.Receiver.Stored.{Handled, receive-Handled}

receiving : Unit {0}
unfolding str_eq one_of starts_with remove_prefix strip strip_by drop_while is_space lookup has_key
    insert auth_type_of normalize_path new allow take_token prune retry_after client_key
    compare_digest compare verify dict_from read_limited check_declared read_stream check_shape
    header_bytes receive prepare check_endpoint check_signature document_of bucket_key find_first
    ascii_lower
receiving = tt

abbrev demo : Endpoint
demo = record {
  id = 1;
  name = codes "demo";
  path = codes "demo";
  enabled = none;
  authentication = none;
  secret = none;
  allowed_methods = none;
  max_payload_size = none;
  retention_days = none;
}

-- An endpoint that asks for a signature.
abbrev signed : Endpoint
signed = record demo {
  path = codes "signed";
  authentication = some (record {
    type_text = some (codes "hmac_sha256");
    header = none;
    signature_prefix = some (codes "sha256=");
  });
  secret = some (codes "key");
}

abbrev endpoints : Indexed Endpoint same_path
endpoints = indexed_in_memory Endpoint same_path

abbrev events : Collection Event event_id_of
events = in_memory Event event_id_of

abbrev SmallInbox : Type 0
SmallInbox = Inbox ascii_case plain_codec no_parsers hmac settings endpoints events

abbrev empty : SmallInbox
empty = record { limiter = new 1 true; endpoints_now = demo ∷ signed ∷ []; events_now = [] }

abbrev handle : Incoming → SmallInbox → Answer × SmallInbox
handle request inbox =
    receive ascii_case plain_codec no_parsers hmac settings endpoints events 0 9 500 request inbox

hi_accepted : (handle hi empty).0 ≡ accepted 9
unfolding receiving
hi_accepted = refl

hi_limited : (handle hi (handle hi empty).1).0 ≡ reject 429 (codes "Rate limit exceeded") (some 61)
unfolding receiving
hi_limited = refl

unsigned_refused :
    (handle (record hi { path = codes "signed" }) empty).0
    ≡ reject 401 (codes "Invalid signature") none
unfolding receiving
unsigned_refused = refl

too_long :
    (handle (record hi { chunks = (1 ∷ 2 ∷ 3 ∷ []) ∷ (4 ∷ 5 ∷ []) ∷ [] }) empty).0
    ≡ reject 413 (codes "Payload too large") none
unfolding receiving
too_long = refl

receive-Handled_example :
    Handled ascii_case plain_codec no_parsers hmac settings endpoints events 0 hi empty
      (handle hi empty).0
      (handle hi empty).1.events_now
receive-Handled_example =
    receive-Handled ascii_case plain_codec no_parsers hmac settings endpoints events 0 9 500 hi
      empty

abbrev signature : Dict Str
signature =
    (
      codes "x-hub-signature-256",
      codes "sha256=1111111111111111111111111111111111111111111111111111111111111111",
    )
    ∷ []

verify-HasProof_example :
    (stored_type (auth_of signed).type_text ≡ some no_auth)
    ⊎ ((kind : AuthType) × (stored_type (auth_of signed).type_text ≡ some kind)
        × HasProof ascii_case plain_codec hmac kind signed signature (104 ∷ []))
unfolding receiving
verify-HasProof_example =
    verify-HasProof ascii_case plain_codec hmac signed signature (104 ∷ []) refl

abbrev stored_hi : Event
stored_hi =
    document_of ascii_case plain_codec no_parsers hmac settings 9 500 hi demo (104 ∷ 105 ∷ []) null

event_body-decode_raw_example : event_body plain_codec stored_hi ≡ 104 ∷ 105 ∷ []
unfolding receiving
event_body-decode_raw_example =
    event_body-decode_raw plain_codec stored_hi (104 ∷ 105 ∷ []) refl refl

receive-accepted_example :
    ((handle hi empty).0 ≡ accepted 9) × ((handle hi empty).1.events_now ≡ stored_hi ∷ [])
unfolding receiving
receive-accepted_example =
    receive-accepted ascii_case plain_codec no_parsers hmac settings endpoints events 0 9 500 hi
      empty demo null (omega arith) (omega arith) (omega arith) refl refl
      (record {
        enabled = refl;
        allowed = refl;
        declared = refl;
        small = omega arith;
        authentic = refl;
        parsed = refl;
        in_time = refl;
        taken = refl;
      })
