-- ===== src/Ingest/Receiver.antt =====
-- `receive` of app/ingest/receiver.py: the handler that takes a webhook in. The endpoints and the
-- events are collections.
pub mod Refusals
pub mod Passing
pub mod Stored
pub mod Arrival
pub mod Accepted
mod Tests
use webhook_inbox.Prelude.{
  ℕ, ◌+◌, ◌-◌, ◌*◌, Bool, true, false, not, ◌&&◌, ◌||◌, List, [], ◌∷◌, ◌++◌, Option, none, some,
  if◌then◌else◌, is_empty, ltb, leb, ◌==◌, length, all, max,
}
use webhook_inbox.Prelude.Text.{Str, codes, Unicode, str_eq, one_of}
use webhook_inbox.Prelude.Dict.{Dict, lookup, has_key, insert, merge}
use webhook_inbox.Json.{Value}
use webhook_inbox.Event.{Codec, Event, Request, event_id_of}
use webhook_inbox.Mongo.{Collection}
use webhook_inbox.Mongo.Indexed.{Indexed}
use webhook_inbox.Endpoint.{Endpoint, same_path, normalize_path}
use webhook_inbox.RateLimit.{RateLimiter, allow, retry_after}
use webhook_inbox.RateLimit.Client.{client_key, get_or_empty}
use webhook_inbox.Retention.{RetentionConfig, expires_at, overflows}
use webhook_inbox.Search.Tokenize.{build}
use webhook_inbox.Ingest.Keys.{escape_keys}
use webhook_inbox.Ingest.Body.{Parsers, decode_raw, parse_body, extract_event_type}
use webhook_inbox.Ingest.Signature.{Hmac, verify}
use webhook_inbox.Ingest.Incoming.{
  Settings, Incoming, dict_from, Answer, reject, accepted, failed, Gate, pass, halt, ◌>>=◌, ◌>>◌,
  reject_if, read_limited, check_shape,
}

-- endpoint.get("enabled", True)
abbrev pub is_enabled : Endpoint → Bool
is_enabled endpoint = elim endpoint.enabled [ none ↦ true | some flag ↦ flag ]

-- endpoint.get("allowed_methods", ["POST"])
abbrev pub methods_of : Endpoint → List Str
methods_of endpoint = elim endpoint.allowed_methods [
  | none ↦ codes "POST" ∷ []
  | some methods ↦ methods
]

-- endpoint.get("max_payload_size") or settings.limits.max_payload_size
abbrev pub limit_of : Settings → Endpoint → ℕ
limit_of settings endpoint = elim endpoint.max_payload_size [
  | none ↦ settings.limits.max_payload_size
  | some size ↦ if size == 0 then settings.limits.max_payload_size else size
]

unfoldable pub check_endpoint : Incoming → Option Endpoint → Gate Endpoint
unfolding one_of
check_endpoint request none = halt (reject 404 (codes "Unknown endpoint") none)
check_endpoint request (some endpoint) = do
  reject_if (not (is_enabled endpoint)) 403 (codes "Endpoint is disabled")
  reject_if (not (one_of request.method (methods_of endpoint))) 405
      (codes "Method not allowed for this endpoint")
  pass endpoint

-- What the signature check says.
unfoldable pub check_signature : Option Bool → Gate (Unit {0})
check_signature (some true) = pass tt
check_signature (some false) = halt (reject 401 (codes "Invalid signature") none)
check_signature none = halt failed

-- An exception of parse_body or of expires_at is an error of the server.
abbrev pub value_or_failed : Option Value → Gate Value
value_or_failed none = halt failed
value_or_failed (some body) = pass body

abbrev pub check_expiry : Option ℕ → Gate (Unit {0})
check_expiry expiry = if overflows expiry then halt failed else pass tt

module _ (u : Unicode) (codec : Codec) (parsers : Parsers) (hmac : Hmac) (settings : Settings) where
  -- The stored document, with the id that the driver gives it, of a parsed body.
  unfoldable pub document_of : ℕ → ℕ → Incoming → Endpoint → List ℕ → Value → Event
  unfolding dict_from decode_raw extract_event_type escape_keys build expires_at merge lookup
  document_of id received_at request endpoint raw body =
      let headers = dict_from [] request.headers in
      let content_type = get_or_empty (lookup (codes "content-type") headers) in
      let event_type = extract_event_type headers body in
      let query = merge [] request.query_params in
      record {
        id = id;
        endpoint_id = endpoint.id;
        endpoint_name = endpoint.name;
        received_at = received_at;
        event_type = event_type;
        request = record {
          method = request.method;
          headers = headers;
          query = query;
          body = escape_keys body;
          raw_body = (decode_raw codec raw).0;
          raw_encoding = (decode_raw codec raw).1;
          content_type = content_type;
          body_size = length raw;
        };
        search = build u endpoint.name event_type headers query body;
        status = codes "received";
        response_status = 202;
        source_ip = request.client;
        user_agent = lookup (codes "user-agent") headers;
        expires_at = expires_at endpoint settings.retention received_at;
      }

  -- The body of a request, by its content type.
  unfoldable pub body_of : Incoming → List ℕ → Option Value
  unfolding dict_from parse_body lookup
  body_of request raw =
      parse_body u codec parsers raw
        (get_or_empty (lookup (codes "content-type") (dict_from [] request.headers)))
        settings.limits.max_json_depth

  -- The handler from the endpoint on, up to the insertion.
  unfoldable pub prepare : ℕ → ℕ → Incoming → Option Endpoint → Gate Event
  unfolding check_endpoint read_limited check_signature verify body_of document_of
  prepare id received_at request found = do
    endpoint ← check_endpoint request found
    raw ← read_limited request (limit_of settings endpoint)
    check_signature (verify u codec hmac endpoint (dict_from [] request.headers) raw)
    body ← value_or_failed (body_of request raw)
    check_expiry (expires_at endpoint settings.retention received_at)
    pass (document_of id received_at request endpoint raw body)

  module _ (endpoints : Indexed Endpoint same_path) (events : Collection Event event_id_of) where
    -- What the handler reads and writes.
    pub record Inbox : Type 0 where
      pub limiter : RateLimiter
      pub endpoints_now : endpoints.State
      pub events_now : events.State

    -- The key of the bucket.
    unfoldable pub bucket_key : Incoming → Str
    unfolding normalize_path client_key
    bucket_key request =
        normalize_path request.path
        ++ b':' ∷ client_key settings.trust_forwarded_for request.headers request.client

    answered : Gate Event → Inbox → Answer × Inbox
    answered (halt answer) inbox = (answer, inbox)
    answered (pass event) inbox =
        if events.takes event
        then (
          accepted event.id,
          record inbox { events_now = events.insert_one event inbox.events_now },
        )
        else (failed, inbox)

    -- The handler once the rate limiter has spoken.
    limited : ℕ → ℕ → Incoming → Bool → Inbox → Answer × Inbox
    unfolding prepare answered retry_after normalize_path
    limited id received_at request false inbox = (
      reject 429 (codes "Rate limit exceeded")
          (some (retry_after (bucket_key request) inbox.limiter)),
      inbox,
    )
    limited id received_at request true inbox =
        answered
          (prepare id received_at request (
            endpoints.find_one (λ e. str_eq e.path (normalize_path request.path))
              inbox.endpoints_now))
          inbox

    after_shape : ℕ → ℕ → ℕ → Incoming → Gate (Unit {0}) → Inbox → Answer × Inbox
    unfolding limited allow
    after_shape clock id received_at request (halt answer) inbox = (answer, inbox)
    after_shape clock id received_at request (pass _) inbox =
        let (allowed, limiter) = allow (bucket_key request) clock inbox.limiter in
        limited id received_at request allowed (record inbox { limiter = limiter })

    -- `receive`, at a reading of the monotonic clock and a time of day.
    unfoldable pub receive : ℕ → ℕ → ℕ → Incoming → Inbox → Answer × Inbox
    unfolding check_shape after_shape
    receive clock id received_at request inbox =
        after_shape clock id received_at request (check_shape settings.limits request) inbox
