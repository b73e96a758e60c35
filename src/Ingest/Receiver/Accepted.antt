-- ===== src/Ingest/Receiver/Accepted.antt =====
-- Which requests are accepted: all that pass the checks, and what the inbox holds then.
use mathlib.Core.List.{append_assoc, append-nil}
use webhook_inbox.Prelude.{
  ℕ, ◌+◌, ◌≤◌, ◌≡◌, refl, sym, ap, ◌∙◌, true, false, List, [], ◌∷◌, ◌++◌, Option, some, ltb, length,
  length-append, arith,
}
use webhook_inbox.Prelude.Text.{Unicode, str_eq, one_of, codes}
use webhook_inbox.Prelude.Dict.{lookup}
use webhook_inbox.Json.{Value}
use webhook_inbox.Retention.{expires_at, overflows}
use webhook_inbox.Event.{Codec, Event, event_id_of}
use webhook_inbox.Mongo.{Collection}
use webhook_inbox.Mongo.Indexed.{Indexed}
use webhook_inbox.Endpoint.{Endpoint, same_path, normalize_path}
use webhook_inbox.RateLimit.{allow}
use webhook_inbox.RateLimit.Client.{get_or_empty}
use webhook_inbox.Replay.Runner.Outcome.{joined_chunks}
use webhook_inbox.Ingest.Body.{Parsers}
use webhook_inbox.Ingest.Signature.{Hmac, verify}
use webhook_inbox.Ingest.Incoming.{
  Settings, LimitsConfig, Incoming, dict_from, accepted, pass, read_stream, check_declared,
  read_limited, check_shape, header_bytes, ◌>>=◌, ◌>>◌,
}
use webhook_inbox.Ingest.Receiver.{
  is_enabled, methods_of, limit_of, check_endpoint, check_signature, document_of, body_of,
  value_or_failed, check_expiry, prepare, Inbox, bucket_key, receive, answered, limited,
  after_shape,
}

-- A body within the limit is read whole.
read_stream-joined_chunks :
    (limit : ℕ) (kept : List ℕ) (chunks : List (List ℕ))
    → length (kept ++ joined_chunks chunks) ≤ limit
    → read_stream limit (length kept) kept chunks ≡ pass (kept ++ joined_chunks chunks)
unfolding read_stream
read_stream-joined_chunks limit kept [] h = ap pass (sym (append-nil kept))
read_stream-joined_chunks limit kept (chunk ∷ chunks) h =
    let fits : ltb limit (length kept + length chunk) ≡ false = ground (
      arith,
      h,
      length-append kept (chunk ++ joined_chunks chunks),
      length-append chunk (joined_chunks chunks),
    ) in
    let same = append_assoc kept chunk (joined_chunks chunks) in
    let next = read_stream-joined_chunks limit (kept ++ chunk) chunks (rw same h) in
    rw fits (rw (← length-append kept chunk) (next ∙ ap pass same))

-- The checks of the shape pass within the limits.
check_shape-within :
    (limits : LimitsConfig) (request : Incoming)
    → length request.headers ≤ limits.max_header_count
    → header_bytes request.headers ≤ limits.max_header_bytes
    → length request.query ≤ limits.max_query_length
    → check_shape limits request ≡ pass tt
unfolding check_shape
check_shape-within limits request few small short = ground (arith, few, small, short)

module _ (u : Unicode) (codec : Codec) (parsers : Parsers) (hmac : Hmac) (settings : Settings)
    (endpoints : Indexed Endpoint same_path) (events : Collection Event event_id_of) where
  -- What an endpoint asks of a request, and what must not fail.
  pub record IsWelcome (id received_at : ℕ) (request : Incoming) (endpoint : Endpoint)
      (body : Value) : Type 0 where
    pub enabled : is_enabled endpoint ≡ true
    pub allowed : one_of request.method (methods_of endpoint) ≡ true
    pub declared :
        check_declared
          (get_or_empty (lookup (codes "content-length") request.headers))
          (limit_of settings endpoint)
        ≡ pass tt
    pub small : length (joined_chunks request.chunks) ≤ limit_of settings endpoint
    pub authentic :
        verify u codec hmac endpoint (dict_from [] request.headers) (joined_chunks request.chunks)
        ≡ some true
    pub parsed :
        body_of u codec parsers hmac settings request (joined_chunks request.chunks) ≡ some body
    pub in_time : overflows (expires_at endpoint settings.retention received_at) ≡ false
    pub taken :
        events.takes (
          document_of u codec parsers hmac settings id received_at request endpoint
            (joined_chunks request.chunks)
            body)
        ≡ true

  prepared_pass :
      (received_at : ℕ) (endpoint : Endpoint) (made : Value → Event) (o : Option Value)
      (body : Value)
      → o ≡ some body
      → overflows (expires_at endpoint settings.retention received_at) ≡ false
      → (value_or_failed o >>= λ v.
          check_expiry (expires_at endpoint settings.retention received_at) >> pass (made v))
        ≡ pass (made body)
  prepared_pass received_at endpoint made o body parsed fine = rw (parsed, fine) refl

  prepare-document_of :
      (id received_at : ℕ) (request : Incoming) (found : Option Endpoint) (endpoint : Endpoint)
      (body : Value)
      → found ≡ some endpoint
      → IsWelcome id received_at request endpoint body
      → prepare u codec parsers hmac settings id received_at request found
        ≡ pass (
            document_of u codec parsers hmac settings id received_at request endpoint
              (joined_chunks request.chunks)
              body)
  unfolding prepare check_endpoint read_limited check_signature
  prepare-document_of id received_at request found endpoint body known w =
      rw
        (
          known,
          w.enabled,
          w.allowed,
          w.declared,
          read_stream-joined_chunks (limit_of settings endpoint) [] request.chunks w.small,
          w.authentic,
        )
        (prepared_pass received_at endpoint
          (document_of u codec parsers hmac settings id received_at request endpoint
            (joined_chunks request.chunks))
          (body_of u codec parsers hmac settings request (joined_chunks request.chunks)) body
          w.parsed w.in_time)

  limited-accepted :
      (id received_at : ℕ) (request : Incoming) (allowed : _) (endpoint : Endpoint) (body : Value)
      (inbox : Inbox u codec parsers hmac settings endpoints events)
      → allowed ≡ true
      → endpoints.find_one (λ e. str_eq e.path (normalize_path request.path)) inbox.endpoints_now
        ≡ some endpoint
      → IsWelcome id received_at request endpoint body
      → limited u codec parsers hmac settings endpoints events id received_at request allowed inbox
        ≡ (
          accepted id,
          record inbox {
            events_now =
                events.insert_one
                  (document_of u codec parsers hmac settings id received_at request endpoint
                    (joined_chunks request.chunks)
                    body)
                  inbox.events_now;
          },
        )
  unfolding limited answered document_of
  limited-accepted id received_at request false endpoint body inbox free known w =
      absurd (ground (arith, free))
  limited-accepted id received_at request true endpoint body inbox free known w =
      rw (prepare-document_of id received_at request _ endpoint body known w, w.taken) refl

  -- A request with headers and query within the limits that the rate limiter lets through, to a known
  -- and enabled endpoint, with a method allowed there, a declared length that is missing, no number
  -- or within the limit, a body within the limit, and a signature that passes, is accepted, and its
  -- document is stored behind the others, as long as none of three calls raises: the parsing of the
  -- body, the sum of the arrival and the retention, and the insertion of a document that the database
  -- cannot take.
  pub receive-accepted :
      (clock id received_at : ℕ) (request : Incoming)
      (inbox : Inbox u codec parsers hmac settings endpoints events) (endpoint : Endpoint)
      (body : Value)
      → length request.headers ≤ settings.limits.max_header_count
      → header_bytes request.headers ≤ settings.limits.max_header_bytes
      → length request.query ≤ settings.limits.max_query_length
      → (allow
          (bucket_key u codec parsers hmac settings endpoints events request)
          clock
          inbox.limiter).0
        ≡ true
      → endpoints.find_one (λ e. str_eq e.path (normalize_path request.path)) inbox.endpoints_now
        ≡ some endpoint
      → IsWelcome id received_at request endpoint body
      → ((receive u codec parsers hmac settings endpoints events clock id received_at request
            inbox).0
          ≡ accepted id)
        × (events.documents
              (receive u codec parsers hmac settings endpoints events clock id received_at request
                inbox).1.events_now
            ≡ events.documents inbox.events_now
              ++ document_of u codec parsers hmac settings id received_at request endpoint
                  (joined_chunks request.chunks)
                  body
                ∷ [])
  unfolding receive after_shape
  receive-accepted clock id received_at request inbox endpoint body few small short free known w =
      let spent =
        allow (bucket_key u codec parsers hmac settings endpoints events request) clock
          inbox.limiter in
      let taken =
        limited-accepted id received_at request spent.0 endpoint body
          (record inbox { limiter = spent.1 }) free known w in
      let shape = check_shape-within settings.limits request few small short in
      rw (shape, taken) (refl, events.documents-insert_one _ inbox.events_now)
