-- ===== src/Ingest/Receiver/Stored.antt =====
-- Which requests are stored, and what is stored of them.
use mathlib.Core.Path.{subst}
use webhook_inbox.Prelude.{
  ℕ, ◌≤◌, ◌≡◌, refl, ap, ◌∙◌, Bool, true, false, List, [], ◌∷◌, ◌++◌, Option, none, some, length,
  arith, Bool-cases, inl, inr, inl, inr,
}
use webhook_inbox.Prelude.Text.{Unicode, str_eq, one_of}
use webhook_inbox.Event.{Codec, Event, event_id_of}
use webhook_inbox.Mongo.{Collection}
use webhook_inbox.Mongo.Indexed.{Indexed}
use webhook_inbox.Json.{Value}
use webhook_inbox.Endpoint.{Endpoint, same_path, normalize_path}
use webhook_inbox.Retention.{expires_at}
use webhook_inbox.RateLimit.{RateLimiter, allow}
use webhook_inbox.Replay.Queue.{event_body}
use webhook_inbox.Replay.Runner.Outcome.{joined_chunks}
use webhook_inbox.Ingest.Keys.RoundTrip.{HasStorableKeys, escape_keys-HasStorableKeys}
use webhook_inbox.Ingest.Body.{Parsers}
use webhook_inbox.Ingest.Body.Raw.{event_body-decode_raw}
use webhook_inbox.Ingest.Signature.{Hmac, verify}
use webhook_inbox.Ingest.Incoming.{
  Settings, Incoming, dict_from, Answer, accepted, Gate, pass, halt, ◌>>=◌, ◌>>◌, read_limited,
  check_shape,
}
use webhook_inbox.Ingest.Receiver.Passing.{
  Gate-cases, read_limited-pass, check_endpoint-pass, check_signature-pass,
}
use webhook_inbox.Ingest.Receiver.Refusals.{
  is_accepted, IsRefusal, passes, refuses, check_shape-IsRefusal, prepare-IsRefusal,
}
use webhook_inbox.Ingest.Receiver.{
  is_enabled, methods_of, limit_of, check_endpoint, check_signature, document_of, body_of,
  value_or_failed, check_expiry, prepare, Inbox, bucket_key, receive, answered, limited,
  after_shape,
}

module _ (u : Unicode) (codec : Codec) (parsers : Parsers) (hmac : Hmac) (settings : Settings) where
  -- What an endpoint and a stored event have passed.
  pub record IsAdmitted (request : Incoming) (found : Option Endpoint) (event : Event)
      : Type 0 where
    pub endpoint : Endpoint
    pub known : found ≡ some endpoint
    pub enabled : is_enabled endpoint ≡ true
    pub allowed : one_of request.method (methods_of endpoint) ≡ true
    pub of_endpoint : event.endpoint_id ≡ endpoint.id
    pub expires : event.expires_at ≡ expires_at endpoint settings.retention event.received_at
    pub sent_bytes : event_body codec event ≡ joined_chunks request.chunks
    pub counted : event.request.body_size ≡ length (joined_chunks request.chunks)
    pub small : length (joined_chunks request.chunks) ≤ limit_of settings endpoint
    pub authentic :
        verify u codec hmac endpoint (dict_from [] request.headers) (joined_chunks request.chunks)
        ≡ some true
    pub storable : HasStorableKeys event.request.body

  document_of-IsAdmitted :
      (id received_at : ℕ) (request : Incoming) (endpoint : Endpoint) (raw : List ℕ) (body : Value)
      (found : Option Endpoint)
      → found ≡ some endpoint
      → is_enabled endpoint ≡ true
      → one_of request.method (methods_of endpoint) ≡ true
      → raw ≡ joined_chunks request.chunks
      → length raw ≤ limit_of settings endpoint
      → verify u codec hmac endpoint (dict_from [] request.headers) raw ≡ some true
      → IsAdmitted request found
          (document_of u codec parsers hmac settings id received_at request endpoint raw body)
  unfolding document_of
  document_of-IsAdmitted id received_at request endpoint raw body found known on method same short
        signed =
      record {
        endpoint = endpoint;
        known = known;
        enabled = on;
        allowed = method;
        of_endpoint = refl;
        expires = refl;
        sent_bytes =
            event_body-decode_raw codec
              (document_of u codec parsers hmac settings id received_at request endpoint raw body)
              raw refl refl
            ∙ same;
        counted = ap length same;
        small = rw (← same) short;
        authentic = rw (← same) signed;
        storable = escape_keys-HasStorableKeys _;
      }

  -- The last checks of `prepare`.
  prepared_last :
      (received_at : ℕ) (endpoint : Endpoint) (made : Value → Event) (o : Option Value)
      (event : Event)
      → (value_or_failed o >>= λ body.
          check_expiry (expires_at endpoint settings.retention received_at) >> pass (made body))
        ≡ pass event
      → (body : Value) × (made body ≡ event)
  prepared_last received_at endpoint made none event e = absurd (ground (arith, e))
  prepared_last received_at endpoint made (some body) event e = (body, ground (arith, e))

  prepare-IsAdmitted :
      (id received_at : ℕ) (request : Incoming) (found : Option Endpoint) (event : Event)
      → prepare u codec parsers hmac settings id received_at request found ≡ pass event
      → IsAdmitted request found event
  unfolding prepare
  prepare-IsAdmitted id received_at request found event e =
      elim (Gate-cases (check_endpoint request found)) [
        | inl (answer, unknown) ↦ absurd (ground (arith, unknown))
        | inr (endpoint, passed) ↦
            elim (Gate-cases (read_limited request (limit_of settings endpoint))) [
              | inl (answer, large) ↦ absurd (ground (arith, passed, large))
              | inr (raw, read) ↦
                  let verdict = verify u codec hmac endpoint (dict_from [] request.headers) raw in
                  elim (Gate-cases (check_signature verdict)) [
                    | inl (answer, forged) ↦ absurd (ground (arith, passed, read, forged))
                    | inr (_, signed) ↦
                        let (known, on, method) =
                          check_endpoint-pass request found endpoint passed in
                        let (same, short) =
                          read_limited-pass request (limit_of settings endpoint) raw read in
                        let (body, document) =
                          prepared_last received_at endpoint
                            (document_of u codec parsers hmac settings id received_at request
                              endpoint raw)
                            (body_of u codec parsers hmac settings request raw) event
                            (ground (arith, passed, read, signed)) in
                        subst (IsAdmitted request found) document (
                          document_of-IsAdmitted id received_at request endpoint raw body found
                            known on method same short (check_signature-pass verdict signed))
                  ]
            ]
      ]

  module _ (endpoints : Indexed Endpoint same_path) (events : Collection Event event_id_of) where
    -- How a request can end: turned away with nothing stored, or accepted with one event stored.
    pub data Handled (clock : ℕ) (request : Incoming)
        (before : Inbox u codec parsers hmac settings endpoints events) (answer : Answer)
        (after : List Event) : Type 0 where
      turned_away :
          is_accepted answer ≡ false
          → after ≡ events.documents before.events_now
          → Handled clock request before answer after
      stored :
          (event : Event)
          → answer ≡ accepted event.id
          → after ≡ events.documents before.events_now ++ event ∷ []
          → check_shape settings.limits request ≡ pass tt
          → (allow
              (bucket_key u codec parsers hmac settings endpoints events request)
              clock
              before.limiter).0
            ≡ true
          → IsAdmitted request
              (endpoints.find_one
                (λ e. str_eq e.path (normalize_path request.path))
                before.endpoints_now)
              event
          → Handled clock request before answer after

    answered-Handled :
        (clock id received_at : ℕ) (request : Incoming)
        (before : Inbox u codec parsers hmac settings endpoints events) (limiter : RateLimiter)
        (g : Gate Event)
        → check_shape settings.limits request ≡ pass tt
        → (allow
            (bucket_key u codec parsers hmac settings endpoints events request)
            clock
            before.limiter).0
          ≡ true
        → prepare u codec parsers hmac settings id received_at request (
            endpoints.find_one
              (λ e. str_eq e.path (normalize_path request.path))
              before.endpoints_now)
          ≡ g
        → IsRefusal g
        → Handled clock request before
            (answered u codec parsers hmac settings endpoints events g
              (record before { limiter = limiter })).0
            (events.documents
              (answered u codec parsers hmac settings endpoints events g
                (record before { limiter = limiter })).1.events_now)
    unfolding answered
    answered-Handled clock id received_at request before limiter (halt answer) shape free e
          (refuses _ h) =
        turned_away h refl
    answered-Handled clock id received_at request before limiter (pass event) shape free e
          (passes _) =
        elim (Bool-cases (events.takes event)) [
          | inl written ↦ rw written (
              stored event refl (events.documents-insert_one event before.events_now) shape free
                (prepare-IsAdmitted id received_at request _ event e))
          | inr broken ↦ rw broken (turned_away refl refl)
        ]

    limited-Handled :
        (clock id received_at : ℕ) (request : Incoming)
        (before : Inbox u codec parsers hmac settings endpoints events) (limiter : RateLimiter)
        (allowed : Bool)
        → check_shape settings.limits request ≡ pass tt
        → (allow
            (bucket_key u codec parsers hmac settings endpoints events request)
            clock
            before.limiter).0
          ≡ allowed
        → Handled clock request before
            (limited u codec parsers hmac settings endpoints events id received_at request allowed
              (record before { limiter = limiter })).0
            (events.documents
              (limited u codec parsers hmac settings endpoints events id received_at request allowed
                (record before { limiter = limiter })).1.events_now)
    unfolding limited
    limited-Handled clock id received_at request before limiter false shape full =
        turned_away refl refl
    limited-Handled clock id received_at request before limiter true shape free =
        answered-Handled clock id received_at request before limiter _ shape free refl
          (prepare-IsRefusal u codec parsers hmac settings id received_at request _)

    after_shape-Handled :
        (clock id received_at : ℕ) (request : Incoming)
        (before : Inbox u codec parsers hmac settings endpoints events) (g : Gate (Unit {0}))
        → check_shape settings.limits request ≡ g
        → IsRefusal g
        → Handled clock request before
            (after_shape u codec parsers hmac settings endpoints events clock id received_at request
              g before).0
            (events.documents
              (after_shape u codec parsers hmac settings endpoints events clock id received_at
                request g before).1.events_now)
    unfolding after_shape
    after_shape-Handled clock id received_at request before (halt answer) e (refuses _ h) =
        turned_away h refl
    after_shape-Handled clock id received_at request before (pass _) e (passes _) =
        limited-Handled clock id received_at request before _ _ e refl

    -- Whatever arrives, either it is turned away and the stored events stay as they are, or exactly
    -- one event is stored. Then its headers and query were within the limits, the rate limiter let
    -- it through, it went to a known and enabled endpoint with a method allowed there, its body is
    -- within the limit and passed the signature check, the stored event expires as its
    -- endpoint says, gives back exactly the bytes that arrived, and no key of the stored body has a dot in it or begins with a dollar.
    pub receive-Handled :
        (clock id received_at : ℕ) (request : Incoming)
        (before : Inbox u codec parsers hmac settings endpoints events)
        → Handled clock request before
            (receive u codec parsers hmac settings endpoints events clock id received_at request
              before).0
            (events.documents
              (receive u codec parsers hmac settings endpoints events clock id received_at request
                before).1.events_now)
    unfolding receive
    receive-Handled clock id received_at request before =
        after_shape-Handled clock id received_at request before _ refl
          (check_shape-IsRefusal settings.limits request)
