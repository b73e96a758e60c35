-- ===== src/Replay/Runner.antt =====
-- app/replay/runner.py: one delivery attempt. The server at the other end is the parameter `peer`:
-- what it answers to a request may differ at every moment. A moment is a hop of one delivery.

pub mod Hops
pub mod Outcome
use webhook_inbox.Prelude.{
  ℕ, zero, suc, ◌+◌, Bool, true, false, not, ◌&&◌, ◌||◌, List, [], ◌∷◌, ◌++◌, Option, none, some,
  is_empty, if◌then◌else◌, length, ltb, leb, ◌==◌,
}
use webhook_inbox.Prelude.Text.{Str, codes}
use webhook_inbox.Prelude.Dict.{Dict, lookup, insert}
use webhook_inbox.Replay.Destination.{
  Network, ReplayConfig, DestinationError, too_many_redirects, Checked, ok, refused, raised,
  Destination, pinned, authority, validate,
}

-- RETRYABLE_STATUS
unfoldable pub is_retryable_status : ℕ → Bool
is_retryable_status s =
    (s == 429)
    || (s == 500)
    || (s == 502)
    || (s == 503)
    || (s == 504)
    || (s == 507)
    || (s == 508)
    || (s == 509)

-- What `Attempt.error` says.
pub data Problem : Type 0 where
  destination : DestinationError → Problem
  timed_out_after : ℕ → Problem
  connection_failed : Str → Problem
  event_gone : Problem

pub record Attempt : Type 0 where
  pub status_code : Option ℕ
  pub headers : Dict Str
  pub body : Str
  pub truncated : Bool
  pub duration_ms : ℕ
  pub error : Option Problem
  pub retryable : Bool

-- Attempt(error=…, retryable=…, duration_ms=…)
abbrev pub failed_attempt : Problem → Bool → ℕ → Attempt
failed_attempt error retryable duration = record {
  status_code = none;
  headers = [];
  body = [];
  truncated = false;
  duration_ms = duration;
  error = some error;
  retryable = retryable;
}

abbrev below_400 : Option ℕ → Bool
below_400 none = false
below_400 (some s) = ltb s 400

abbrev is_none {ℓ} : {A : Type ℓ} → Option A → Bool
is_none none = true
is_none (some a) = false

-- Attempt.succeeded
unfoldable pub succeeded : Attempt → Bool
succeeded a = is_none a.error && below_400 a.status_code

-- The loop over the chunks of a response: the bytes kept, and whether it broke off.
unfoldable pub read_chunks : ℕ → ℕ → List ℕ → List (List ℕ) → List ℕ × Bool
read_chunks limit total kept [] = (kept, false)
read_chunks limit total kept (chunk ∷ chunks) =
    let rest = read_chunks limit (total + length chunk) (kept ++ chunk) chunks in
    if ltb limit (total + length chunk) then (kept, true) else rest

pub record Response : Type 0 where
  pub status_code : ℕ
  pub headers : Dict Str
  pub chunks : List (List ℕ)

pub data Reply : Type 0 where
  response : Response → Reply
  timeout : Reply
  -- An exception that is no TimeoutException and no TransportError: the DecodingError of a body, or the
  -- UnicodeEncodeError of a header.
  broken : Reply
  transport_error : Str → Reply

-- body or None
abbrev pub content_of : List ℕ → Option (List ℕ)
content_of [] = none
content_of (b ∷ body) = some (b ∷ body)

-- `location` of a redirect that carries one.
unfoldable pub redirect_of : Response → Option Str
unfolding lookup
redirect_of r =
    if leb 300 r.status_code && ltb r.status_code 400
    then (elim (lookup (codes "location") r.headers) [
      | none ↦ none
      | some location ↦ if is_empty location then none else some location
    ])
    else none

module _ (net : Network) where
  -- One request on the wire.
  pub record Sent : Type 0 where
    pub method : Str
    pub target : net.Url
    pub headers : Dict Str
    pub content : Option (List ℕ)
    pub sni_hostname : Str

  -- The request of `_request`, for a validated destination.
  unfoldable pub request_of : Destination net → Str → Dict Str → List ℕ → Sent
  unfolding pinned authority insert
  request_of d method headers body = record {
    method = method;
    target = pinned net d;
    headers = insert (codes "Host") (authority net d) headers;
    content = content_of body;
    sni_hostname = net.host d.url;
  }

  -- A destination that was contacted, and when it was validated.
  pub record Contact : Type 0 where
    pub destination : Destination net
    pub moment : ℕ
    pub sent : Sent

  -- How `_send` ends; `uncaught` is an exception that
  -- `execute` does not catch: of `URL.join`, of the name service, or of the exchange.
  pub data Sending : Type 0 where
    finished : Attempt → Sending
    rejected : DestinationError → Sending
    timed_out uncaught : Sending
    unreachable : Str → Sending

  module _ (peer : ℕ → Sent → Reply) (decode_replace : List ℕ → Str) (config : ReplayConfig) where
    -- `_result`
    unfoldable pub result_of : Response → Attempt
    unfolding read_chunks is_retryable_status
    result_of r =
        let (body, truncated) = read_chunks config.max_response_size 0 [] r.chunks in
        record {
          status_code = some r.status_code;
          headers = r.headers;
          body = decode_replace body;
          truncated = truncated;
          duration_ms = 0;
          error = none;
          retryable = is_retryable_status r.status_code;
        }

    -- What a round makes of the answer: the end, or the next URL.
    pub data Round : Type 0 where
      stop : Sending → Round
      follow : Str → Round

    joined : Option Str → Round
    joined none = stop uncaught
    joined (some url) = follow url

    after_redirect : Response → net.Url → Option Str → Round
    unfolding joined result_of
    after_redirect r url none = stop (finished (result_of r))
    after_redirect r url (some location) =
        if config.allow_redirects
        then joined (net.join url location)
        else stop (finished (result_of r))

    unfoldable pub round_of : net.Url → Reply → Round
    unfolding after_redirect redirect_of
    round_of url timeout = stop timed_out
    round_of url broken = stop uncaught
    round_of url (transport_error text) = stop (unreachable text)
    round_of url (response r) = after_redirect r url (redirect_of r)

    -- The loop of `_send`, with the rounds that are left, and who was contacted.
    unfoldable pub send_from : ℕ → ℕ → Str → Str → Dict Str → List ℕ → Sending × List Contact
    unfolding round_of
    send_from zero moment url method headers body = (rejected too_many_redirects, [])
    send_from (suc rounds) moment url method headers body = elim (validate net config moment url) [
      | refused e ↦ (rejected e, [])
      | raised ↦ (uncaught, [])
      | ok d ↦
          let sent = request_of d method headers body in
          let contact : Contact = record { destination = d; moment = moment; sent = sent } in
          elim (round_of d.url (peer moment sent)) [
            | stop end ↦ (end, contact ∷ [])
            | follow next ↦
                let (end, contacts) = send_from rounds (moment + 1) next method headers body in
                (end, contact ∷ contacts)
          ]
    ]

    unfoldable pub send : Str → Str → Dict Str → List ℕ → Sending × List Contact
    unfolding send_from
    send url method headers body = send_from (config.max_redirects + 1) 0 url method headers body

    -- The handlers of `execute`; `none` is an exception that leaves it.
    unfoldable pub handled : ℕ → Sending → Option Attempt
    handled duration (finished attempt) = some (record attempt { duration_ms = duration })
    handled duration (rejected e) = some (failed_attempt (destination e) false duration)
    handled duration timed_out =
        some (failed_attempt (timed_out_after config.timeout) true duration)
    handled duration (unreachable text) =
        some (failed_attempt (connection_failed text) true duration)
    handled duration uncaught = none

    -- `execute`, with the milliseconds that it took.
    unfoldable pub execute : ℕ → Str → Str → Dict Str → List ℕ → Option Attempt
    unfolding send handled
    execute duration url method headers body = handled duration (send url method headers body).0
