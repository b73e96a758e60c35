-- ===== src/Replay/Queue.antt =====
-- app/replay/store.py, app/models/replay.py and app/replay/worker.py: the queue of replays in the database.
-- Times are microseconds. Where the source writes `leased_at < now - timeout` the sum stands on the
-- other side.
pub mod Leases
pub mod Settled
mod Tests
pub mod Worker
pub mod Forever
use webhook_inbox.Prelude.{
  ℕ, ◌+◌, ◌-◌, ◌*◌, ◌^◌, Bool, true, false, ◌&&◌, List, [], Option, none, some, if◌then◌else◌, ltb,
  leb, ◌==◌,
}
use webhook_inbox.Prelude.Text.{Str, codes, str_eq}
use webhook_inbox.Prelude.Dict.{Dict}
use webhook_inbox.Mongo.{Collection}
use webhook_inbox.Event.{Event, Codec}
use webhook_inbox.Replay.Destination.{ReplayConfig}
use webhook_inbox.Replay.Headers.{merge_headers}
use webhook_inbox.Prelude.Text.{Unicode}
use webhook_inbox.Replay.Runner.{Problem, event_gone, Attempt, succeeded}

pub data ReplayState : Type 0 where
  pending running success failed : ReplayState

abbrev pub is_pending : ReplayState → Bool
is_pending pending = true
is_pending _ = false

abbrev pub is_running : ReplayState → Bool
is_running running = true
is_running _ = false

-- ReplayCreate
pub record ReplayCreate : Type 0 where
  pub destination : Str
  pub method : Str
  pub headers : Dict Str

-- ReplayResponse
pub record ReplayResponse : Type 0 where
  pub status_code : ℕ
  pub headers : Dict Str
  pub body : Str
  pub truncated : Bool

-- A document of the `replays` collection.
pub record Replay : Type 0 where
  pub id : ℕ
  pub event_id : ℕ
  pub destination : Str
  pub method : Str
  pub headers : Dict Str
  pub state : ReplayState
  pub attempt : ℕ
  pub max_attempts : ℕ
  pub next_attempt_at : ℕ
  pub created_at : ℕ
  pub leased_at : Option ℕ
  pub started_at : Option ℕ
  pub completed_at : Option ℕ
  pub duration_ms : Option ℕ
  pub response : Option ReplayResponse
  pub error : Option Problem

abbrev pub id_of : Replay → ℕ
id_of r = r.id

-- timedelta(seconds=n)
abbrev pub seconds : ℕ → ℕ
seconds n = n * 1_000_000

-- The document that `enqueue` inserts.
unfoldable pub queued : ReplayConfig → ℕ → ℕ → ℕ → ReplayCreate → Replay
queued config now id event_id payload = record {
  id = id;
  event_id = event_id;
  destination = payload.destination;
  method = payload.method;
  headers = payload.headers;
  state = pending;
  attempt = 0;
  max_attempts = config.max_retries + 1;
  next_attempt_at = now;
  created_at = now;
  leased_at = none;
  started_at = none;
  completed_at = none;
  duration_ms = none;
  response = none;
  error = none;
}

-- {"state": "running", "leased_at": {"$lt": now - timeout}}: a missing time matches nothing.
unfoldable pub lease_expired : ReplayConfig → ℕ → Replay → Bool
lease_expired config now r =
    is_running r.state
    && (elim r.leased_at [ none ↦ false | some t ↦ ltb (t + seconds config.lease_timeout) now ])

abbrev pub released : Replay → Replay
released r = record r { state = pending }

-- {"state": "pending", "next_attempt_at": {"$lte": now}}
unfoldable pub is_due : ℕ → Replay → Bool
is_due now r = is_pending r.state && leb r.next_attempt_at now

unfoldable pub leased : ℕ → Replay → Replay
leased now r = record r {
  state = running;
  attempt = r.attempt + 1;
  leased_at = some now;
  started_at = some now;
}

unfoldable pub response_of : Attempt → Option ReplayResponse
response_of a = elim a.status_code [
  | none ↦ none
  | some status ↦
      some (record {
        status_code = status;
        headers = a.headers;
        body = a.body;
        truncated = a.truncated;
      })
]

-- The changes of `finish`, made to a stored document; `replay` is the worker's copy.
unfoldable pub finished_as : ReplayConfig → ℕ → Replay → Attempt → Replay → Replay
unfolding response_of
finished_as config now replay a stored =
    let reported = record stored {
      duration_ms = some a.duration_ms;
      response = response_of a;
      error = a.error;
    } in
    if succeeded a
    then record reported { state = success; completed_at = some now }
    else if a.retryable && ltb replay.attempt replay.max_attempts
    then record reported {
      state = pending;
      next_attempt_at = now + seconds (config.retry_delay_seconds * 2 ^ (replay.attempt - 1));
    }
    else record reported { state = failed; completed_at = some now }

-- The changes of `abandon`.
unfoldable pub abandoned : ℕ → Problem → Replay → Replay
abandoned now reason stored = record stored {
  state = failed;
  error = some reason;
  completed_at = some now;
}

-- `event_body`: the bytes that arrived.
unfoldable pub event_body : Codec → Event → List ℕ
event_body codec event =
    if str_eq event.request.raw_encoding (codes "base64")
    then codec.b64decode event.request.raw_body
    else codec.encode event.request.raw_body

module _ (replays : Collection Replay id_of) (config : ReplayConfig) where
  open replays use {State, insert_one, update_many, update_one, find_one_and_update}

  unfoldable pub enqueue : ℕ → ℕ → ℕ → ReplayCreate → State → Replay × State
  unfolding queued
  enqueue now id event_id payload s =
      (queued config now id event_id payload, insert_one (queued config now id event_id payload) s)

  -- The first half of `claim`: a worker that died leaves its job running; take it back.
  unfoldable pub release_expired : ℕ → State → State
  release_expired now s = update_many (lease_expired config now) released s

  unfoldable pub claim : ℕ → State → Option Replay × State
  unfolding release_expired
  claim now s =
      find_one_and_update (is_due now) (λ r. r.next_attempt_at) (leased now) (release_expired now s)

  unfoldable pub finish : ℕ → Replay → Attempt → State → State
  unfolding finished_as
  finish now replay a s = update_one replay.id (finished_as config now replay a) s

  unfoldable pub abandon : ℕ → Replay → Problem → State → State
  unfolding abandoned
  abandon now replay reason s = update_one replay.id (abandoned now reason) s

  -- What a worker can see happen while it runs one job.
  pub record Delivery : Type 0 where
    -- db.events.find_one({"_id": …})
    pub event : ℕ → Option Event
    -- `execute` to a destination, with a method, headers and a body: `none` is an exception
    pub execute : Str → Str → Dict Str → List ℕ → Option Attempt
    -- when the outcome is written
    pub finished_at : ℕ

  -- `run_once` from the claimed job on: whether there was one, or `none` for an exception that leaves
  -- `execute`, and the job as it is.
  run_job : Unicode → Codec → Delivery → Replay → Option Event → State → Option Bool × State
  unfolding finish abandon
  run_job u codec env replay none s = (some true, abandon env.finished_at replay event_gone s)
  run_job u codec env replay (some event) s =
      elim (env.execute replay.destination replay.method
        (merge_headers u event.request.headers replay.headers) (event_body codec event)) [
          | none ↦ (none, s)
          | some attempt ↦ (some true, finish env.finished_at replay attempt s)
        ]

  run_claimed : Unicode → Codec → Delivery → Option Replay × State → Option Bool × State
  unfolding run_job
  run_claimed u codec env (none, s) = (some false, s)
  run_claimed u codec env (some replay, s) =
      run_job u codec env replay (env.event replay.event_id) s

  unfoldable pub run_once : Unicode → Codec → ℕ → Delivery → State → Option Bool × State
  unfolding run_claimed
  run_once u codec now env s = run_claimed u codec env (claim now s)
