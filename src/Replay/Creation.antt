-- ===== src/Replay/Creation.antt =====
-- How a replay is asked for: ReplayCreate of app/models/replay.py, create_replay of
-- app/api/replays.py, and replay_submit of app/web/routes.py.
pub mod Queued
use webhook_inbox.Prelude.{
  ℕ, ◌≡◌, Bool, true, false, not, List, [], ◌∷◌, Option, none, some, if◌then◌else◌, is_empty, ◌==◌,
}
use webhook_inbox.Prelude.Text.{Str, Unicode, codes, strip, one_of}
use webhook_inbox.Prelude.Dict.{Dict}
use webhook_inbox.Mongo.{Collection}
use webhook_inbox.Event.{Event, event_id_of}
use webhook_inbox.Endpoint.Validation.{allowed_methods}
use webhook_inbox.Search.Query.{Formats}
use webhook_inbox.Replay.Destination.{
  Network, ReplayConfig, Checked, ok, refused, raised, Destination, validate,
}
use webhook_inbox.Replay.Queue.{Replay, ReplayCreate, id_of, enqueue}

-- The validators of ReplayCreate: `none` is a ValidationError.
unfoldable pub validate_replay : Unicode → ReplayCreate → Option ReplayCreate
unfolding strip one_of
validate_replay u payload =
    let method = u.upper (strip payload.method) in
    if is_empty (strip payload.destination)
    then none
    else if one_of method allowed_methods
    then some (record payload { destination = strip payload.destination; method = method })
    else none

-- What becomes of the request: it is denied with a status, or a replay is queued.
pub data Created : Type 0 where
  denied : (status : ℕ) → Created
  accepted : Replay → Created

module _ (net : Network) (u : Unicode) (f : Formats) (events : Collection Event event_id_of)
    (replays : Collection Replay id_of) (config : ReplayConfig) (es : events.State) where
  -- event_or_404 and _event_or_404: `none` is a 404
  unfoldable pub event_or_404 : Str → Option Event
  event_or_404 event_id = elim (f.object_id event_id) [
    | none ↦ none
    | some id ↦ events.find_one (λ e. e.id == id) es
  ]

  queue_checked :
      ℕ
      → ℕ
      → Event
      → ReplayCreate
      → replays.State
      → Checked (Destination net)
      → Created × replays.State
  queue_checked now id event payload rs (refused e) = (denied 400, rs)
  queue_checked now id event payload rs raised = (denied 500, rs)
  queue_checked now id event payload rs (ok d) =
      let (replay, after) = enqueue replays config now id event.id payload rs in
      (accepted replay, after)

  queue_for : ℕ → ℕ → ℕ → ReplayCreate → replays.State → Option Event → Created × replays.State
  unfolding queue_checked
  queue_for moment now id payload rs none = (denied 404, rs)
  queue_for moment now id payload rs (some event) =
      queue_checked now id event payload rs (validate net config moment payload.destination)

  create_valid : ℕ → ℕ → ℕ → Str → replays.State → Option ReplayCreate → Created × replays.State
  unfolding queue_for event_or_404
  create_valid moment now id event_id rs none = (denied 422, rs)
  create_valid moment now id event_id rs (some payload) =
      if config.enabled
      then queue_for moment now id payload rs (event_or_404 event_id)
      else (denied 403, rs)

  -- `moment` is when the destination is resolved; the id is drawn by the driver.
  unfoldable pub create_replay :
      ℕ → ℕ → ℕ → Str → ReplayCreate → replays.State → Created × replays.State
  unfolding create_valid validate_replay
  create_replay moment now id event_id payload rs =
      create_valid moment now id event_id rs (validate_replay u payload)

  submit_checked :
      ℕ
      → ℕ
      → Event
      → ReplayCreate
      → replays.State
      → Checked (Destination net)
      → Created × replays.State
  submit_checked now id event payload rs (refused e) = (denied 200, rs)
  submit_checked now id event payload rs raised = (denied 500, rs)
  submit_checked now id event payload rs (ok d) =
      let (replay, after) = enqueue replays config now id event.id payload rs in
      (accepted replay, after)

  submit_valid : ℕ → ℕ → ℕ → Event → replays.State → Option ReplayCreate → Created × replays.State
  unfolding submit_checked
  submit_valid moment now id event rs none = (denied 200, rs)
  submit_valid moment now id event rs (some payload) =
      submit_checked now id event payload rs (validate net config moment payload.destination)

  submit_for : ℕ → ℕ → ℕ → ReplayCreate → replays.State → Option Event → Created × replays.State
  unfolding submit_valid validate_replay
  submit_for moment now id payload rs none = (denied 404, rs)
  submit_for moment now id payload rs (some event) =
      if config.enabled
      then submit_valid moment now id event rs (validate_replay u payload)
      else (denied 403, rs)

  -- The form of the page: an error is shown on the page, which is a 200.
  unfoldable pub replay_submit :
      ℕ → ℕ → ℕ → Str → Str → Str → replays.State → Created × replays.State
  unfolding submit_for event_or_404
  replay_submit moment now id event_id destination method rs =
      submit_for moment now id (record { destination = destination; method = method; headers = [] })
        rs (event_or_404 event_id)
