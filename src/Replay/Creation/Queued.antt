-- ===== src/Replay/Creation/Queued.antt =====
-- What is queued was checked.
use webhook_inbox.Prelude.{
  ℕ, ◌≡◌, refl, Bool, true, false, [], ◌∷◌, ◌++◌, Option, none, some, if◌then◌else◌, Bool-cases,
  inl, inr,
}
use webhook_inbox.Prelude.Text.{Str, Unicode}
use webhook_inbox.Mongo.{Collection}
use webhook_inbox.Event.{Event, event_id_of}
use webhook_inbox.Search.Query.{Formats}
use webhook_inbox.Replay.Destination.{
  Network, ReplayConfig, Checked, ok, refused, raised, Destination, validate,
}
use webhook_inbox.Replay.Destination.Safety.{IsSafe, validate-IsSafe}
use webhook_inbox.Replay.Queue.{Replay, ReplayCreate, id_of, enqueue, queued}
use webhook_inbox.Replay.Creation.{
  Created, denied, accepted, validate_replay, event_or_404, queue_checked, queue_for, create_valid,
  create_replay, submit_checked, submit_valid, submit_for, replay_submit,
}

-- What holds in both branches, each with what its test says.
if_either :
    {A : Type 0} (P : A → Type 0) (b : Bool) {x y : A}
    → (b ≡ true → P x)
    → (b ≡ false → P y)
    → P (if b then x else y)
if_either P true h k = h refl
if_either P false h k = k refl

module _ (net : Network) (u : Unicode) (f : Formats) (events : Collection Event event_id_of)
    (replays : Collection Replay id_of) (config : ReplayConfig) (es : events.State) where
  -- The replay that a request leads to, with what was checked before.
  pub record IsChecked (moment now id : ℕ) (event_id : Str) (payload : ReplayCreate)
      (before : replays.State) (replay : Replay) (after : replays.State) : Type 0 where
    pub enabled : config.enabled ≡ true
    pub event : Event
    pub found : event_or_404 net u f events replays config es event_id ≡ some event
    pub checked : ReplayCreate
    pub valid : validate_replay u payload ≡ some checked
    pub destination : Destination net
    pub safe : IsSafe net config moment destination
    pub passed : validate net config moment checked.destination ≡ ok destination
    pub made : replay ≡ queued config now id event.id checked
    pub inserted : replays.documents after ≡ replays.documents before ++ replay ∷ []

  -- A denied request leaves the queue as it is.
  abbrev pub IsHandled :
      ℕ → ℕ → ℕ → Str → ReplayCreate → replays.State → Created → replays.State → Type 0
  IsHandled moment now id event_id payload before (denied status) after = after ≡ before
  IsHandled moment now id event_id payload before (accepted replay) after =
      IsChecked moment now id event_id payload before replay after

  queue_checked-IsHandled :
      (moment now id : ℕ) (event_id : Str) (payload checked : ReplayCreate) (before : replays.State)
      (event : Event) (c : Checked (Destination net))
      → config.enabled ≡ true
      → event_or_404 net u f events replays config es event_id ≡ some event
      → validate_replay u payload ≡ some checked
      → validate net config moment checked.destination ≡ c
      → IsHandled moment now id event_id payload before
          (queue_checked net u f events replays config es now id event checked before c).0
          (queue_checked net u f events replays config es now id event checked before c).1
  unfolding queue_checked enqueue
  queue_checked-IsHandled moment now id event_id payload checked before event (refused e) on found
        valid passed =
      refl
  queue_checked-IsHandled moment now id event_id payload checked before event raised on found valid
        passed =
      refl
  queue_checked-IsHandled moment now id event_id payload checked before event (ok d) on found valid
        passed =
      record {
        enabled = on;
        event = event;
        found = found;
        checked = checked;
        valid = valid;
        destination = d;
        safe = validate-IsSafe net config moment checked.destination d passed;
        passed = passed;
        made = refl;
        inserted = replays.documents-insert_one (queued config now id event.id checked) before;
      }

  queue_for-IsHandled :
      (moment now id : ℕ) (event_id : Str) (payload checked : ReplayCreate) (before : replays.State)
      (o : Option Event)
      → config.enabled ≡ true
      → event_or_404 net u f events replays config es event_id ≡ o
      → validate_replay u payload ≡ some checked
      → IsHandled moment now id event_id payload before
          (queue_for net u f events replays config es moment now id checked before o).0
          (queue_for net u f events replays config es moment now id checked before o).1
  unfolding queue_for
  queue_for-IsHandled moment now id event_id payload checked before none on found valid = refl
  queue_for-IsHandled moment now id event_id payload checked before (some event) on found valid =
      queue_checked-IsHandled moment now id event_id payload checked before event
        (validate net config moment checked.destination) on found valid refl

  create_valid-IsHandled :
      (moment now id : ℕ) (event_id : Str) (payload : ReplayCreate) (before : replays.State)
      (o : Option ReplayCreate)
      → validate_replay u payload ≡ o
      → IsHandled moment now id event_id payload before
          (create_valid net u f events replays config es moment now id event_id before o).0
          (create_valid net u f events replays config es moment now id event_id before o).1
  unfolding create_valid
  create_valid-IsHandled moment now id event_id payload before none valid = refl
  create_valid-IsHandled moment now id event_id payload before (some checked) valid =
      if_either
        (λ (r : Created × replays.State). IsHandled moment now id event_id payload before r.0 r.1)
        config.enabled
        (λ on.
          queue_for-IsHandled moment now id event_id payload checked before
            (event_or_404 net u f events replays config es event_id) on refl valid)
        (λ off. refl)

  -- Whatever is asked for, either it is denied and the queue stays as it is, or exactly one replay is
  -- added to it: replaying is enabled, the event exists, the method is a known one, and the
  -- destination has just passed the check against internal networks.
  pub create_replay-IsHandled :
      (moment now id : ℕ) (event_id : Str) (payload : ReplayCreate) (before : replays.State)
      → IsHandled moment now id event_id payload before
          (create_replay net u f events replays config es moment now id event_id payload before).0
          (create_replay net u f events replays config es moment now id event_id payload before).1
  unfolding create_replay
  create_replay-IsHandled moment now id event_id payload before =
      create_valid-IsHandled moment now id event_id payload before (validate_replay u payload) refl

  checked_same :
      (now id : ℕ) (event : Event) (payload : ReplayCreate) (rs : replays.State)
      (c : Checked (Destination net))
      → (submit_checked net u f events replays config es now id event payload rs c).1
        ≡ (queue_checked net u f events replays config es now id event payload rs c).1
  unfolding submit_checked queue_checked
  checked_same now id event payload rs (refused e) = refl
  checked_same now id event payload rs raised = refl
  checked_same now id event payload rs (ok d) = refl

  valid_same :
      (moment now id : ℕ) (event_id : Str) (rs : replays.State) (found : Option Event)
      (payload : ReplayCreate) (valid : Option ReplayCreate)
      → event_or_404 net u f events replays config es event_id ≡ found
      → validate_replay u payload ≡ valid
      → (submit_for net u f events replays config es moment now id payload rs found).1
        ≡ (create_valid net u f events replays config es moment now id event_id rs valid).1
  unfolding submit_for create_valid submit_valid queue_for
  valid_same moment now id event_id rs none payload none found valid = refl
  valid_same moment now id event_id rs none payload (some checked) found valid =
      if_either (λ (r : Created × replays.State). rs ≡ r.1) config.enabled (λ on. simp found refl)
        (λ off. refl)
  valid_same moment now id event_id rs (some event) payload none found valid =
      if_either (λ (r : Created × replays.State). r.1 ≡ rs) config.enabled (λ on. simp valid refl)
        (λ off. refl)
  valid_same moment now id event_id rs (some event) payload (some checked) found valid =
      elim (Bool-cases config.enabled) [
        | inl on ↦
            simp (on, found, valid)
              (checked_same now id event checked rs
                (validate net config moment checked.destination))
        | inr off ↦ simp off refl
      ]

  -- The form of the page and the API queue the same, for the same event, destination and method.
  pub replay_submit-create_replay :
      (moment now id : ℕ) (event_id destination method : Str) (rs : replays.State)
      → (replay_submit net u f events replays config es moment now id event_id destination method
          rs).1
        ≡ (create_replay net u f events replays config es moment now id event_id
            (record { destination = destination; method = method; headers = [] })
            rs).1
  unfolding replay_submit create_replay
  replay_submit-create_replay moment now id event_id destination method rs =
      let payload : ReplayCreate = record {
        destination = destination;
        method = method;
        headers = [];
      } in
      valid_same moment now id event_id rs (event_or_404 net u f events replays config es event_id)
        payload (validate_replay u payload) refl refl
