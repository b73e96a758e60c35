-- ===== src/Replay/Queue/Worker.antt =====
-- One worker and no lost leases: the loop of a worker that runs each claimed job to its end.
use webhook_inbox.Prelude.{
  ℕ, ◌+◌, ◌≡◌, ◌≢◌, refl, sym, ◌∙◌, Bool, true, false, List, ◌∷◌, ◌++◌, Option, none, some, inl,
  inr, ◌==◌, All, All-middle, arith, Option-cases,
}
use webhook_inbox.Prelude.Text.{Unicode, Str}
use webhook_inbox.Prelude.Dict.{Dict}
use webhook_inbox.Mongo.{Collection}
use webhook_inbox.Event.{Event, Codec}
use webhook_inbox.Replay.Destination.{ReplayConfig}
use webhook_inbox.Replay.Headers.{merge_headers}
use webhook_inbox.Replay.Runner.{event_gone}
use webhook_inbox.Replay.Queue.{
  Replay, id_of, lease_expired, released, is_due, leased, finished_as, abandoned, event_body,
  release_expired, claim, finish, abandon, Delivery, run_job, run_claimed, run_once, ReplayCreate,
  queued, enqueue,
}
use webhook_inbox.Replay.Queue.Settled.{
  IsSettled, total_left, no_release, update_at, replace-HasDistinctIds, Advanced, finish-Advanced,
  abandon-Advanced, IsCalm, Progress, advance-Progress, append-IsCalm,
}

module _ (replays : Collection Replay id_of) (config : ReplayConfig) where
  -- A claimed job: where it stood, and what the collection holds now.
  record Claimed (now : ℕ) (s after : replays.State) (new : Replay) : Type 0 where
    old : Replay
    front : List Replay
    back : List Replay
    stood : replays.documents s ≡ front ++ old ∷ back
    stands : replays.documents after ≡ front ++ leased now old ∷ back
    new_is : new ≡ leased now old
    due : is_due now old ≡ true

  released-same :
      (now : ℕ) (s : replays.State)
      → All IsSettled (replays.documents s)
      → replays.documents (release_expired replays config now s) ≡ replays.documents s
  unfolding release_expired
  released-same now s h =
      replays.documents-update_many (lease_expired config now) released s
      ∙ no_release config now (replays.documents s) h

  claim-Claimed :
      (now : ℕ) (s after : replays.State) (new : Replay)
      → All IsSettled (replays.documents s)
      → claim replays config now s ≡ (some new, after)
      → Claimed now s after new
  unfolding claim
  claim-Claimed now s after new h e =
      let u =
        replays.updated_some (is_due now) (λ r. r.next_attempt_at) (leased now)
          (release_expired replays config now s) after new e in
      record {
        old = u.old;
        front = u.front;
        back = u.back;
        stood = sym (released-same now s h) ∙ u.stood;
        stands = rw (← u.changed) u.stands;
        new_is = u.changed;
        due = u.matched;
      }

  update-Progress :
      (now : ℕ) (s after : replays.State) (new : Replay) (change : Replay → Replay)
      → IsCalm (replays.documents s)
      → (c : Claimed now s after new) → Advanced c.old (change (leased now c.old))
      → Progress (replays.documents s) (replays.documents (replays.update_one new.id change after))
  unfolding leased
  update-Progress now s after new change h c a =
      let apart =
        replace-HasDistinctIds c.front c.old (leased now c.old) c.back refl
          (rw c.stood at (h.distinct)) in
      let changed : replays.documents (replays.update_one new.id change after)
          ≡ c.front ++ change (leased now c.old) ∷ c.back =
        replays.documents-update_one new.id change after
        ∙ rw (c.stands, c.new_is) (update_at c.front (leased now c.old) c.back change apart) in
      rw (changed, c.stood)
        (advance-Progress c.front c.old (change (leased now c.old)) c.back (rw c.stood at h) a)

  Claimed-IsSettled :
      (now : ℕ) (s after : replays.State) (new : Replay)
      → IsCalm (replays.documents s)
      → (c : Claimed now s after new) → IsSettled c.old
  Claimed-IsSettled now s after new h c =
      let (_, here, _) = All-middle IsSettled c.front c.old c.back (rw c.stood at (h.settled)) in
      here

  run_job-Progress :
      (u : Unicode) (codec : Codec) (now : ℕ) (env : Delivery replays config)
      (s after : replays.State) (new : Replay) (event : Option Event)
      → ((url method : Str) (headers : Dict Str) (body : List ℕ)
          → env.execute url method headers body ≢ none)
      → IsCalm (replays.documents s)
      → Claimed now s after new
      → ((run_job replays config u codec env new event after).0 ≡ some true)
        × Progress
            (replays.documents s)
            (replays.documents (run_job replays config u codec env new event after).1)
  unfolding run_job finish abandon
  run_job-Progress u codec now env s after new none never h c = (
    refl,
    update-Progress now s after new (abandoned env.finished_at event_gone) h c
        (abandon-Advanced now env.finished_at c.old (Claimed-IsSettled now s after new h c) c.due),
  )
  run_job-Progress u codec now env s after new (some event) never h c =
      let headers = merge_headers u event.request.headers new.headers in
      let body = event_body codec event in
      elim (Option-cases (env.execute new.destination new.method headers body)) [
        | inl raised ↦ absurd (never new.destination new.method headers body raised)
        | inr (a, answered) ↦
            rw (answered, run_job)
              (
                refl,
                update-Progress now s after new (finished_as config env.finished_at new a) h c (
                    rw c.new_is (
                      finish-Advanced config now env.finished_at c.old a
                        (Claimed-IsSettled now s after new h c) c.due)),
              )
      ]

  -- How a round of the only worker can end.
  pub data Round (now : ℕ) (before : List Replay) (worked : Option Bool) (after : List Replay)
      : Type 0 where
    idle :
        worked ≡ some false
        → after ≡ before
        → All (λ r. is_due now r ≡ false) before
        → Round now before worked after
    ran : worked ≡ some true → Progress before after → Round now before worked after

  run_claimed-Round :
      (u : Unicode) (codec : Codec) (now : ℕ) (env : Delivery replays config) (s : replays.State)
      (claimed : Option Replay × replays.State)
      → ((url method : Str) (headers : Dict Str) (body : List ℕ)
          → env.execute url method headers body ≢ none)
      → IsCalm (replays.documents s)
      → claim replays config now s ≡ claimed
      → Round now
          (replays.documents s)
          (run_claimed replays config u codec env claimed).0
          (replays.documents (run_claimed replays config u codec env claimed).1)
  unfolding run_claimed claim
  run_claimed-Round u codec now env s (none, after) never h e =
      let (same, not_due) =
        replays.updated_none (is_due now) (λ r. r.next_attempt_at) (leased now)
          (release_expired replays config now s) after e in
      let released = released-same now s h.settled in
      idle refl (same ∙ released) (rw (← released) not_due)
  run_claimed-Round u codec now env s (some new, after) never h e =
      let (worked, progress) =
        run_job-Progress u codec now env s after new (env.event new.event_id) never h
          (claim-Claimed now s after new h.settled e) in
      ran worked progress

  -- In a round of the only worker, if no delivery ends in an exception and the queue is calm before
  -- (ids apart, no job running, none tried more often than its `max_attempts`, and every job that
  -- waits with an attempt left), either no job is due and nothing changes, or one job is run: the
  -- queue is calm again, and the attempts left in it are fewer.
  pub run_once-Round :
      (u : Unicode) (codec : Codec) (now : ℕ) (env : Delivery replays config) (s : replays.State)
      → ((url method : Str) (headers : Dict Str) (body : List ℕ)
          → env.execute url method headers body ≢ none)
      → IsCalm (replays.documents s)
      → Round now
          (replays.documents s)
          (run_once replays config u codec now env s).0
          (replays.documents (run_once replays config u codec now env s).1)
  unfolding run_once
  run_once-Round u codec now env s never h =
      run_claimed-Round u codec now env s (claim replays config now s) never h refl

  -- A new job with a fresh id leaves the queue calm, and adds its attempts.
  pub enqueue-IsCalm :
      (now id event_id : ℕ) (payload : ReplayCreate) (s : replays.State)
      → All (λ r. (r.id == id) ≡ false) (replays.documents s)
      → IsCalm (replays.documents s)
      → IsCalm (replays.documents (enqueue replays config now id event_id payload s).1)
        × (total_left (replays.documents (enqueue replays config now id event_id payload s).1)
            ≡ total_left (replays.documents s) + (config.max_retries + 1))
  unfolding enqueue
  enqueue-IsCalm now id event_id payload s fresh h =
      let settled : IsSettled (queued config now id event_id payload) = ground arith in
      let (calm, total) =
        append-IsCalm (replays.documents s) (queued config now id event_id payload) settled fresh
          h in
      rw (replays.documents-insert_one (queued config now id event_id payload) s)
        (calm, omega (arith, total))
