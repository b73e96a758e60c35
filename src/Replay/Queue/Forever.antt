-- ===== src/Replay/Queue/Forever.antt =====
-- `run_forever` of app/replay/worker.py: the loop around `run_once`.
use native.Mathlib.Nat.{add-mul}
use webhook_inbox.Prelude.{
  ℕ, suc, ◌+◌, ◌≤◌, ◌≡◌, ◌≢◌, Bool, true, false, List, [], ◌∷◌, Option, none, some, All, arith, ◌*◌,
  ◌≡◌, ◌==◌, length,
}
use webhook_inbox.Prelude.Text.{Unicode, Str}
use webhook_inbox.Prelude.Dict.{Dict}
use webhook_inbox.Mongo.{Collection}
use webhook_inbox.Event.{Codec}
use webhook_inbox.Replay.Destination.{ReplayConfig}
use webhook_inbox.Replay.Queue.{Replay, id_of, ReplayCreate, enqueue, Delivery, run_once}
use webhook_inbox.Replay.Queue.Settled.{IsCalm, total_left}
use webhook_inbox.Replay.Queue.Worker.{Round, idle, ran, run_once-Round, enqueue-IsCalm}

-- An exception counts as no work.
abbrev pub has_worked : Option Bool → Bool
has_worked none = false
has_worked (some worked) = worked

abbrev pub rounds_worked : List Bool → ℕ
rounds_worked [] = 0
rounds_worked (true ∷ worked) = suc (rounds_worked worked)
rounds_worked (false ∷ worked) = rounds_worked worked

module _ (replays : Collection Replay id_of) (config : ReplayConfig) where
  -- A call of `enqueue` while the worker runs, by a request.
  pub record Enqueue : Type 0 where
    pub at : ℕ
    pub id : ℕ
    pub event_id : ℕ
    pub payload : ReplayCreate

  -- A pass of the loop: the jobs that are queued since the last one, when it begins, and what the
  -- worker sees in it.
  pub record Turn : Type 0 where
    pub queued_before : List Enqueue
    pub now : ℕ
    pub delivery : Delivery replays config

  unfoldable pub enqueue_all : List Enqueue → replays.State → replays.State
  unfolding enqueue
  enqueue_all [] s = s
  enqueue_all (q ∷ qs) s =
      enqueue_all qs (enqueue replays config q.at q.id q.event_id q.payload s).1

  -- The passes until `stop` is set, with whether each worked: one that did not waits for
  -- `poll_interval`, so that the next begins later.
  unfoldable pub run_forever :
      Unicode → Codec → List Turn → replays.State → List Bool × replays.State
  unfolding run_once enqueue_all
  run_forever u codec [] s = ([], s)
  run_forever u codec (turn ∷ turns) s =
      let (worked, after) =
        run_once replays config u codec turn.now turn.delivery (enqueue_all turn.queued_before s) in
      let (rest, end) = run_forever u codec turns after in (has_worked worked ∷ rest, end)

  -- Every job is queued with an id that no job has.
  unfoldable pub AreFresh : List Enqueue → replays.State → Type 0
  unfolding enqueue
  AreFresh [] s = Unit
  AreFresh (q ∷ qs) s =
      All (λ r. (r.id == q.id) ≡ false) (replays.documents s)
      × AreFresh qs (enqueue replays config q.at q.id q.event_id q.payload s).1

  -- The driver draws fresh ids, and no delivery ends in an exception.
  unfoldable pub IsQuiet : Unicode → Codec → List Turn → replays.State → Type 0
  unfolding run_once enqueue_all AreFresh
  IsQuiet u codec [] s = Unit
  IsQuiet u codec (turn ∷ turns) s =
      AreFresh turn.queued_before s
      × ((url method : Str) (headers : Dict Str) (body : List ℕ)
          → turn.delivery.execute url method headers body ≢ none)
      × IsQuiet u codec turns
          (run_once replays config u codec turn.now turn.delivery
            (enqueue_all turn.queued_before s)).1

  abbrev pub number_queued : List Turn → ℕ
  number_queued [] = 0
  number_queued (turn ∷ turns) = length turn.queued_before + number_queued turns

  -- What the loop leaves: a calm queue, and every pass that worked has used one of the attempts that
  -- there were, or that came with a job that was queued.
  pub record IsUsedUp (before : List Replay) (jobs : ℕ) (worked : List Bool) (after : List Replay)
      : Type 0 where
    pub calm : IsCalm after
    pub used :
        rounds_worked worked + total_left after
        ≤ total_left before + jobs * (config.max_retries + 1)

  enqueue_all-IsCalm :
      (qs : List Enqueue) (s : replays.State)
      → AreFresh qs s
      → IsCalm (replays.documents s)
      → IsCalm (replays.documents (enqueue_all qs s))
        × (total_left (replays.documents (enqueue_all qs s))
            ≡ total_left (replays.documents s) + length qs * (config.max_retries + 1))
  unfolding enqueue_all AreFresh
  enqueue_all-IsCalm [] s fresh h = (h, omega arith)
  enqueue_all-IsCalm (q ∷ qs) s (new, fresh) h =
      let (calm, total) = enqueue-IsCalm replays config q.at q.id q.event_id q.payload s new h in
      let (calm_after, total_after) =
        enqueue_all-IsCalm qs (enqueue replays config q.at q.id q.event_id q.payload s).1 fresh
          calm in
      (
        calm_after,
        omega (arith, total, total_after, add-mul 1 (length qs) (config.max_retries + 1)),
      )

  turn-IsUsedUp :
      (now jobs : ℕ) (before between after : List Replay) (worked : Option Bool) (rest : List Bool)
      → IsCalm before
      → Round replays config now before worked between
      → (IsCalm between → IsUsedUp between jobs rest after)
      → IsUsedUp before jobs (has_worked worked ∷ rest) after
  turn-IsUsedUp now jobs before between after worked rest h (idle is same none_due) next =
      let n = next (rw same h) in record { calm = n.calm; used = rw is (rw same at (n.used)) }
  turn-IsUsedUp now jobs before between after worked rest h (ran is progress) next =
      let n = next progress.calm in
      record { calm = n.calm; used = rw is (omega (arith, n.used, progress.fewer)) }

  -- However long the only worker runs, and whatever jobs are queued between its passes: if the queue
  -- is calm at the start (ids apart, no job running, none tried more often than its `max_attempts`,
  -- and every job that waits with an attempt left), every new job has an id of its own, and no
  -- delivery ends in an exception, then the queue is calm in the end, and the passes that worked and
  -- the attempts that are left are together no more than the attempts that were left at the start
  -- and `max_retries` + 1 for every job that was queued.
  pub run_forever-IsUsedUp :
      (u : Unicode) (codec : Codec) (turns : List Turn) (s : replays.State)
      → IsQuiet u codec turns s
      → IsCalm (replays.documents s)
      → IsUsedUp
          (replays.documents s)
          (number_queued turns)
          (run_forever u codec turns s).0
          (replays.documents (run_forever u codec turns s).1)
  unfolding run_forever IsQuiet
  run_forever-IsUsedUp u codec [] s quiet h = record { calm = h; used = omega arith }
  run_forever-IsUsedUp u codec (turn ∷ turns) s (fresh, never, quiet) h =
      let queue = enqueue_all turn.queued_before s in
      let (calm, total) = enqueue_all-IsCalm turn.queued_before s fresh h in
      let round = run_once replays config u codec turn.now turn.delivery queue in
      let rest =
        turn-IsUsedUp turn.now (number_queued turns) (replays.documents queue)
          (replays.documents round.1) _ round.0 _ calm
          (run_once-Round replays config u codec turn.now turn.delivery queue never calm)
          (run_forever-IsUsedUp u codec turns round.1 quiet) in
      record {
        calm = rest.calm;
        used = omega (
          arith,
          rest.used,
          total,
          add-mul (length turn.queued_before) (number_queued turns) (config.max_retries + 1),
        );
      }
