-- ===== src/Replay/Queue/Leases.antt =====
-- What a claim may do to the jobs when several workers share the queue, and workers may die.
use mathlib.Core.Path.{subst}
use webhook_inbox.Prelude.{
  ℕ, ◌+◌, ◌≡◌, refl, sym, ap, ◌∙◌, true, false, List, [], ◌∷◌, ◌++◌, map, Option, none, some, inl,
  inr, if◌then◌else◌, arith, Bool-cases,
}
use webhook_inbox.Mongo.{Collection}
use webhook_inbox.Replay.Destination.{ReplayConfig}
use webhook_inbox.Replay.Queue.{
  Replay, id_of, lease_expired, released, is_due, leased, release_expired, claim,
}

-- What one claim can do to a stored job: nothing; take it back from a worker whose lease ran out;
-- lease a job that is due; or both.
pub data Step (config : ReplayConfig) (now : ℕ) (before : Replay) : Replay → Type 0 where
  same : Step config now before before
  release : lease_expired config now before ≡ true → Step config now before (released before)
  lease : is_due now before ≡ true → Step config now before (leased now before)
  release_and_lease :
      lease_expired config now before ≡ true
      → is_due now (released before) ≡ true
      → Step config now before (leased now (released before))

abbrev pub Pointwise : (Replay → Replay → Type 0) → List Replay → List Replay → Type 0
Pointwise R [] [] = Unit
Pointwise R (x ∷ xs) (y ∷ ys) = R x y × Pointwise R xs ys
Pointwise R _ _ = ⊥

abbrev release_one : ReplayConfig → ℕ → Replay → Replay
release_one config now r = if lease_expired config now r then released r else r

release-Step :
    (config : ReplayConfig) (now : ℕ) (r : Replay) → Step config now r (release_one config now r)
release-Step config now r = elim (Bool-cases (lease_expired config now r)) [
  | inl over ↦ rw over (release over)
  | inr live ↦ simp live same
]

release-Pointwise :
    (config : ReplayConfig) (now : ℕ) (rs : List Replay)
    → Pointwise (Step config now) rs (map (release_one config now) rs)
release-Pointwise config now [] = tt
release-Pointwise config now (r ∷ rs) = (release-Step config now r, release-Pointwise config now rs)

lease-Step :
    (config : ReplayConfig) (now : ℕ) (r : Replay)
    → is_due now (release_one config now r) ≡ true
    → Step config now r (leased now (release_one config now r))
lease-Step config now r due = elim (Bool-cases (lease_expired config now r)) [
  | inl over ↦ rw over (release_and_lease over (rw over at due))
  | inr live ↦ simp live (lease (simp live at due))
]

-- Releasing every job and leasing one of them is a step for each.
lease-Pointwise :
    (config : ReplayConfig) (now : ℕ) (rs front : List Replay) (old : Replay) (back : List Replay)
    → map (release_one config now) rs ≡ front ++ old ∷ back
    → is_due now old ≡ true
    → Pointwise (Step config now) rs (front ++ leased now old ∷ back)
lease-Pointwise config now [] [] old back e due = absurd (ground arith)
lease-Pointwise config now [] (x ∷ front) old back e due = absurd (ground arith)
lease-Pointwise config now (r ∷ rs) [] old back e due =
    let head : release_one config now r ≡ old = cc in
    let tail : map (release_one config now) rs ≡ back = cc in
    (
      subst (λ x. Step config now r (leased now x)) head
          (lease-Step config now r (subst (λ x. is_due now x ≡ true) (sym head) due)),
      subst (Pointwise (Step config now) rs) tail (release-Pointwise config now rs),
    )
lease-Pointwise config now (r ∷ rs) (x ∷ front) old back e due =
    let head : release_one config now r ≡ x = cc in
    let tail : map (release_one config now) rs ≡ front ++ old ∷ back = cc in
    (
      subst (Step config now r) head (release-Step config now r),
      lease-Pointwise config now rs front old back tail due,
    )

-- A step leaves alone a job that is not due and whose lease, if it has one, has not run out: so no
-- finished job, and none that another worker holds.
pub Step-same :
    (config : ReplayConfig) (now : ℕ) (r r' : Replay)
    → is_due now r ≡ false
    → lease_expired config now r ≡ false
    → Step config now r r'
    → r' ≡ r
Step-same config now r r' waits live same = refl
Step-same config now r r' waits live (release over) = cc
Step-same config now r r' waits live (lease due) = cc
Step-same config now r r' waits live (release_and_lease over due) = cc

only_item :
    (front : List Replay) (old : Replay) (back : List Replay) (r : Replay)
    → front ++ old ∷ back ≡ r ∷ []
    → old ≡ r
only_item [] old back r e = cc
only_item (x ∷ []) old back r e = absurd (ground arith)
only_item (x ∷ y ∷ front) old back r e = absurd (ground arith)

module _ (replays : Collection Replay id_of) (config : ReplayConfig) where
  documents-release :
      (now : ℕ) (s : replays.State)
      → replays.documents (release_expired replays config now s)
        ≡ map (release_one config now) (replays.documents s)
  unfolding release_expired
  documents-release now s = replays.documents-update_many (lease_expired config now) released s

  claimed-Pointwise :
      (now : ℕ) (s : replays.State) (claimed : Option Replay × replays.State)
      → claim replays config now s ≡ claimed
      → Pointwise (Step config now) (replays.documents s) (replays.documents claimed.1)
  unfolding claim
  claimed-Pointwise now s (none, after) e =
      let (same_docs, _) =
        replays.updated_none (is_due now) (λ r. r.next_attempt_at) (leased now)
          (release_expired replays config now s) after e in
      rw (same_docs ∙ documents-release now s) (release-Pointwise config now (replays.documents s))
  claimed-Pointwise now s (some new, after) e =
      let u =
        replays.updated_some (is_due now) (λ r. r.next_attempt_at) (leased now)
          (release_expired replays config now s) after new e in
      rw (u.stands, u.changed)
        (lease-Pointwise config now (replays.documents s) u.front u.old u.back
          (sym (documents-release now s) ∙ u.stood) u.matched)

  -- A claim makes one of these steps for each job, and adds or removes none.
  pub claim-Pointwise :
      (now : ℕ) (s : replays.State)
      → Pointwise
          (Step config now)
          (replays.documents s)
          (replays.documents (claim replays config now s).1)
  claim-Pointwise now s = claimed-Pointwise now s (claim replays config now s) refl

  single-claim :
      (now : ℕ) (s : replays.State) (r : Replay) (claimed : Option Replay × replays.State)
      → replays.documents s ≡ r ∷ []
      → lease_expired config now r ≡ true
      → is_due now (released r) ≡ true
      → claim replays config now s ≡ claimed
      → claimed.0 ≡ some (leased now (released r))
  unfolding claim
  single-claim now s r (none, after) e over due h =
      let (_, not_due) =
        replays.updated_none (is_due now) (λ x. x.next_attempt_at) (leased now)
          (release_expired replays config now s) after h in
      let (waits, _) = rw (documents-release now s, e, over) at not_due in absurd (cc)
  single-claim now s r (some new, after) e over due h =
      let u =
        replays.updated_some (is_due now) (λ x. x.next_attempt_at) (leased now)
          (release_expired replays config now s) after new h in
      let one : released r ∷ [] ≡ u.front ++ u.old ∷ u.back =
        rw (documents-release now s, e, over) at (u.stood) in
      let it = only_item u.front u.old u.back (released r) (sym one) in
      ap some (u.changed ∙ ap (leased now) it)

  -- The only job of a queue, if its lease ran out and it is due, is claimed again even if it has used
  -- up its attempts: the count goes one past `max_attempts`.
  claim-past_max :
      (now : ℕ) (s : replays.State) (r : Replay)
      → replays.documents s ≡ r ∷ []
      → lease_expired config now r ≡ true
      → is_due now (released r) ≡ true
      → r.attempt ≡ r.max_attempts
      → (new : Replay) × ((claim replays config now s).0 ≡ some new)
        × (new.attempt ≡ new.max_attempts + 1)
  claim-past_max now s r e over due spent = (
    leased now (released r),
    single-claim now s r (claim replays config now s) e over due refl,
    unfold leased in (ap (λ n. n + 1) spent),
  )
