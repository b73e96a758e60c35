-- ===== src/Replay/Queue/Settled.antt =====
-- The jobs of a queue between two rounds of its worker, and the attempts that they have left.
use mathlib.Core.List.{map-append}
use webhook_inbox.Prelude.{
  ℕ, ◌+◌, ◌-◌, ◌≤◌, ◌<◌, ◌≡◌, refl, ap, true, false, List, [], ◌∷◌, ◌++◌, map, ◌⊎◌, if◌then◌else◌,
  ◌==◌, All, All-append, All-middle, All-replace, arith,
}
use webhook_inbox.Replay.Destination.{ReplayConfig}
use webhook_inbox.Replay.Runner.{Attempt, event_gone}
use webhook_inbox.Replay.Queue.{
  is_pending, is_running, Replay, lease_expired, released, is_due, leased, finished_as, abandoned,
}

-- A job between two rounds of the worker: not running, within its attempts, and with one left if it
-- waits.
pub record IsSettled (r : Replay) : Type 0 where
  pub idle : is_running r.state ≡ false
  pub bounded : r.attempt ≤ r.max_attempts
  pub room : (is_pending r.state ≡ false) ⊎ (r.attempt < r.max_attempts)

abbrev pub HasDistinctIds : List Replay → Type 0
HasDistinctIds [] = Unit
HasDistinctIds (r ∷ rs) = All (λ e. (e.id == r.id) ≡ false) rs × HasDistinctIds rs

-- The attempts that a job has left.
abbrev pub attempts_left : Replay → ℕ
attempts_left r = if is_pending r.state then r.max_attempts - r.attempt else 0

abbrev pub total_left : List Replay → ℕ
total_left [] = 0
total_left (r ∷ rs) = attempts_left r + total_left rs

==_false_symm : (a b : ℕ) → (a == b) ≡ false → (b == a) ≡ false
==_false_symm a b h = ground arith

others-distinct :
    (front : List Replay) (r : Replay) (back : List Replay)
    → HasDistinctIds (front ++ r ∷ back)
    → All (λ e. (e.id == r.id) ≡ false) front × All (λ e. (e.id == r.id) ≡ false) back
others-distinct [] r back (h, d) = (tt, h)
others-distinct (x ∷ front) r back (h, d) =
    let (before, after) = others-distinct front r back d in
    let (_, apart, _) = All-middle (λ e. (e.id == x.id) ≡ false) front r back h in
    ((==_false_symm r.id x.id apart, before), after)

map-only :
    (id : ℕ) (change : Replay → Replay) (rs : List Replay)
    → All (λ e. (e.id == id) ≡ false) rs
    → map (λ e. if e.id == id then change e else e) rs ≡ rs
map-only id change [] h = refl
map-only id change (r ∷ rs) (p, h) = rw p (ap (λ t. r ∷ t) (map-only id change rs h))

-- An update by its id changes one document.
pub update_at :
    (front : List Replay) (r : Replay) (back : List Replay) (change : Replay → Replay)
    → HasDistinctIds (front ++ r ∷ back)
    → map (λ e. if e.id == r.id then change e else e) (front ++ r ∷ back) ≡ front ++ change r ∷ back
update_at front r back change h =
    let (before, after) = others-distinct front r back h in
    let here : (r.id == r.id) ≡ true = ground arith in
    rw (
      map-append _ front (r ∷ back),
      map-only r.id change front before,
      here,
      map-only r.id change back after,
    )

pub no_release :
    (config : ReplayConfig) (now : ℕ) (rs : List Replay)
    → All IsSettled rs
    → map (λ r. if lease_expired config now r then released r else r) rs ≡ rs
unfolding lease_expired
no_release config now [] h = refl
no_release config now (r ∷ rs) (p, h) = rw p.idle (ap (λ t. r ∷ t) (no_release config now rs h))

pub replace-HasDistinctIds :
    (front : List Replay) (r r' : Replay) (back : List Replay)
    → r'.id ≡ r.id
    → HasDistinctIds (front ++ r ∷ back)
    → HasDistinctIds (front ++ r' ∷ back)
replace-HasDistinctIds [] r r' back e (p, h) = (rw e p, h)
replace-HasDistinctIds (x ∷ front) r r' back e (p, h) =
    let (before, here, after) = All-middle (λ y. (y.id == x.id) ≡ false) front r back p in
    (
      All-append (λ y. (y.id == x.id) ≡ false) front (r' ∷ back) before (rw e here, after),
      replace-HasDistinctIds front r r' back e h,
    )

replace-total_left :
    (front : List Replay) (r r' : Replay) (back : List Replay)
    → attempts_left r' < attempts_left r
    → total_left (front ++ r' ∷ back) < total_left (front ++ r ∷ back)
replace-total_left [] r r' back h = omega arith
replace-total_left (x ∷ front) r r' back h = omega (arith, replace-total_left front r r' back h)

-- What became of a job in one round.
pub record Advanced (old r : Replay) : Type 0 where
  pub settled : IsSettled r
  pub fewer : attempts_left r < attempts_left old
  pub same_id : r.id ≡ old.id

pub finish-Advanced :
    (config : ReplayConfig) (now later : ℕ) (old : Replay) (a : Attempt)
    → IsSettled old
    → is_due now old ≡ true
    → Advanced old (finished_as config later (leased now old) a (leased now old))
unfolding finished_as leased is_due
finish-Advanced config now later old a h due = ground arith

pub abandon-Advanced :
    (now later : ℕ) (old : Replay)
    → IsSettled old
    → is_due now old ≡ true
    → Advanced old (abandoned later event_gone (leased now old))
unfolding abandoned leased is_due
abandon-Advanced now later old h due = ground arith

-- A collection in which every job is settled, and no id stands twice.
pub record IsCalm (rs : List Replay) : Type 0 where
  pub settled : All IsSettled rs
  pub distinct : HasDistinctIds rs

-- The next collection is calm too, and fewer attempts are left.
pub record Progress (before after : List Replay) : Type 0 where
  pub calm : IsCalm after
  pub fewer : total_left after < total_left before

pub advance-Progress :
    (front : List Replay) (old r : Replay) (back : List Replay)
    → IsCalm (front ++ old ∷ back)
    → Advanced old r
    → Progress (front ++ old ∷ back) (front ++ r ∷ back)
advance-Progress front old r back h a = record {
  calm = record {
    settled = All-replace IsSettled front old r back a.settled h.settled;
    distinct = replace-HasDistinctIds front old r back a.same_id h.distinct;
  };
  fewer = replace-total_left front old r back a.fewer;
}

append-HasDistinctIds :
    (rs : List Replay) (r : Replay)
    → All (λ e. (e.id == r.id) ≡ false) rs
    → HasDistinctIds rs
    → HasDistinctIds (rs ++ r ∷ [])
append-HasDistinctIds [] r fresh h = (tt, tt)
append-HasDistinctIds (x ∷ rs) r (apart, fresh) (p, h) = (
  All-append (λ e. (e.id == x.id) ≡ false) rs (r ∷ []) p (==_false_symm x.id r.id apart, tt),
  append-HasDistinctIds rs r fresh h,
)

total_left-append :
    (rs : List Replay) (r : Replay) → total_left (rs ++ r ∷ []) ≡ total_left rs + attempts_left r
total_left-append [] r = omega arith
total_left-append (x ∷ rs) r = omega (arith, total_left-append rs r)

pub append-IsCalm :
    (rs : List Replay) (r : Replay)
    → IsSettled r
    → All (λ e. (e.id == r.id) ≡ false) rs
    → IsCalm rs
    → IsCalm (rs ++ r ∷ []) × (total_left (rs ++ r ∷ []) ≡ total_left rs + attempts_left r)
append-IsCalm rs r settled fresh h = (
  record {
    settled = All-append IsSettled rs (r ∷ []) h.settled (settled, tt);
    distinct = append-HasDistinctIds rs r fresh h.distinct;
  },
  total_left-append rs r,
)
