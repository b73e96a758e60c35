-- ===== src/RateLimit/Level.antt =====
-- The tokens that a key has left at a time: the view that forgets which buckets are stored.
use native.Mathlib.Nat.{le_refl, add-mul, mul_comm, mul-le-mul_right, div-eq_of_eq-mul_left}
use webhook_inbox.Prelude.{
  ℕ, ◌+◌, ◌-◌, ◌*◌, ◌≤◌, ◌<◌, ◌≡◌, refl, ap, ◌∙◌, true, false, Option, none, some, ltb, leb,
  if◌then◌else◌, min, arith, Bool-cases, inl, inr,
}
use webhook_inbox.Prelude.Text.{Str, str_eq}
use webhook_inbox.Prelude.Dict.{
  lookup, lookup-insert, lookup-filter_values, lookup-AllValues, keep_if,
}
use webhook_inbox.RateLimit.Valid.{Fits, IsValid, level, allow-on, allow-off}
use webhook_inbox.RateLimit.{
  token, prune_interval, Bucket, RateLimiter, idle_limit, prune, bucket_of, refill, spend,
  take_token, allow,
}

-- A bucket as old as the idle limit has refilled.
idle_limit_lem : (l : RateLimiter) → 0 < l.rate → l.capacity ≡ l.rate * token → idle_limit l ≡ token
unfolding idle_limit
idle_limit_lem l h e = rw e (
    ground (
      arith,
      div-eq_of_eq-mul_left {n = l.rate} {m = l.rate * token} {k = token} h (mul_comm l.rate token),
    ))

refill_fresh :
    (l : RateLimiter) (later : ℕ)
    → refill l later (record { tokens = l.capacity; updated = later }) ≡ l.capacity
unfolding refill
refill_fresh l later = omega arith

refill_full :
    (l : RateLimiter) (b : Bucket) (now later : ℕ)
    → 0 < l.rate
    → l.capacity ≡ l.rate * token
    → now ≤ later
    → ltb (now - b.updated) (idle_limit l) ≡ false
    → refill l later b ≡ l.capacity
unfolding refill
refill_full l b now later pos e h stale =
    let old : token ≤ later - b.updated = ground (arith, idle_limit_lem l pos e) in
    let full : token * l.rate ≤ (later - b.updated) * l.rate = mul-le-mul_right l.rate old in
    omega (arith, mul_comm l.rate token)

-- Forgetting a stale bucket makes no difference to the refill.
refill-keep_if :
    (l : RateLimiter) (o : Option Bucket) (now later : ℕ)
    → 0 < l.rate
    → l.capacity ≡ l.rate * token
    → now ≤ later
    → refill l later
        (bucket_of l.capacity later (keep_if (λ b. ltb (now - b.updated) (idle_limit l)) o))
      ≡ refill l later (bucket_of l.capacity later o)
unfolding bucket_of
refill-keep_if l none now later pos e h = refl
refill-keep_if l (some b) now later pos e h =
    elim (Bool-cases (ltb (now - b.updated) (idle_limit l))) [
      | inl keep ↦ rw keep
      | inr stale ↦ rw (stale, refill_full l b now later pos e h stale) (refill_fresh l later)
    ]

-- Pruning a valid limiter changes no level, now or later: what is dropped would have been full.
level-prune :
    (l : RateLimiter) (key : Str) {now later : ℕ}
    → IsValid now l
    → 0 < l.rate
    → now ≤ later
    → level (prune now l) key later ≡ level l key later
unfolding level prune
level-prune l key {now} {later} v pos h =
    elim (Bool-cases (ltb (now - l.pruned_at) prune_interval)) [
      | inl early ↦ rw early
      | inr due ↦ rw due (
          rw
            (lookup-filter_values (λ b. ltb (now - b.updated) (idle_limit l)) key l.buckets
              v.distinct)
            (refill-keep_if l (lookup key l.buckets) now later pos v.sized h))
    ]

-- What a request does to every level, at its time and after it.
level-take_token :
    (key k : Str) (now later : ℕ) (l : RateLimiter)
    → level (take_token key now l).1 k later ≡ (
        if str_eq key k
        then min l.capacity ((spend (level l key now)).1 + (later - now) * l.rate)
        else level l k later)
unfolding take_token level bucket_of refill
level-take_token key k now later l =
    rw lookup-insert
      (elim (Bool-cases (str_eq key k)) [ inl same ↦ rw same | inr other ↦ rw other ])

take_token-allowed :
    (key : Str) (now : ℕ) (l : RateLimiter) → (take_token key now l).0 ≡ leb token (level l key now)
unfolding take_token level spend
take_token-allowed key now l = ground arith

spend-left : (tokens : ℕ) → (spend tokens).1 ≡ tokens - (if leb token tokens then token else 0)
unfolding spend
spend-left tokens = ground arith

settings-prune :
    (now : ℕ) (l : RateLimiter)
    → ((prune now l).capacity ≡ l.capacity)
      × ((prune now l).rate ≡ l.rate)
      × ((prune now l).enabled ≡ l.enabled)
unfolding prune
settings-prune now l = ground arith

-- No request changes the settings of a limiter.
pub settings-allow :
    (key : Str) (now : ℕ) (l : RateLimiter)
    → ((allow key now l).1.capacity ≡ l.capacity)
      × ((allow key now l).1.rate ≡ l.rate)
      × ((allow key now l).1.enabled ≡ l.enabled)
unfolding take_token
settings-allow key now l = elim (Bool-cases l.enabled) [
  | inl on ↦ rw (allow-on key now l on) (settings-prune now l)
  | inr off ↦ rw (allow-off key now l off) (refl, refl, refl)
]

-- A valid and enabled limiter lets a request through exactly if its key has a whole token left; that token
-- is spent, time refills at the rate up to the capacity, and no other key notices.
pub allow-level :
    (key k : Str) (now later : ℕ) (l : RateLimiter)
    → IsValid now l
    → l.enabled ≡ true
    → now ≤ later
    → ((allow key now l).0 ≡ leb token (level l key now))
      × (level (allow key now l).1 k later ≡ (
          if str_eq key k
          then min l.capacity (
              level l key now
              - (if leb token (level l key now) then token else 0)
              + (later - now) * l.rate)
          else level l k later))
allow-level key k now later l v on h =
    let pos = v.refills on in
    let here = level-prune l key {later = now} v pos (le_refl now) in
    let there = level-prune l k {later = later} v pos h in
    let (sized, rated, _) = settings-prune now l in
    rw (allow-on key now l on) (
      take_token-allowed key now (prune now l) ∙ ap (leb token) here,
      level-take_token key k now later (prune now l)
          ∙ rw (here, there, spend-left, sized, rated) refl,
    )

min-add-le : (c a b d : ℕ) → min c (a + (b + d)) ≤ min c (a + b) + d
min-add-le c a b d = omega arith

pub split_elapsed :
    (updated now later rate : ℕ)
    → updated ≤ now
    → now ≤ later
    → (later - updated) * rate ≡ (now - updated) * rate + (later - now) * rate
split_elapsed updated now later rate h k =
    let whole : later - updated ≡ now - updated + (later - now) = omega arith in rw (whole, add-mul)

refill_later :
    (l : RateLimiter) (o : Option Bucket) (now later : ℕ)
    → ((b : Bucket) → o ≡ some b → b.updated ≤ now)
    → now ≤ later
    → refill l later (bucket_of l.capacity later o)
      ≤ refill l now (bucket_of l.capacity now o) + (later - now) * l.rate
unfolding refill bucket_of
refill_later l none now later past h = omega arith
refill_later l (some b) now later past h =
    omega (arith, split_elapsed b.updated now later l.rate (past b refl) h)

-- Between requests a level grows by the rate at most.
pub level_later :
    (l : RateLimiter) (key : Str) (now later : ℕ)
    → IsValid now l
    → now ≤ later
    → level l key later ≤ level l key now + (later - now) * l.rate
unfolding level
level_later l key now later v h =
    refill_later l (lookup key l.buckets) now later
      (λ b e. (lookup-AllValues (Fits l.capacity now) key l.buckets v.fitting e).past) h
