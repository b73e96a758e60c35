-- ===== src/RateLimit/Window.antt =====
-- What the limiter promises over a sequence of requests, and what `retry_after` promises.
use native.Mathlib.Nat.{le_refl, lt-mul-div-succ, mul-le-mul_right}
use webhook_inbox.Prelude.{
  ℕ, ◌+◌, ◌-◌, ◌*◌, ◌/◌, ◌≤◌, ◌<◌, ◌≡◌, refl, Bool, true, false, ◌&&◌, List, [], ◌∷◌, Option, none,
  some, ◌⊎◌, All, if◌then◌else◌, max, arith, Bool-cases, inl, inr, ◌∙◌,
}
use webhook_inbox.Prelude.Text.{Str, str_eq, str_eq→eq}
use webhook_inbox.RateLimit.{
  token, second, Bucket, RateLimiter, new, bucket_of, refill, allow, retry_of, retry_after,
}
use webhook_inbox.Prelude.Dict.{lookup, lookup-AllValues}
use webhook_inbox.RateLimit.Valid.{
  Fits, IsValid, IsValid-later, allow-IsValid, level, level-le-capacity, allow-off,
}
use webhook_inbox.RateLimit.Level.{allow-level, level_later, settings-allow, split_elapsed}

-- Requests in order, each with its key and its time, and the limiter after them.
unfoldable pub serve : RateLimiter → List (Str × ℕ) → RateLimiter
serve l [] = l
serve l ((key, now) ∷ requests) = serve (allow key now l).1 requests

-- How many requests with the key were allowed.
unfoldable pub admitted : Str → RateLimiter → List (Str × ℕ) → ℕ
admitted k l [] = 0
admitted k l ((key, now) ∷ requests) =
    (if str_eq key k && (allow key now l).0 then 1 else 0) + admitted k (allow key now l).1 requests

-- The times do not go back, from `start` up to `end`.
abbrev pub Between : ℕ → ℕ → List (Str × ℕ) → Type 0
Between start end [] = start ≤ end
Between start end ((key, now) ∷ requests) = (start ≤ now) × Between now end requests

-- One request takes from the level of `k` what it is charged, and nothing else.
level-charge :
    (key k : Str) (now : ℕ) (l : RateLimiter)
    → IsValid now l
    → l.enabled ≡ true
    → (if str_eq key k && (allow key now l).0 then 1 else 0) * token
        + level (allow key now l).1 k now
      ≤ level l k now
level-charge key k now l v on =
    let (allowed, after) = allow-level key k now now l v on (le_refl now) in
    elim (Bool-cases (str_eq key k)) [
      | inl same ↦
          let here : level l key now ≡ level l k now = rw (str_eq→eq key k same) refl in
          rw (same, allowed, after, same) (ground (arith, here))
      | inr other ↦ rw (other, after, other) (omega arith)
    ]

Between-le : (start end : ℕ) (requests : List (Str × ℕ)) → Between start end requests → start ≤ end
Between-le start end [] h = h
Between-le start end ((key, now) ∷ requests) (early, h) =
    omega (arith, Between-le now end requests h)

admitted-le-level :
    (k : Str) (l : RateLimiter) (start end : ℕ) (requests : List (Str × ℕ))
    → IsValid start l
    → l.enabled ≡ true
    → Between start end requests
    → admitted k l requests * token ≤ level l k start + (end - start) * l.rate
unfolding admitted
admitted-le-level k l start end [] v on h = omega arith
admitted-le-level k l start end ((key, now) ∷ requests) v on (early, h) =
    let v' = IsValid-later early v in
    let (_, rated, enabled) = settings-allow key now l in
    let rest =
      admitted-le-level k (allow key now l).1 now end requests (allow-IsValid key now l v')
        (enabled ∙ on) h in
    let rest' = rw rated at rest in
    omega (
      arith,
      rest',
      level-charge key k now l v' on,
      level_later l k start now v early,
      split_elapsed start now end l.rate early (Between-le now end requests h),
    )

-- In a valid and enabled limiter, over requests whose times do not go back, whatever other requests
-- arrive and whatever is pruned, the requests of one key that are allowed are at most the capacity
-- and what the rate gives in that time.
pub admitted-le :
    (k : Str) (l : RateLimiter) (start end : ℕ) (requests : List (Str × ℕ))
    → IsValid start l
    → l.enabled ≡ true
    → Between start end requests
    → admitted k l requests * token ≤ l.capacity + (end - start) * l.rate
admitted-le k l start end requests v on h =
    omega (arith, admitted-le-level k l start end requests v on h, level-le-capacity l k start)

-- The wait that `retry_after` names covers what a stored bucket lacks.
wait-covers :
    (tokens rate waited : ℕ)
    → 0 < rate
    → max 1 ((token - tokens) / (rate * second) + 1) * second ≤ waited
    → token ≤ tokens + waited * rate
wait-covers tokens rate waited pos h =
    let unit : 0 < rate * second = omega arith in
    let q = (token - tokens) / (rate * second) in
    let enough : (q + 1) * second ≤ waited = omega arith in
    omega (arith, lt-mul-div-succ (token - tokens) unit, mul-le-mul_right rate enough)

wait-refill :
    (l : RateLimiter) (o : Option Bucket) (now later : ℕ)
    → 0 < l.rate
    → l.enabled ≡ true
    → l.capacity ≡ l.rate * token
    → ((b : Bucket) → o ≡ some b → b.updated ≤ now)
    → now + retry_of l o * second ≤ later
    → token ≤ refill l later (bucket_of l.capacity later o)
unfolding refill bucket_of
wait-refill l none now later pos on e past h = omega arith
wait-refill l (some b) now later pos on e past h =
    let waited : max 1 ((token - b.tokens) / (l.rate * second) + 1) * second ≤ later - b.updated =
      omega (arith, past b refl, rw (on, retry_of) at h) in
    omega (arith, wait-covers b.tokens l.rate (later - b.updated) pos waited)

retry_after-level :
    (k : Str) (l : RateLimiter) (now later : ℕ)
    → IsValid now l
    → l.enabled ≡ true
    → now + retry_after k l * second ≤ later
    → token ≤ level l k later
unfolding level retry_after
retry_after-level k l now later v on h =
    wait-refill l (lookup k l.buckets) now later (v.refills on) on v.sized
      (λ b e. (lookup-AllValues (Fits l.capacity now) k l.buckets v.fitting e).past) h

-- Requests of other keys leave the level of `k` alone.
level-serve :
    (k : Str) (l : RateLimiter) (start end : ℕ) (requests : List (Str × ℕ))
    → IsValid start l
    → l.enabled ≡ true
    → Between start end requests
    → All (λ r. str_eq r.0 k ≡ false) requests
    → (level (serve l requests) k end ≡ level l k end)
      × IsValid end (serve l requests)
      × ((serve l requests).enabled ≡ true)
unfolding serve
level-serve k l start end [] v on h _ = (refl, IsValid-later h v, on)
level-serve k l start end ((key, now) ∷ requests) v on (early, h) (other, others) =
    let v' = IsValid-later early v in
    let (_, _, enabled) = settings-allow key now l in
    let (_, after) = allow-level key k now end l v' on (Between-le now end requests h) in
    let (same, valid, on') =
      level-serve k (allow key now l).1 now end requests (allow-IsValid key now l v') (enabled ∙ on)
        h others in
    (same ∙ after ∙ rw other refl, valid, on')

-- In a valid and enabled limiter with time that does not go back, a client that waits the number of
-- seconds that `retry_after` names is then let through, whatever requests other keys made
-- meanwhile.
pub allow-retry_after :
    (k : Str) (l : RateLimiter) (now later : ℕ) (others : List (Str × ℕ))
    → IsValid now l
    → l.enabled ≡ true
    → now + retry_after k l * second ≤ later
    → Between now later others
    → All (λ r. str_eq r.0 k ≡ false) others
    → (allow k later (serve l others)).0 ≡ true
allow-retry_after k l now later others v on h times foreign =
    let (same, valid, on') = level-serve k l now later others v on times foreign in
    let (allowed, _) = allow-level k k later later (serve l others) valid on' (le_refl later) in
    allowed ∙ ground (arith, same, retry_after-level k l now later v on h)

serve-off : (l : RateLimiter) (requests : List (Str × ℕ)) → l.enabled ≡ false → serve l requests ≡ l
unfolding serve
serve-off l [] off = refl
serve-off l ((key, now) ∷ requests) off = rw (allow-off key now l off) (serve-off l requests off)

-- With the limiter switched off, or with no rate, every request is let through, after any others.
allow-new_off :
    (per_minute : ℕ) (enabled : Bool) (requests : List (Str × ℕ)) (k : Str) (now : ℕ)
    → (enabled ≡ false) ⊎ (per_minute ≡ 0)
    → (allow k now (serve (new per_minute enabled) requests)).0 ≡ true
unfolding new
allow-new_off per_minute enabled requests k now h =
    let off : (new per_minute enabled).enabled ≡ false = ground arith in
    rw (serve-off (new per_minute enabled) requests off)
      (rw (allow-off k now (new per_minute enabled) off) refl)
