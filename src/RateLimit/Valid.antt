-- ===== src/RateLimit/Valid.antt =====
-- The state of the limiter: which one is valid, that every call keeps it so, and the tokens that a key
-- has left in it.
use webhook_inbox.Prelude.{
  ℕ, ◌-◌, ◌*◌, ◌≤◌, ◌<◌, ◌≡◌, refl, Bool, true, false, ltb, arith, Bool-cases, inl, inr,
}
use webhook_inbox.Prelude.Text.{Str}
use webhook_inbox.Prelude.Dict.{
  lookup, HasDistinctKeys, AllValues, insert-HasDistinctKeys, filter_values-HasDistinctKeys,
  AllValues-insert, AllValues-filter_values, AllValues-map,
}
use webhook_inbox.RateLimit.{
  token, prune_interval, Bucket, RateLimiter, new, prune, bucket_of, refill, spend, take_token,
  allow,
}

-- A bucket holds at most the capacity, and was updated no later than `now`.
pub record Fits (capacity now : ℕ) (b : Bucket) : Type 0 where
  pub within : b.tokens ≤ capacity
  pub past : b.updated ≤ now

pub record IsValid (now : ℕ) (l : RateLimiter) : Type 0 where
  pub sized : l.capacity ≡ l.rate * token
  pub refills : l.enabled ≡ true → 0 < l.rate
  pub distinct : HasDistinctKeys l.buckets
  pub fitting : AllValues (Fits l.capacity now) l.buckets

pub new-IsValid : (per_minute : ℕ) (enabled : Bool) → IsValid 0 (new per_minute enabled)
unfolding new
new-IsValid per_minute enabled = record {
  sized = refl;
  refills = λ h. ground arith;
  distinct = tt;
  fitting = tt;
}

pub Fits-later :
    {capacity now later : ℕ} {b : Bucket}
    → now ≤ later
    → Fits capacity now b
    → Fits capacity later b
Fits-later h f = record { within = f.within; past = omega arith }

pub prune-IsValid : (now : ℕ) (l : RateLimiter) → IsValid now l → IsValid now (prune now l)
unfolding prune
prune-IsValid now l v = elim (Bool-cases (ltb (now - l.pruned_at) prune_interval)) [
  | inl early ↦ rw early v
  | inr due ↦ rw due (record {
    sized = v.sized;
    refills = v.refills;
    distinct = filter_values-HasDistinctKeys _ l.buckets v.distinct;
    fitting = AllValues-filter_values _ _ l.buckets v.fitting;
  })
]

pub spend-le : (tokens : ℕ) → (spend tokens).1 ≤ tokens
unfolding spend
spend-le tokens = ground arith

unfoldable pub level : RateLimiter → Str → ℕ → ℕ
unfolding bucket_of refill
level l key now = refill l now (bucket_of l.capacity now (lookup key l.buckets))

pub level-le-capacity : (l : RateLimiter) (key : Str) (now : ℕ) → level l key now ≤ l.capacity
unfolding level refill
level-le-capacity l key now = omega arith

pub take_token-IsValid :
    (key : Str) (now : ℕ) (l : RateLimiter) → IsValid now l → IsValid now (take_token key now l).1
unfolding take_token level
take_token-IsValid key now l v = record {
  sized = v.sized;
  refills = v.refills;
  distinct = insert-HasDistinctKeys key _ l.buckets v.distinct;
  fitting =
      AllValues-insert (Fits l.capacity now) key _ l.buckets
        (record {
          within = omega (arith, spend-le (level l key now), level-le-capacity l key now);
          past = omega arith;
        })
        v.fitting;
}

pub IsValid-later :
    {now later : ℕ} {l : RateLimiter} → now ≤ later → IsValid now l → IsValid later l
IsValid-later {l} h v = record {
  sized = v.sized;
  refills = v.refills;
  distinct = v.distinct;
  fitting = AllValues-map l.buckets (λ b f. Fits-later {b = b} h f) v.fitting;
}

pub allow-on :
    (key : Str) (now : ℕ) (l : RateLimiter)
    → l.enabled ≡ true
    → allow key now l ≡ take_token key now (prune now l)
unfolding allow
allow-on key now l on = ground arith

pub allow-off :
    (key : Str) (now : ℕ) (l : RateLimiter) → l.enabled ≡ false → allow key now l ≡ (true, l)
unfolding allow
allow-off key now l off = ground arith

-- Every request leaves a valid limiter, allowed or not.
pub allow-IsValid :
    (key : Str) (now : ℕ) (l : RateLimiter) → IsValid now l → IsValid now (allow key now l).1
allow-IsValid key now l v = elim (Bool-cases l.enabled) [
  | inl on ↦
      rw (allow-on key now l on) (take_token-IsValid key now (prune now l) (prune-IsValid now l v))
  | inr off ↦ rw (allow-off key now l off) v
]
