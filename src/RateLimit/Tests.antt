-- ===== src/RateLimit/Tests.antt =====
-- Runs of the limiter, and its theorems at concrete requests.
use webhook_inbox.Prelude.{
  ℕ, ◌+◌, ◌-◌, ◌*◌, ◌≤◌, ◌≡◌, refl, true, false, List, [], ◌∷◌, arith, leb, min, if◌then◌else◌,
}
use webhook_inbox.Prelude.Text.{Str, codes, str_eq}
use webhook_inbox.Prelude.Dict.{lookup, insert, filter_values}
use webhook_inbox.RateLimit.{token, RateLimiter, new, prune, take_token, allow, retry_after}
use webhook_inbox.RateLimit.Valid.{new-IsValid, level}
use webhook_inbox.RateLimit.Level.{allow-level}
use webhook_inbox.RateLimit.Window.{serve, admitted, admitted-le, allow-retry_after}

limiter : Unit {0}
unfolding new allow prune take_token retry_after lookup insert filter_values str_eq serve admitted
limiter = tt

-- Two requests a minute.
abbrev two_a_minute : RateLimiter
two_a_minute = new 2 true

abbrev alice : Str
alice = codes "demo:10.0.0.1"

abbrev bob : Str
bob = codes "demo:10.0.0.2"

abbrev burst : List (Str × ℕ)
burst = (alice, 0) ∷ (alice, 1) ∷ (bob, 2) ∷ (alice, 3) ∷ []

third_refused : (allow alice 3 (serve two_a_minute burst)).0 ≡ false
unfolding limiter
third_refused = refl

two_admitted : admitted alice two_a_minute burst ≡ 2
unfolding limiter
two_admitted = refl

wait_30 : retry_after alice (serve two_a_minute burst) ≡ 30
unfolding limiter
wait_30 = refl

allow-level_example :
    ((allow alice 0 two_a_minute).0 ≡ leb token (level two_a_minute alice 0))
    × (level (allow alice 0 two_a_minute).1 bob 5 ≡ (
        if str_eq alice bob
        then min two_a_minute.capacity (
            level two_a_minute alice 0
            - (if leb token (level two_a_minute alice 0) then token else 0)
            + (5 - 0) * two_a_minute.rate)
        else level two_a_minute bob 5))
unfolding new
allow-level_example = allow-level alice bob 0 5 two_a_minute (new-IsValid 2 true) refl (omega arith)

admitted-le_example : admitted alice two_a_minute burst * token ≤ 120_000_000_020
unfolding new
admitted-le_example =
    admitted-le alice two_a_minute 0 10 burst (new-IsValid 2 true) refl (omega arith)

allow-retry_after_example :
    (allow alice 30_000_000_000 (serve two_a_minute ((bob, 5) ∷ []))).0 ≡ true
unfolding limiter
allow-retry_after_example =
    allow-retry_after alice two_a_minute 0 30_000_000_000 ((bob, 5) ∷ []) (new-IsValid 2 true) refl
      (omega arith) (omega arith) (refl, tt)
