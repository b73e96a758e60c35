-- ===== src/Replay/Address/Blocked.antt =====
-- Which addresses a replay can never reach.
use webhook_inbox.Prelude.{ℕ, ◌+◌, ◌*◌, ◌/◌, ◌%◌, ◌^◌, ◌≤◌, ◌<◌, ◌≡◌, true, false, ◌⊎◌, arith}
use webhook_inbox.Replay.Address.{v4, v6, quad, v4_blocked, is_blocked}

-- The IPv4 ranges that a replay must not reach, by their first and last address.
abbrev pub IsInternal : ℕ → Type 0
IsInternal addr =
    (addr < quad 1 0 0 0)
    ⊎ ((quad 10 0 0 0 ≤ addr) × (addr < quad 11 0 0 0))
    ⊎ ((quad 127 0 0 0 ≤ addr) × (addr < quad 128 0 0 0))
    ⊎ ((quad 169 254 0 0 ≤ addr) × (addr < quad 169 255 0 0))
    ⊎ ((quad 172 16 0 0 ≤ addr) × (addr < quad 172 32 0 0))
    ⊎ ((quad 192 168 0 0 ≤ addr) × (addr < quad 192 169 0 0))
    ⊎ (quad 224 0 0 0 ≤ addr)

internal-v4_blocked : (addr : ℕ) → addr < 2 ^ 32 → IsInternal addr → v4_blocked addr ≡ true
unfolding v4_blocked
internal-v4_blocked addr w h = ground arith

-- Every internal IPv4 address is blocked, also when it is written as an IPv4-mapped IPv6 address.
pub internal-is_blocked :
    (addr : ℕ)
    → addr < 2 ^ 32
    → IsInternal addr
    → (is_blocked (v4 addr) ≡ true) × (is_blocked (v6 (0xffff * 2 ^ 32 + addr)) ≡ true)
unfolding is_blocked
internal-is_blocked addr w h =
    let high : (0xffff * 2 ^ 32 + addr) / 2 ^ 32 ≡ 0xffff = omega arith in
    let low : (0xffff * 2 ^ 32 + addr) % 2 ^ 32 ≡ addr = omega arith in
    let inner = internal-v4_blocked addr w h in (inner, ground (arith, high, low, inner))

-- The shared address space 100.64.0.0/10, in which some clouds keep their metadata service, is not
-- blocked.
shared_space-is_blocked :
    (addr : ℕ) → quad 100 64 0 0 ≤ addr → addr < quad 100 128 0 0 → is_blocked (v4 addr) ≡ false
unfolding is_blocked
shared_space-is_blocked addr h k = ground arith
