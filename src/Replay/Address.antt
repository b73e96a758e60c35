-- ===== src/Replay/Address.antt =====
-- `is_blocked` of app/replay/ssrf.py over the properties of Python's `ipaddress`: each is membership
-- in one of the networks that the module lists (Python 3.14). An address is its number, and a
-- network its first address with the length of its prefix.
pub mod Blocked
use webhook_inbox.Prelude.{
  ℕ, ◌+◌, ◌-◌, ◌*◌, ◌/◌, ◌%◌, ◌^◌, Bool, true, false, not, ◌&&◌, ◌||◌, List, [], ◌∷◌, ◌==◌, Option,
  none, some,
}

pub data Ip : Type 0 where
  v4 : ℕ → Ip
  v6 : ℕ → Ip

-- The number of the IPv4 address a.b.c.d.
abbrev pub quad : ℕ → ℕ → ℕ → ℕ → ℕ
quad a b c d = a * 16_777_216 + b * 65_536 + c * 256 + d

-- An IPv6 address whose first two groups are a and b and whose others are zero.
abbrev pub group2 : ℕ → ℕ → ℕ
group2 a b = a * 2 ^ 112 + b * 2 ^ 96

-- addr in network, for the addresses of `width` bits
unfoldable pub in_network : ℕ → ℕ → ℕ × ℕ → Bool
in_network width addr (first, prefix) =
    (addr / 2 ^ (width - prefix)) == (first / 2 ^ (width - prefix))

unfoldable pub in_any : ℕ → ℕ → List (ℕ × ℕ) → Bool
unfolding in_network
in_any width addr [] = false
in_any width addr (network ∷ networks) = in_network width addr network || in_any width addr networks

abbrev pub v4_private : List (ℕ × ℕ)
v4_private =
    (quad 0 0 0 0, 8)
    ∷ (quad 10 0 0 0, 8)
    ∷ (quad 127 0 0 0, 8)
    ∷ (quad 169 254 0 0, 16)
    ∷ (quad 172 16 0 0, 12)
    ∷ (quad 192 0 0 0, 24)
    ∷ (quad 192 0 0 170, 31)
    ∷ (quad 192 0 2 0, 24)
    ∷ (quad 192 168 0 0, 16)
    ∷ (quad 198 18 0 0, 15)
    ∷ (quad 198 51 100 0, 24)
    ∷ (quad 203 0 113 0, 24)
    ∷ (quad 240 0 0 0, 4)
    ∷ (quad 255 255 255 255, 32)
    ∷ []

abbrev pub v4_private_exceptions : List (ℕ × ℕ)
v4_private_exceptions = (quad 192 0 0 9, 32) ∷ (quad 192 0 0 10, 32) ∷ []

abbrev pub v6_private : List (ℕ × ℕ)
v6_private =
    (1, 128)
    ∷ (0, 128)
    ∷ (0xffff_0000_0000, 96)
    ∷ (group2 0x64 0xff9b + 2 ^ 80, 48)
    ∷ (group2 0x100 0, 64)
    ∷ (group2 0x2001 0, 23)
    ∷ (group2 0x2001 0xdb8, 32)
    ∷ (group2 0x2002 0, 16)
    ∷ (group2 0x3fff 0, 20)
    ∷ (group2 0xfc00 0, 7)
    ∷ (group2 0xfe80 0, 10)
    ∷ []

abbrev pub v6_private_exceptions : List (ℕ × ℕ)
v6_private_exceptions =
    (group2 0x2001 1 + 1, 128)
    ∷ (group2 0x2001 1 + 2, 128)
    ∷ (group2 0x2001 3, 32)
    ∷ (group2 0x2001 4 + 0x112 * 2 ^ 80, 48)
    ∷ (group2 0x2001 0x20, 28)
    ∷ (group2 0x2001 0x30, 28)
    ∷ []

abbrev pub v6_reserved : List (ℕ × ℕ)
v6_reserved =
    (group2 0 0, 8)
    ∷ (group2 0x100 0, 8)
    ∷ (group2 0x200 0, 7)
    ∷ (group2 0x400 0, 6)
    ∷ (group2 0x800 0, 5)
    ∷ (group2 0x1000 0, 4)
    ∷ (group2 0x4000 0, 3)
    ∷ (group2 0x6000 0, 3)
    ∷ (group2 0x8000 0, 3)
    ∷ (group2 0xa000 0, 3)
    ∷ (group2 0xc000 0, 3)
    ∷ (group2 0xe000 0, 4)
    ∷ (group2 0xf000 0, 5)
    ∷ (group2 0xf800 0, 6)
    ∷ (group2 0xfe00 0, 9)
    ∷ []

-- The disjunction of `is_blocked` for an IPv4 address: private, loopback, link-local, multicast,
-- reserved, unspecified.
unfoldable pub v4_blocked : ℕ → Bool
unfolding in_any
v4_blocked addr =
    (in_any 32 addr v4_private && not (in_any 32 addr v4_private_exceptions))
    || in_network 32 addr (quad 127 0 0 0, 8)
    || in_network 32 addr (quad 169 254 0 0, 16)
    || in_network 32 addr (quad 224 0 0 0, 4)
    || in_network 32 addr (quad 240 0 0 0, 4)
    || (addr == 0)

-- And for an IPv6 address that maps no IPv4 address.
unfoldable pub v6_blocked : ℕ → Bool
unfolding in_any
v6_blocked addr =
    (in_any 128 addr v6_private && not (in_any 128 addr v6_private_exceptions))
    || (addr == 1)
    || in_network 128 addr (group2 0xfe80 0, 10)
    || in_network 128 addr (group2 0xff00 0, 8)
    || in_any 128 addr v6_reserved
    || (addr == 0)

-- getattr(ip, "ipv4_mapped", None)
unfoldable pub ipv4_mapped : Ip → Option ℕ
ipv4_mapped (v4 addr) = none
ipv4_mapped (v6 addr) = elim ((addr / 2 ^ 32) == 0xffff) [
  | true ↦ some (addr % 2 ^ 32)
  | false ↦ none
]

unfoldable pub is_blocked : Ip → Bool
unfolding ipv4_mapped v4_blocked v6_blocked
is_blocked (v4 addr) = v4_blocked addr
is_blocked (v6 addr) = elim (ipv4_mapped (v6 addr)) [
  | some mapped ↦ v4_blocked mapped
  | none ↦ v6_blocked addr
]
