-- ===== src/Ingest/Depth.antt =====
-- `nesting_depth` of app/ingest/parser.py: the bracket depth of a body, measured over its bytes
-- before anything recurses on it.
pub mod Rendering
use webhook_inbox.Prelude.{
  ℕ, zero, suc, ◌+◌, ◌-◌, ◌≤◌, ◌≡◌, refl, sym, ap, ◌∙◌, Bool, true, false, ◌&&◌, ◌||◌, List, [],
  ◌∷◌, ◌++◌, max, arith, ◌==◌, if◌then◌else◌, length, all, not,
}
use webhook_inbox.Prelude.Text.{Str, codes, has_char}
use webhook_inbox.Json.{
  Value, null, bool, num, str, list, dict, Items, nil, cons, Fields, end, field,
}

-- A Python integer that counts down past zero: `negsuc n` is -(n + 1).
pub data ℤ : Type 0 where
  pos : ℕ → ℤ
  negsuc : ℕ → ℤ

unfoldable pub succ : ℤ → ℤ
succ (pos n) = pos (suc n)
succ (negsuc zero) = pos 0
succ (negsuc (suc n)) = negsuc n

unfoldable pub pred : ℤ → ℤ
pred (pos zero) = negsuc 0
pred (pos (suc n)) = pos n
pred (negsuc n) = negsuc (suc n)

-- max(maximum, depth), of a maximum that is at least 0
unfoldable pub raise_to : ℕ → ℤ → ℕ
raise_to maximum (pos n) = max maximum n
raise_to maximum (negsuc n) = maximum

-- The variables of the loop.
pub record Scan : Type 0 where
  pub depth : ℤ
  pub maximum : ℕ
  pub in_string : Bool
  pub escaped : Bool

abbrev pub start : Scan
start = record { depth = pos 0; maximum = 0; in_string = false; escaped = false }

unfoldable pub scan_string : Scan → ℕ → Scan
scan_string s byte =
    if s.escaped
    then record s { escaped = false }
    else if byte == 0x5c
    then record s { escaped = true }
    else if byte == 0x22
    then record s { in_string = false }
    else s

unfoldable pub scan_outside : Scan → ℕ → Scan
unfolding succ pred raise_to
scan_outside s byte =
    if byte == 0x22
    then record s { in_string = true }
    else if (byte == 0x7b) || (byte == 0x5b)
    then record s { depth = succ s.depth; maximum = raise_to s.maximum (succ s.depth) }
    else if (byte == 0x7d) || (byte == 0x5d)
    then record s { depth = pred s.depth }
    else s

-- One round of the loop.
unfoldable pub scan : Scan → ℕ → Scan
unfolding scan_string scan_outside
scan s byte = if s.in_string then scan_string s byte else scan_outside s byte

unfoldable pub scan_all : Scan → List ℕ → Scan
unfolding scan
scan_all s [] = s
scan_all s (byte ∷ raw) = scan_all (scan s byte) raw

unfoldable pub nesting_depth : List ℕ → ℕ
unfolding scan_all
nesting_depth raw = (scan_all start raw).maximum
