-- ===== src/Prelude/Text.antt =====
-- Python's `str` and `bytes` as lists of code points and of bytes, with the methods that the
-- program calls. Case mapping depends on the Unicode tables and is the parameter `Unicode`.
use Prim.Native.Nat.{ℕ, ◌+◌, ◌-◌}
use Prim.Native.Char.{code}
use Prim.Native.String.{String}
use mathlib.Core.Path.{◌≡◌, refl}
use mathlib.Core.Logic.{◌↔◌, ◌⊎◌, inl, inr}
use mathlib.Core.Bool.{Bool, true, false, ◌&&◌, ◌||◌}
use mathlib.Core.List.{List, [], ◌∷◌, ◌++◌, map, reverse}
use native.Mathlib.Omega.{arith}
use webhook_inbox.Prelude.Tests.{ltb, leb, ◌==◌, if◌then◌else◌}
use webhook_inbox.Prelude.Lists.{length, drop, is_empty}

abbrev pub Str : Type 0
Str = List ℕ

abbrev pub codes : String → Str
codes String.[] = []
codes (String.◌∷◌ c s) = code c ∷ codes s

-- s == t
unfoldable pub str_eq : Str → Str → Bool
str_eq [] [] = true
str_eq (a ∷ s) (b ∷ t) = (a == b) && str_eq s t
str_eq _ _ = false

pub str_eq_refl : (s : Str) → str_eq s s ≡ true
unfolding str_eq
str_eq_refl [] = refl
str_eq_refl (a ∷ s) = ground (arith, str_eq_refl s)

pub str_eq→eq : (s t : Str) → str_eq s t ≡ true → s ≡ t
unfolding str_eq
str_eq→eq [] [] h = refl
str_eq→eq (a ∷ s) (b ∷ t) h = ground (arith, str_eq→eq s t)
str_eq→eq [] (b ∷ t) h = cc
str_eq→eq (a ∷ s) [] h = cc

pub str_eq_iff : (s t : Str) → (str_eq s t ≡ true) ↔ (s ≡ t)
str_eq_iff s t = (str_eq→eq s t, λ e. rw e (str_eq_refl t))

-- s < t, by code points
unfoldable pub str_before : Str → Str → Bool
str_before s [] = false
str_before [] (b ∷ t) = true
str_before (a ∷ s) (b ∷ t) = ltb a b || ((a == b) && str_before s t)

pub str_before_asym : (s t : Str) → str_before s t ≡ true → str_before t s ≡ false
unfolding str_before
str_before_asym s [] h = absurd (ground (arith, h))
str_before_asym [] (b ∷ t) h = refl
str_before_asym (a ∷ s) (b ∷ t) h = ground (arith, h, str_before_asym s t)

pub str_before_cotrans :
    (s t r : Str) → str_before s r ≡ true → (str_before s t ≡ true) ⊎ (str_before t r ≡ true)
unfolding str_before
str_before_cotrans s t [] h = absurd (ground (arith, h))
str_before_cotrans [] [] (c ∷ r) h = inr refl
str_before_cotrans (a ∷ s) [] (c ∷ r) h = inr refl
str_before_cotrans [] (b ∷ t) (c ∷ r) h = inl refl
str_before_cotrans (a ∷ s) (b ∷ t) (c ∷ r) h = ground (arith, h, str_before_cotrans s t r)

-- s.startswith(p)
unfoldable pub starts_with : Str → Str → Bool
starts_with s [] = true
starts_with [] (b ∷ p) = false
starts_with (a ∷ s) (b ∷ p) = (a == b) && starts_with s p

pub starts_with-append : (p s : Str) → starts_with (p ++ s) p ≡ true
unfolding starts_with
starts_with-append [] [] = refl
starts_with-append [] (a ∷ s) = refl
starts_with-append (b ∷ p) s = ground (arith, starts_with-append p s)

-- s.endswith(p)
unfoldable pub ends_with : Str → Str → Bool
unfolding starts_with
ends_with s p = starts_with (reverse s) (reverse p)

-- s.removeprefix(p)
unfoldable pub remove_prefix : Str → Str → Str
unfolding starts_with
remove_prefix s p = if starts_with s p then drop (length p) s else s

drop-length_append : (p s : Str) → drop (length p) (p ++ s) ≡ s
drop-length_append [] s = refl
drop-length_append (b ∷ p) s = drop-length_append p s

pub remove_prefix-append : (p s : Str) → remove_prefix (p ++ s) p ≡ s
unfolding remove_prefix
remove_prefix-append p s = rw starts_with-append (drop-length_append p s)

-- p in s
unfoldable pub contains : Str → Str → Bool
unfolding starts_with
contains [] p = is_empty p
contains (a ∷ s) p = starts_with (a ∷ s) p || contains s p

-- c in s, for one character
abbrev pub has_char : Str → ℕ → Bool
has_char [] c = false
has_char (a ∷ s) c = (a == c) || has_char s c

-- x in (s, t, …)
unfoldable pub one_of : Str → List Str → Bool
unfolding str_eq
one_of s [] = false
one_of s (t ∷ ts) = str_eq s t || one_of s ts

-- s.replace(c, d), for single characters
unfoldable pub replace_char : ℕ → ℕ → Str → Str
replace_char c d [] = []
replace_char c d (a ∷ s) = (if a == c then d else a) ∷ replace_char c d s

-- str.isspace of one character
unfoldable pub is_space : ℕ → Bool
is_space c =
    (leb 9 c && leb c 13)
    || (leb 28 c && leb c 32)
    || (c == 0x85)
    || (c == 0xa0)
    || (c == 0x1680)
    || (leb 0x2000 c && leb c 0x200a)
    || (c == 0x2028)
    || (c == 0x2029)
    || (c == 0x202f)
    || (c == 0x205f)
    || (c == 0x3000)

unfoldable pub drop_while : (ℕ → Bool) → Str → Str
drop_while p [] = []
drop_while p (a ∷ s) = if p a then drop_while p s else a ∷ s

-- s.strip() and s.strip(chars)
unfoldable pub strip_by : (ℕ → Bool) → Str → Str
unfolding drop_while
strip_by p s = reverse (drop_while p (reverse (drop_while p s)))

unfoldable pub strip : Str → Str
unfolding strip_by is_space
strip s = strip_by is_space s

push_piece : Bool → ℕ → List Str → List Str
push_piece true a pieces = [] ∷ pieces
push_piece false a [] = (a ∷ []) ∷ []
push_piece false a (piece ∷ pieces) = (a ∷ piece) ∷ pieces

-- s.split(c), for one character: the pieces, at least one
unfoldable pub split_on : ℕ → Str → List Str
unfolding push_piece
split_on c [] = [] ∷ []
split_on c (a ∷ s) = push_piece (a == c) a (split_on c s)

-- s.split(c)[0]
abbrev pub first_piece : List Str → Str
first_piece [] = []
first_piece (piece ∷ pieces) = piece

-- A text without the separator is one piece, and it splits off before one.
pub split_on_plain : (s : Str) (c : ℕ) → has_char s c ≡ false → split_on c s ≡ s ∷ []
unfolding split_on push_piece
split_on_plain [] c h = refl
split_on_plain (a ∷ s) c h = ground (arith, split_on_plain s c)

pub split_on-append :
    (s rest : Str) (c : ℕ) → has_char s c ≡ false → split_on c (s ++ c ∷ rest) ≡ s ∷ split_on c rest
unfolding split_on push_piece
split_on-append [] rest c h = ground arith
split_on-append (a ∷ s) rest c h = ground (arith, split_on-append s rest c)

abbrev pub is_ascii : Str → Bool
is_ascii [] = true
is_ascii (a ∷ s) = leb a 127 && is_ascii s

-- str.lower and str.upper of one ASCII character
unfoldable pub ascii_lower : ℕ → ℕ
ascii_lower c = if leb b'A' c && leb c b'Z' then c + 32 else c

unfoldable pub ascii_upper : ℕ → ℕ
ascii_upper c = if leb b'a' c && leb c b'z' then c - 32 else c

-- Case mapping of whole texts. On ASCII it is the familiar one, and lowering twice is lowering once.
pub record Unicode : Type 0 where
  pub lower : Str → Str
  pub upper : Str → Str
  pub lower_ascii : (s : Str) → is_ascii s ≡ true → lower s ≡ map ascii_lower s
  pub upper_ascii : (s : Str) → is_ascii s ≡ true → upper s ≡ map ascii_upper s
  pub lower_idem : (s : Str) → lower (lower s) ≡ lower s

ascii_lower_idem : (c : ℕ) → ascii_lower (ascii_lower c) ≡ ascii_lower c
unfolding ascii_lower
ascii_lower_idem c = ground arith

pub map-ascii_lower_idem : (s : Str) → map ascii_lower (map ascii_lower s) ≡ map ascii_lower s
map-ascii_lower_idem [] = refl
map-ascii_lower_idem (c ∷ s) = cc (ascii_lower_idem c, map-ascii_lower_idem s)

-- Case mapping that touches ASCII letters only.
abbrev pub ascii_case : Unicode
ascii_case = record {
  lower = map ascii_lower;
  upper = map ascii_upper;
  lower_ascii = λ s h. refl;
  upper_ascii = λ s h. refl;
  lower_idem = map-ascii_lower_idem;
}
