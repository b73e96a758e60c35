-- ===== src/Ingest/Keys.antt =====
-- The key escaping of app/ingest/parser.py: MongoDB restricts '.' and a leading '$' in field names.
pub mod RoundTrip
use webhook_inbox.Prelude.{
  ℕ, ◌≡◌, refl, Bool, true, false, ◌&&◌, ◌||◌, List, [], ◌∷◌, arith, ◌==◌, if◌then◌else◌, drop,
}
use webhook_inbox.Prelude.Text.{Str, codes, replace_char, starts_with, has_char}
use webhook_inbox.Prelude.Dict.{Dict, insert}
use webhook_inbox.Json.{
  Value, null, bool, num, str, list, dict, Items, nil, cons, Fields, end, field, of_entries,
}

-- The lookalike of '.'.
abbrev pub dot : ℕ
dot = 0xff0e

-- The lookalike of '$'.
abbrev pub dollar : ℕ
dollar = 0xff04

unfoldable pub escape_key : Str → Str
unfolding replace_char starts_with
escape_key key =
    let replaced = replace_char b'.' dot key in
    if starts_with replaced (b'$' ∷ []) then dollar ∷ drop 1 replaced else replaced

unfoldable pub unescape_key : Str → Str
unfolding replace_char starts_with
unescape_key key =
    let replaced = replace_char dot b'.' key in
    if starts_with replaced (dollar ∷ []) then b'$' ∷ drop 1 replaced else replaced

-- The recursion that `escape_keys` and `unescape_keys` share. A dict comprehension writes its keys
-- in order, so that of two keys with one image the later value stays, in the earlier place.
unfoldable mutual
  pub map_keys : (Str → Str) → Value → Value
  map_keys f null = null
  map_keys f (bool b) = bool b
  map_keys f (num n) = num n
  map_keys f (str s) = str s
  map_keys f (list xs) = list (map_items f xs)
  map_keys f (dict fs) = dict (of_entries (map_fields f fs []))

  pub map_items : (Str → Str) → Items → Items
  map_items f nil = nil
  map_items f (cons v vs) = cons (map_keys f v) (map_items f vs)

  pub map_fields : (Str → Str) → Fields → Dict Value → Dict Value
  map_fields f end written = written
  map_fields f (field k v fs) written = map_fields f fs (insert (f k) (map_keys f v) written)

unfoldable pub escape_keys : Value → Value
escape_keys = map_keys escape_key

unfoldable pub unescape_keys : Value → Value
unescape_keys = map_keys unescape_key

-- A key that a lookalike cannot confuse: it holds no lookalike of '.', and does not begin with the
-- lookalike of '$'.
abbrev pub IsPlain : Str → Type 0
IsPlain [] = Unit
IsPlain (a ∷ s) = ((a == dollar) ≡ false) × (has_char (a ∷ s) dot ≡ false)

replace_char_back :
    (s : Str) → has_char s dot ≡ false → replace_char dot b'.' (replace_char b'.' dot s) ≡ s
unfolding replace_char
replace_char_back [] h = refl
replace_char_back (a ∷ s) h = ground (arith, replace_char_back s)

-- Escaping and unescaping a plain key gives it back.
pub unescape_key-escape_key : (key : Str) → IsPlain key → unescape_key (escape_key key) ≡ key
unfolding escape_key unescape_key
unescape_key-escape_key [] h = refl
unescape_key-escape_key (a ∷ s) h = ground (arith, replace_char_back s)

no_dot : (s : Str) → has_char (replace_char b'.' dot s) b'.' ≡ false
unfolding replace_char
no_dot [] = refl
no_dot (a ∷ s) = ground (arith, no_dot s)

-- A field name with no '.', and no '$' in front.
abbrev pub IsStorable : Str → Type 0
IsStorable s = (has_char s b'.' ≡ false) × (starts_with s (b'$' ∷ []) ≡ false)

-- Every escaped key is storable, whatever the key.
pub escape_key-IsStorable : (key : Str) → IsStorable (escape_key key)
unfolding escape_key
escape_key-IsStorable [] = (refl, refl)
escape_key-IsStorable (a ∷ s) = ground (arith, no_dot s)
