-- ===== src/Ingest/Keys/RoundTrip.antt =====
-- Escaped bodies have no key with a dot or a leading dollar, and unescaping gives back every body whose keys are plain.
use mathlib.Core.List.{append_assoc, append-nil}
use webhook_inbox.Prelude.{
  ◌≡◌, refl, sym, ap, ◌∙◌, false, [], ◌∷◌, ◌++◌, arith, Bool-cases, inl, inr,
}
use webhook_inbox.Prelude.Text.{Str, str_eq, str_eq_iff}
use webhook_inbox.Prelude.Dict.{
  Dict, insert, has_key, HasDistinctKeys, has_key_of_distinct, insert-append_fresh,
}
use webhook_inbox.Json.{
  Value, null, bool, num, str, list, dict, Items, nil, cons, Fields, end, field, entries,
  of_entries, of_entries-entries,
}
use webhook_inbox.Ingest.Keys.{
  escape_key, unescape_key, map_keys, map_items, map_fields, escape_keys, unescape_keys, IsPlain,
  unescape_key-escape_key, IsStorable, escape_key-IsStorable,
}

-- The fields with their keys renamed, with no regard to keys that fall together.
renamed : (Str → Str) → Fields → Dict Value
renamed f end = []
renamed f (field k v fs) = (f k, map_keys f v) ∷ renamed f fs

map_fields-renamed :
    (f : Str → Str) (fs : Fields) (written : Dict Value)
    → HasDistinctKeys (written ++ renamed f fs)
    → map_fields f fs written ≡ written ++ renamed f fs
unfolding map_fields renamed
map_fields-renamed f end written h = sym (append-nil written)
map_fields-renamed f (field k v fs) written h =
    let fresh = has_key_of_distinct (f k) (map_keys f v) written (renamed f fs) h in
    let again = append_assoc written ((f k, map_keys f v) ∷ []) (renamed f fs) in
    rw (insert-append_fresh (f k) (map_keys f v) written fresh)
      (map_fields-renamed f fs (written ++ (f k, map_keys f v) ∷ []) (rw again h) ∙ again)

abbrev mutual
  -- All keys, at every depth, are plain, and no dictionary has a key twice.
  pub HasPlainKeys : Value → Type 0
  HasPlainKeys (list xs) = HasPlainKeysItems xs
  HasPlainKeys (dict fs) = HasDistinctKeys (entries fs) × HasPlainKeysFields fs
  HasPlainKeys _ = Unit

  pub HasPlainKeysItems : Items → Type 0
  HasPlainKeysItems nil = Unit
  HasPlainKeysItems (cons v vs) = HasPlainKeys v × HasPlainKeysItems vs

  pub HasPlainKeysFields : Fields → Type 0
  HasPlainKeysFields end = Unit
  HasPlainKeysFields (field k v fs) = IsPlain k × HasPlainKeys v × HasPlainKeysFields fs

escape_key_ne :
    (j k : Str)
    → IsPlain j
    → IsPlain k
    → str_eq j k ≡ false
    → str_eq (escape_key j) (escape_key k) ≡ false
escape_key_ne j k p q h = ground (
  arith,
  str_eq_iff j k,
  str_eq_iff (escape_key j) (escape_key k),
  unescape_key-escape_key j p,
  unescape_key-escape_key k q,
)

has_key-renamed :
    (k : Str) (fs : Fields)
    → IsPlain k
    → HasPlainKeysFields fs
    → has_key k (entries fs) ≡ false
    → has_key (escape_key k) (renamed escape_key fs) ≡ false
unfolding has_key renamed
has_key-renamed k end p h e = refl
has_key-renamed k (field j v fs) p (q, hv, h) e =
    ground (arith, escape_key_ne j k q p, has_key-renamed k fs p h)

renamed-HasDistinctKeys :
    (fs : Fields)
    → HasPlainKeysFields fs
    → HasDistinctKeys (entries fs)
    → HasDistinctKeys (renamed escape_key fs)
unfolding renamed
renamed-HasDistinctKeys end h d = tt
renamed-HasDistinctKeys (field k v fs) (p, hv, h) (fresh, d) =
    (has_key-renamed k fs p h fresh, renamed-HasDistinctKeys fs h d)

mutual
  unfolding map_keys renamed

  map_keys_back : (v : Value) → HasPlainKeys v → map_keys unescape_key (map_keys escape_key v) ≡ v
  map_keys_back null h = refl
  map_keys_back (bool b) h = refl
  map_keys_back (num n) h = refl
  map_keys_back (str s) h = refl
  map_keys_back (list xs) h = ap list (map_items_back xs h)
  map_keys_back (dict fs) (d, h) =
      rw (map_fields-renamed escape_key fs [] (renamed-HasDistinctKeys fs h d)) (
        ap (λ e. dict (of_entries e))
          (map_fields-renamed unescape_key (of_entries (renamed escape_key fs)) []
              (rw (renamed_back fs h) d)
            ∙ renamed_back fs h)
        ∙ ap dict (of_entries-entries fs))

  map_items_back :
      (xs : Items) → HasPlainKeysItems xs → map_items unescape_key (map_items escape_key xs) ≡ xs
  map_items_back nil h = refl
  map_items_back (cons v vs) (p, h) = cc (map_keys_back v p, map_items_back vs h)

  renamed_back :
      (fs : Fields)
      → HasPlainKeysFields fs
      → renamed unescape_key (of_entries (renamed escape_key fs)) ≡ entries fs
  renamed_back end h = refl
  renamed_back (field k v fs) (p, q, h) =
      cc (unescape_key-escape_key k p, map_keys_back v q, renamed_back fs h)

-- A stored body is read back as it was parsed, if its keys are plain at every depth.
pub unescape_keys-escape_keys : (v : Value) → HasPlainKeys v → unescape_keys (escape_keys v) ≡ v
unfolding escape_keys unescape_keys
unescape_keys-escape_keys v h = map_keys_back v h

abbrev mutual
  -- No key, at any depth, has a dot in it or begins with a dollar.
  pub HasStorableKeys : Value → Type 0
  HasStorableKeys (list xs) = HasStorableKeysItems xs
  HasStorableKeys (dict fs) = HasStorableKeysFields fs
  HasStorableKeys _ = Unit

  pub HasStorableKeysItems : Items → Type 0
  HasStorableKeysItems nil = Unit
  HasStorableKeysItems (cons v vs) = HasStorableKeys v × HasStorableKeysItems vs

  pub HasStorableKeysFields : Fields → Type 0
  HasStorableKeysFields end = Unit
  HasStorableKeysFields (field k v fs) = IsStorable k × HasStorableKeys v × HasStorableKeysFields fs

insert-HasStorableKeys :
    (k : Str) (v : Value) (d : Dict Value)
    → IsStorable k
    → HasStorableKeys v
    → HasStorableKeysFields (of_entries d)
    → HasStorableKeysFields (of_entries (insert k v d))
unfolding insert
insert-HasStorableKeys k v [] p q h = (p, q, tt)
insert-HasStorableKeys k v ((j, w) ∷ d) p q (r, hw, h) = elim (Bool-cases (str_eq j k)) [
  | inl same ↦ rw same (r, q, h)
  | inr other ↦ rw other (r, hw, insert-HasStorableKeys k v d p q h)
]

mutual
  unfolding map_keys

  map_keys-HasStorableKeys : (v : Value) → HasStorableKeys (map_keys escape_key v)
  map_keys-HasStorableKeys null = tt
  map_keys-HasStorableKeys (bool b) = tt
  map_keys-HasStorableKeys (num n) = tt
  map_keys-HasStorableKeys (str s) = tt
  map_keys-HasStorableKeys (list xs) = map_items-HasStorableKeys xs
  map_keys-HasStorableKeys (dict fs) = map_fields-HasStorableKeys fs [] tt

  map_items-HasStorableKeys : (xs : Items) → HasStorableKeysItems (map_items escape_key xs)
  map_items-HasStorableKeys nil = tt
  map_items-HasStorableKeys (cons v vs) = (map_keys-HasStorableKeys v, map_items-HasStorableKeys vs)

  map_fields-HasStorableKeys :
      (fs : Fields) (written : Dict Value)
      → HasStorableKeysFields (of_entries written)
      → HasStorableKeysFields (of_entries (map_fields escape_key fs written))
  map_fields-HasStorableKeys end written h = h
  map_fields-HasStorableKeys (field k v fs) written h =
      map_fields-HasStorableKeys fs (insert (escape_key k) (map_keys escape_key v) written) (
        insert-HasStorableKeys (escape_key k) (map_keys escape_key v) written
          (escape_key-IsStorable k) (map_keys-HasStorableKeys v) h)

-- Whatever the body, every key that is stored, at every depth, has no dot in it and does not begin with a dollar.
pub escape_keys-HasStorableKeys : (v : Value) → HasStorableKeys (escape_keys v)
unfolding escape_keys
escape_keys-HasStorableKeys v = map_keys-HasStorableKeys v
