-- ===== src/Ingest/Tests.antt =====
-- A nested body, stored and read back.
use webhook_inbox.Prelude.{◌≡◌, refl, [], ◌∷◌}
use webhook_inbox.Prelude.Text.{codes, replace_char, str_eq}
use webhook_inbox.Prelude.Dict.{has_key, insert}
use webhook_inbox.Json.{Value, num, str, list, dict, nil, cons, end, field}
use webhook_inbox.Ingest.Keys.{escape_key, escape_keys, unescape_keys}
use webhook_inbox.Ingest.Keys.RoundTrip.{HasPlainKeys, unescape_keys-escape_keys}
use webhook_inbox.Ingest.Depth.{scan_all, nesting_depth}
use webhook_inbox.Ingest.Depth.Rendering.{
  byte, escape, Written, plain, array, object, spaced, element, no_elements, member, no_members,
  json, nesting_depth-json,
}

storing : Unit {0}
unfolding escape_key escape_keys unescape_keys replace_char str_eq has_key insert nesting_depth
    scan_all
storing = tt

-- {"$set": {"a.b": "}"}, "n": [1]}
abbrev body : Value
body = dict (
    field (codes "$set") (dict (field (codes "a.b") (str (codes "}")) end))
      (field (codes "n") (list (cons (num (codes "1")) nil)) end))

-- { "a\"[" : [1, {}] }
abbrev document : Written
document = object (32 ∷ []) (
    member [] (byte b'a' ∷ escape 0x22 ∷ byte b'[' ∷ []) (32 ∷ [])
      (spaced (32 ∷ [])
        (array [] (
          element (plain (codes "1"))
            (element (spaced (32 ∷ []) (object [] no_members) []) no_elements)))
        (32 ∷ []))
      no_members)

document_bytes : json document [] ≡ codes "{ \"a\\\"[\" : [1, {}] }"
document_bytes = refl

nesting_depth-json_example : nesting_depth (json document []) ≡ 3
nesting_depth-json_example = nesting_depth-json document (
  refl,
  (
    refl,
    (refl, (refl, tt)),
    refl,
    (refl, refl, (refl, (refl, ((refl, refl, (refl, tt)), tt)))),
    tt,
  ),
)

body-HasPlainKeys : HasPlainKeys body
unfolding storing
body-HasPlainKeys = (
  (refl, (refl, tt)),
  ((refl, refl), ((refl, tt), ((refl, refl), tt, tt)), ((refl, refl), (tt, tt), tt)),
)

unescape_keys-escape_keys_example : unescape_keys (escape_keys body) ≡ body
unescape_keys-escape_keys_example = unescape_keys-escape_keys body body-HasPlainKeys
