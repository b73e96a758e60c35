-- ===== src/Ingest/Body.antt =====
-- `decode_raw`, `parse_body` and `extract_event_type` of app/ingest/parser.py. `json.loads` and
-- `parse_qs` are the parameter `Parsers`.
pub mod Raw
use webhook_inbox.Prelude.{
  ℕ, ◌+◌, Bool, true, false, ◌||◌, List, [], ◌∷◌, Option, none, some, if◌then◌else◌, is_empty, ltb,
}
use webhook_inbox.Prelude.Text.{
  first_piece, Str, codes, Unicode, str_eq, starts_with, ends_with, split_on, strip,
}
use webhook_inbox.Prelude.Dict.{Dict, lookup}
use webhook_inbox.Json.{Value, null, str, list, dict, Items, nil, cons, Fields, end, field, entries}
use webhook_inbox.Event.{Codec}
use webhook_inbox.Ingest.Depth.{nesting_depth}

-- json.loads of bytes: a value, one of the three exceptions that are caught, or another one, such as
-- the ValueError for a number of more than 4300 digits.
pub data Loaded : Type 0 where
  loaded : Value → Loaded
  not_json raised : Loaded

pub record Parsers : Type 0 where
  pub loads : List ℕ → Loaded
  pub parse_qs : Str → Dict (List Str)

abbrev pub event_type_headers : List Str
event_type_headers =
    codes "x-webhook-event"
    ∷ codes "x-github-event"
    ∷ codes "x-event-name"
    ∷ codes "x-event-type"
    ∷ []

abbrev pub event_type_fields : List Str
event_type_fields = codes "event" ∷ codes "type" ∷ codes "event_type" ∷ codes "eventType" ∷ []

-- The text and its encoding: base64 when the body is not valid UTF-8.
unfoldable pub decode_raw : Codec → List ℕ → Str × Str
decode_raw codec raw = elim (codec.decode raw) [
  | some text ↦ (text, codes "utf-8")
  | none ↦ (codec.b64encode raw, codes "base64")
]

-- content_type.split(";")[0].strip().lower()
unfoldable pub media_type_of : Unicode → Str → Str
unfolding strip split_on
media_type_of u content_type = u.lower (strip (first_piece (split_on b';' content_type)))

abbrev texts : List Str → Items
texts [] = nil
texts (s ∷ ss) = cons (str s) (texts ss)

-- v[0] if len(v) == 1 else v
abbrev one_or_all : List Str → Value
one_or_all [] = list nil
one_or_all (s ∷ []) = str s
one_or_all (s ∷ t ∷ ss) = list (texts (s ∷ t ∷ ss))

unfoldable pub form_fields : Dict (List Str) → Fields
form_fields [] = end
form_fields ((k, v) ∷ parsed) = field k (one_or_all v) (form_fields parsed)

abbrev value_or_null : Loaded → Option Value
value_or_null (loaded v) = some v
value_or_null not_json = some null
value_or_null raised = none

-- A body of each of the three media types: `none` is an exception that leaves `parse_body`.
unfoldable pub parse_json : Parsers → List ℕ → ℕ → Option Value
unfolding nesting_depth
parse_json parsers raw max_depth =
    if ltb max_depth (nesting_depth raw) then some null else value_or_null (parsers.loads raw)

unfoldable pub parse_form : Codec → Parsers → List ℕ → Value
unfolding form_fields
parse_form codec parsers raw = elim (codec.decode raw) [
  | none ↦ null
  | some text ↦ dict (form_fields (parsers.parse_qs text))
]

unfoldable pub parse_text : Codec → List ℕ → Value
parse_text codec raw = elim (codec.decode raw) [ none ↦ null | some text ↦ str text ]

unfoldable pub parse_body : Unicode → Codec → Parsers → List ℕ → Str → ℕ → Option Value
unfolding media_type_of parse_json parse_form parse_text str_eq ends_with starts_with
parse_body u codec parsers raw content_type max_depth =
    let media_type = media_type_of u content_type in
    if is_empty raw
    then some null
    else if str_eq media_type (codes "application/json") || ends_with media_type (codes "+json")
    then parse_json parsers raw max_depth
    else if str_eq media_type (codes "application/x-www-form-urlencoded")
    then some (parse_form codec parsers raw)
    else if starts_with media_type (codes "text/")
    then some (parse_text codec raw)
    else some null

-- The first of the headers that is there and not empty.
unfoldable pub type_in_headers : List Str → Dict Str → Option Str
unfolding lookup
type_in_headers [] headers = none
type_in_headers (header ∷ names) headers =
    let rest = type_in_headers names headers in
    elim (lookup header headers) [
      | none ↦ rest
      | some value ↦ if is_empty value then rest else some value
    ]

abbrev text_of : Option Value → Option Str
text_of (some (str s)) = if is_empty s then none else some s
text_of _ = none

unfoldable pub type_in_fields : List Str → Dict Value → Option Str
unfolding lookup
type_in_fields [] body = none
type_in_fields (name ∷ names) body =
    let rest = type_in_fields names body in
    elim (text_of (lookup name body)) [ none ↦ rest | some value ↦ some value ]

abbrev type_in_body : Value → Option Str
type_in_body (dict fs) = type_in_fields event_type_fields (entries fs)
type_in_body _ = none

unfoldable pub extract_event_type : Dict Str → Value → Option Str
unfolding type_in_headers type_in_fields
extract_event_type headers body = elim (type_in_headers event_type_headers headers) [
  | some value ↦ some value
  | none ↦ type_in_body body
]
