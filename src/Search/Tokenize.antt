-- ===== src/Search/Tokenize.antt =====
-- app/search/tokenize.py: the terms of an event, derived when it is stored.
pub mod Caps
pub mod Secrets
use webhook_inbox.Prelude.{
  ℕ, suc, ◌≤◌, Bool, true, false, not, ◌&&◌, ◌||◌, List, [], ◌∷◌, ◌++◌, Option, none, some, length,
  take, is_empty, leb, ltb, ◌==◌, if◌then◌else◌,
}
use webhook_inbox.Prelude.Text.{Str, codes, Unicode, strip, one_of, has_char}
use webhook_inbox.Prelude.Dict.{Dict}
use webhook_inbox.Json.{
  Value, null, bool, num, str, list, dict, Items, nil, cons, Fields, end, field,
}
use webhook_inbox.Event.{Terms, Event}
use webhook_inbox.Ingest.Keys.{unescape_keys}
use webhook_inbox.Log.{is_sensitive}

abbrev pub token_limit : ℕ
token_limit = 512

abbrev pub trigram_limit : ℕ
trigram_limit = 2048

abbrev pub max_token_length : ℕ
max_token_length = 64

abbrev pub min_trigram_length : ℕ
min_trigram_length = 3

-- [a-z0-9]
abbrev pub is_term_char : ℕ → Bool
is_term_char c = (leb b'a' c && leb c b'z') || (leb b'0' c && leb c b'9')

-- One more character, before the run that the rest begins with and the later parts.
add_char : Bool → ℕ → Str × List Str → Str × List Str
add_char true a (run, parts) = (a ∷ run, parts)
add_char false a ([], parts) = ([], parts)
add_char false a (b ∷ run, parts) = ([], (b ∷ run) ∷ parts)

split_runs : Str → Str × List Str
unfolding add_char
split_runs [] = ([], [])
split_runs (a ∷ s) = add_char (is_term_char a) a (split_runs s)

first_run : Str × List Str → List Str
first_run ([], parts) = parts
first_run (b ∷ run, parts) = (b ∷ run) ∷ parts

-- The parts of SPLIT.split(value) that are not empty: the longest runs of [a-z0-9].
unfoldable pub term_parts : Str → List Str
unfolding split_runs first_run
term_parts value = first_run (split_runs value)

abbrev pub truncate_all : List Str → List Str
truncate_all [] = []
truncate_all (part ∷ parts) = take max_token_length part ∷ truncate_all parts

-- Every window of three characters.
unfoldable pub windows : Str → List Str
windows (a ∷ b ∷ c ∷ s) = (a ∷ b ∷ c ∷ []) ∷ windows (b ∷ c ∷ s)
windows _ = []

unfoldable pub trigrams : Str → List Str
unfolding windows
trigrams token =
    if ltb (length token) min_trigram_length then [] else windows (b' ' ∷ (token ++ b' ' ∷ []))

-- seen[value] = None: a value that was seen keeps its place.
unfoldable pub see : List Str → Str → List Str
unfolding one_of
see seen value = if one_of value seen then seen else seen ++ value ∷ []

-- The loop of `_capped`: what was seen, in order, until the limit is reached.
unfoldable pub capped_from : List Str → List Str → ℕ → List Str
capped_from seen [] limit = seen
capped_from seen (value ∷ values) limit =
    let rest = capped_from (see seen value) values limit in
    if leb limit (length (see seen value)) then see seen value else rest

unfoldable pub capped : List Str → ℕ → List Str
unfolding capped_from
capped values limit = capped_from [] values limit

abbrev pub chain : (Str → List Str) → List Str → List Str
chain f [] = []
chain f (s ∷ strings) = f s ++ chain f strings

module _ (u : Unicode) where
  unfoldable pub normalize : Str → Str
  normalize value = u.lower (strip value)

  unfoldable pub split_terms : Str → List Str
  split_terms value = truncate_all (term_parts (normalize value))

  unfoldable pub tokenize : Str → List Str
  tokenize value =
      let normalized = normalize value in
      let parts = split_terms normalized in
      if ltb 1 (length parts) && not (has_char normalized b' ')
      then parts ++ take max_token_length normalized ∷ []
      else parts

  -- `_collect`: what it appends to `out`, in order.
  unfoldable mutual
    pub collect : Value → List Str
    collect (dict fs) = collect_fields fs
    collect (list xs) = collect_items xs
    collect (str s) = s ∷ []
    collect (bool b) = []
    collect (num n) = n ∷ []
    collect null = []

    pub collect_items : Items → List Str
    collect_items nil = []
    collect_items (cons v vs) = collect v ++ collect_items vs

    pub collect_fields : Fields → List Str
    collect_fields end = []
    collect_fields (field key item fs) =
        if is_sensitive u key then collect_fields fs else (key ∷ collect item) ++ collect_fields fs

  unfoldable pub pair_strings : Dict Str → List Str
  pair_strings [] = []
  pair_strings ((key, value) ∷ pairs) =
      if is_sensitive u key then pair_strings pairs else key ∷ value ∷ pair_strings pairs

  abbrev pub event_type_strings : Option Str → List Str
  event_type_strings none = []
  event_type_strings (some text) = if is_empty text then [] else text ∷ []

  unfoldable pub source_strings : Str → Option Str → Dict Str → Dict Str → Value → List Str
  unfolding collect pair_strings
  source_strings endpoint_name event_type headers query body =
      endpoint_name
      ∷ (event_type_strings event_type
          ++ (pair_strings headers ++ (pair_strings query ++ collect body)))

  unfoldable pub build : Str → Option Str → Dict Str → Dict Str → Value → Terms
  build endpoint_name event_type headers query body =
      let sources = source_strings endpoint_name event_type headers query body in
      let tokens = capped (chain tokenize sources) token_limit in
      record { tokens = tokens; trigrams = capped (chain trigrams tokens) trigram_limit }

  -- For a stored event, whose body keys are escaped.
  unfoldable pub build_from_event : Event → Terms
  build_from_event e =
      build e.endpoint_name e.event_type e.request.headers e.request.query
        (unescape_keys e.request.body)
