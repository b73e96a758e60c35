-- ===== src/Search/Ranking.antt =====
-- The search of app/search/query.py: TrigramBackend, and the lists of events without a search text.
-- A score is counted in units of 1/`scale`, where the source divides by the number of trigrams.
pub mod Relevance
pub mod Keyset
use webhook_inbox.Prelude.{
  ℕ, ◌+◌, ◌*◌, max, ◌≡◌, Bool, true, false, not, ◌&&◌, ◌||◌, List, [], ◌∷◌, map, Option, none, some,
  if◌then◌else◌, length, take, is_empty, any, all, ltb, leb, ◌==◌,
}
use webhook_inbox.Prelude.Sort.{select, sort_by}
use webhook_inbox.Prelude.Text.{Str, Unicode, str_eq, starts_with, one_of, strip}
use webhook_inbox.Event.{Event, Terms}
use webhook_inbox.Search.Tokenize.{normalize, split_terms, trigrams, chain, see}
use webhook_inbox.Search.Query.{Formats, Filters, EventFilter, Cursor, to_query, selects}

-- list(dict.fromkeys(values)), behind what was seen
unfoldable pub from_keys : List Str → List Str → List Str
unfolding see
from_keys seen [] = seen
from_keys seen (value ∷ values) = from_keys (see seen value) values

-- What is looked for: `exact`, `terms` and `grams`.
pub record Probe : Type 0 where
  pub exact : Str
  pub terms : List Str
  pub grams : List Str

unfoldable pub probe : Unicode → Str → Probe
unfolding from_keys
probe u query =
    let exact = normalize u query in
    let terms = from_keys [] (split_terms u exact) in
    record { exact = exact; terms = terms; grams = from_keys [] (chain trigrams terms) }

-- set(values) <= set(others)
unfoldable pub all_in : List Str → List Str → Bool
unfolding one_of
all_in values others = all (λ v. one_of v others) values

-- len(set(values) & set(others)), where `values` has no repeats
unfoldable pub common : List Str → List Str → ℕ
unfolding one_of
common [] others = 0
common (v ∷ values) others = (if one_of v others then 1 else 0) + common values others

-- _candidate_clause
unfoldable pub is_candidate : Probe → Terms → Bool
unfolding starts_with one_of all_in
is_candidate p t =
    one_of p.exact t.tokens
    || any (λ token. starts_with token p.exact) t.tokens
    || (not (is_empty p.terms) && all_in p.terms t.tokens)
    || (not (is_empty p.grams) && any (λ g. one_of g p.grams) t.trigrams)

abbrev pub scale : Probe → ℕ
scale p = max 1 (length p.grams)

abbrev pub min_score : Probe → ℕ
min_score p = 12 * scale p

has_prefix : Probe → Terms → Bool
unfolding str_eq
has_prefix p t = any (λ token. str_eq (take (length p.exact) token) p.exact) t.tokens

-- _score_expression
unfoldable pub score_of : Probe → Terms → ℕ
unfolding one_of all_in common has_prefix
score_of p t =
    if one_of p.exact t.tokens
    then 100 * scale p
    else if has_prefix p t
    then 60 * scale p
    else if all_in p.terms t.tokens
    then 40 * scale p
    else 30 * common t.trigrams p.grams

-- An event with the score that the pipeline adds to it.
pub record Hit : Type 0 where
  pub event : Event
  pub score : ℕ

unfoldable pub scored : Probe → Event → Hit
unfolding score_of
scored p e = record { event = e; score = score_of p e.search }

-- {"$sort": {"score": -1, "received_at": -1, "_id": -1}}
unfoldable pub hit_before : Hit → Hit → Bool
hit_before a b =
    ltb b.score a.score
    || ((b.score == a.score)
        && (ltb b.event.received_at a.event.received_at
            || ((b.event.received_at == a.event.received_at) && ltb b.event.id a.event.id)))

-- {"_id": {"$lt": id}}: nothing is less than null
id_below : Option ℕ → ℕ → Bool
id_below none id = false
id_below (some bound) id = ltb id bound

-- _cursor_clause, where the cursor has a score
unfoldable pub behind : Cursor → ℕ → Hit → Bool
unfolding id_below
behind c score h =
    ltb h.score score
    || ((h.score == score) && ltb h.event.received_at c.received_at)
    || ((h.score == score)
        && (h.event.received_at == c.received_at)
        && id_below c.event_id h.event.id)

-- `cursor and cursor.score is not None`
unfoldable pub is_behind : Option Cursor → Hit → Bool
unfolding behind
is_behind none h = true
is_behind (some c) h = elim c.score [ none ↦ true | some score ↦ behind c score h ]

abbrev pub limited {ℓ} : {A : Type ℓ} → Option ℕ → List A → List A
limited none xs = xs
limited (some n) xs = take n xs

-- {"$sort": {"received_at": -1}}; events of one time keep their order
pub newer : Event → Event → Bool
newer a b = ltb b.received_at a.received_at

pub data Found : Type 0 where
  ranked : List Hit → Found
  listed : List Event → Found

-- Cursor.after
unfoldable pub after_hit : Hit → Cursor
after_hit h = record {
  received_at = h.event.received_at;
  score = some h.score;
  event_id = some h.event.id;
}

unfoldable pub after_event : Event → Cursor
after_event e = record { received_at = e.received_at; score = none; event_id = none }

-- query["received_at"] = {**query.get("received_at", {}), "$lt": cursor.received_at}
unfoldable pub until : Option Cursor → EventFilter → EventFilter
until none q = q
until (some c) q = record {
  endpoint_id = q.endpoint_id;
  with_status = q.with_status;
  with_method = q.with_method;
  with_type = q.with_type;
  from_time = q.from_time;
  before_time = some c.received_at;
}

module _ (u : Unicode) (f : Formats) (events : List Event) where
  -- The stages of build_pipeline before the cursor.
  unfoldable pub matched : Str → Filters → List Hit
  unfolding selects to_query is_candidate probe scored
  matched query filters =
      let p = probe u query in
      select (λ h. leb (min_score p) h.score)
        (map (scored p)
          (select (λ e. selects (to_query u f filters) e && is_candidate p e.search) events))

  -- TrigramBackend.build_pipeline and search
  unfoldable pub search : Str → Filters → Option ℕ → Option Cursor → List Hit
  unfolding matched hit_before is_behind
  search query filters limit cursor =
      limited limit (sort_by hit_before (select (is_behind cursor) (matched query filters)))

  unfoldable pub list_events : Filters → Option ℕ → Option Cursor → List Event
  unfolding newer selects until to_query
  list_events filters limit cursor =
      limited limit (sort_by newer (select (selects (until cursor (to_query u f filters))) events))

  unfoldable pub find_events : Str → Filters → ℕ → Option Cursor → Found
  unfolding search list_events
  find_events query filters limit cursor =
      if is_empty (strip query)
      then listed (list_events filters (some limit) cursor)
      else ranked (search query filters (some limit) cursor)

  -- stream_events: every match
  unfoldable pub stream_events : Str → Filters → Found
  unfolding search list_events
  stream_events query filters =
      if is_empty (strip query)
      then listed (list_events filters none none)
      else ranked (search query filters none none)
