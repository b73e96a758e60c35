-- ===== src/Search/Query.antt =====
-- The filters and the cursor of app/search/query.py. The texts of times, ids and scores are the
-- parameter `Formats`; a score is counted as in Search/Ranking.
pub mod Cursors
use webhook_inbox.Prelude.{
  ℕ, ◌+◌, ◌≡◌, Bool, true, false, ◌&&◌, List, [], ◌∷◌, ◌++◌, Option, none, some, if◌then◌else◌,
  is_empty, ltb, leb, ◌==◌,
}
use webhook_inbox.Prelude.Text.{Str, codes, Unicode, str_eq, split_on, has_char}
use webhook_inbox.Event.{Event}

-- What datetime.fromisoformat gives: a time of a zone, or one of none, as the instant that it is in
-- UTC.
pub data Moment : Type 0 where
  zoned : ℕ → Moment
  naive : ℕ → Moment

-- datetime.isoformat and fromisoformat, str(ObjectId) and ObjectId, str(float) and float. `none` is
-- a ValueError, or an InvalidId or TypeError of ObjectId. What is printed is read back, and holds
-- no '|'.
pub record Formats : Type 0 where
  pub isoformat : ℕ → Str
  pub fromisoformat : Str → Option Moment
  pub hex : ℕ → Str
  pub object_id : Str → Option ℕ
  pub score_text : ℕ → Str
  pub float : Str → Option ℕ
  pub fromisoformat-isoformat : (t : ℕ) → fromisoformat (isoformat t) ≡ some (zoned t)
  pub object_id-hex : (id : ℕ) → object_id (hex id) ≡ some id
  pub float-score_text : (score : ℕ) → float (score_text score) ≡ some score
  pub isoformat_plain : (t : ℕ) → has_char (isoformat t) b'|' ≡ false
  pub hex_plain : (id : ℕ) → has_char (hex id) b'|' ≡ false
  pub score_text_plain : (score : ℕ) → has_char (score_text score) b'|' ≡ false
  pub isoformat_filled : (t : ℕ) → is_empty (isoformat t) ≡ false

-- The instant that the database compares: a time of no zone counts as UTC.
abbrev pub instant : Moment → ℕ
instant (zoned t) = t
instant (naive t) = t

abbrev pub instant_of : Option Moment → Option ℕ
instant_of none = none
instant_of (some m) = some (instant m)

-- A value that is there and not empty.
abbrev pub filled : Option Str → Option Str
filled none = none
filled (some s) = if is_empty s then none else some s

pub record Filters : Type 0 where
  pub endpoint : Option Str
  pub status : Option Str
  pub method : Option Str
  pub event_type : Option Str
  pub date_from : Option Str
  pub date_to : Option Str

-- A query on events, by the keys that `to_query` can set.
pub record EventFilter : Type 0 where
  pub endpoint_id : Option ℕ
  pub with_status : Option Str
  pub with_method : Option Str
  pub with_type : Option Str
  pub from_time : Option ℕ
  pub before_time : Option ℕ

abbrev pub day : ℕ
day = 86_400_000_000

abbrev upper_of : Unicode → Option Str → Option Str
upper_of u none = none
upper_of u (some s) = some (u.upper s)

abbrev day_after : Option ℕ → Option ℕ
day_after none = none
day_after (some t) = some (t + day)

module _ (u : Unicode) (f : Formats) where
  unfoldable pub parse_date : Option Str → Option ℕ
  parse_date value = elim (filled value) [
    | none ↦ none
    | some text ↦ instant_of (f.fromisoformat text)
  ]

  unfoldable pub maybe_object_id : Option Str → Option ℕ
  maybe_object_id value = elim (filled value) [ none ↦ none | some text ↦ f.object_id text ]

  unfoldable pub to_query : Filters → EventFilter
  unfolding parse_date maybe_object_id
  to_query filters = record {
    endpoint_id = maybe_object_id filters.endpoint;
    with_status = filled filters.status;
    with_method = upper_of u (filled filters.method);
    with_type = filled filters.event_type;
    from_time = parse_date filters.date_from;
    before_time = day_after (parse_date filters.date_to);
  }

-- A clause that is not set selects everything.
abbrev pub if_set {ℓ} : {A : Type ℓ} → Option A → (A → Bool) → Bool
if_set none test = true
if_set (some a) test = test a

abbrev equals : Option Str → Str → Bool
equals none text = false
equals (some s) text = str_eq s text

-- What the database selects by such a query.
unfoldable pub selects : EventFilter → Event → Bool
unfolding str_eq
selects q e =
    if_set q.endpoint_id (λ id. e.endpoint_id == id)
    && if_set q.with_status (λ s. str_eq e.status s)
    && if_set q.with_method (λ m. str_eq e.request.method m)
    && if_set q.with_type (λ t. equals e.event_type t)
    && if_set q.from_time (λ t. leb t e.received_at)
    && if_set q.before_time (λ t. ltb e.received_at t)

pub record Cursor : Type 0 where
  pub received_at : ℕ
  pub score : Option ℕ
  pub event_id : Option ℕ

module _ (f : Formats) where
  abbrev id_text : Option ℕ → Str
  id_text none = codes "None"
  id_text (some id) = f.hex id

  encode_with : Cursor → Option ℕ → Str
  encode_with c none = f.isoformat c.received_at
  encode_with c (some score) =
      f.score_text score ++ b'|' ∷ (f.isoformat c.received_at ++ b'|' ∷ id_text c.event_id)

  -- Cursor.encode
  unfoldable pub encode : Cursor → Str
  unfolding encode_with
  encode c = encode_with c c.score

  -- Cursor of one part, and of three.
  listed : Option Moment → Option Cursor
  listed none = none
  listed (some m) = some (record { received_at = instant m; score = none; event_id = none })

  ranked : Option Moment → Option ℕ → Option ℕ → Option Cursor
  ranked (some m) (some score) (some id) =
      some (record { received_at = instant m; score = some score; event_id = some id })
  ranked _ _ _ = none

  of_parts : List Str → Option Cursor
  unfolding listed ranked
  of_parts (received_at ∷ []) = listed (f.fromisoformat received_at)
  of_parts (score ∷ received_at ∷ event_id ∷ []) =
      ranked (f.fromisoformat received_at) (f.float score) (f.object_id event_id)
  of_parts _ = none

  -- Cursor.decode
  unfoldable pub decode : Option Str → Option Cursor
  unfolding of_parts split_on
  decode value = elim (filled value) [ none ↦ none | some text ↦ of_parts (split_on b'|' text) ]
