-- ===== src/Search/Samples.antt =====
-- Values for tests: texts of times and ids, an event, and a request without filters.
use webhook_inbox.Prelude.{ℕ, zero, suc, ◌≡◌, refl, false, [], ◌∷◌, Option, none, some, is_empty}
use webhook_inbox.Prelude.Text.{Str, codes, has_char}
use webhook_inbox.Json.{null}
use webhook_inbox.Event.{Event}
use webhook_inbox.Search.Query.{Formats, Moment, zoned, Filters}

-- Texts that count: of a number, that many letters behind one.
abbrev pub ticks : ℕ → Str
ticks zero = b'T' ∷ []
ticks (suc n) = b'I' ∷ ticks n

abbrev pub count : Str → Option ℕ
count [] = none
count (a ∷ []) = some 0
count (a ∷ b ∷ s) = elim (count (b ∷ s)) [ none ↦ none | some n ↦ some (suc n) ]

abbrev pub moment : Str → Option Moment
moment s = elim (count s) [ none ↦ none | some t ↦ some (zoned t) ]

pub count-ticks : (n : ℕ) → count (ticks n) ≡ some n
count-ticks zero = refl
count-ticks (suc zero) = refl
count-ticks (suc (suc n)) = rw (count-ticks (suc n)) refl

pub ticks_plain : (n : ℕ) → has_char (ticks n) b'|' ≡ false
ticks_plain zero = refl
ticks_plain (suc n) = ticks_plain n

pub ticks_filled : (n : ℕ) → is_empty (ticks n) ≡ false
ticks_filled zero = refl
ticks_filled (suc n) = refl

abbrev pub formats : Formats
formats = record {
  isoformat = ticks;
  fromisoformat = moment;
  hex = ticks;
  object_id = count;
  score_text = ticks;
  float = count;
  fromisoformat-isoformat = λ t. rw (moment, count-ticks t) refl;
  object_id-hex = count-ticks;
  float-score_text = count-ticks;
  isoformat_plain = ticks_plain;
  hex_plain = ticks_plain;
  score_text_plain = ticks_plain;
  isoformat_filled = ticks_filled;
}

abbrev pub ping : ℕ → Event
ping n = record {
  id = n;
  endpoint_id = 1;
  endpoint_name = codes "demo";
  received_at = n;
  event_type = none;
  request = record {
    method = codes "POST";
    headers = [];
    query = [];
    body = null;
    raw_body = [];
    raw_encoding = codes "utf-8";
    content_type = [];
    body_size = 0;
  };
  search = record { tokens = codes "demo" ∷ []; trigrams = codes " de" ∷ [] };
  status = codes "received";
  response_status = 202;
  source_ip = none;
  user_agent = none;
  expires_at = none;
}

abbrev pub no_filters : Filters
no_filters = record {
  endpoint = none;
  status = none;
  method = none;
  event_type = none;
  date_from = none;
  date_to = none;
}
