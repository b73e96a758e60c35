-- ===== src/Export.antt =====
-- app/export.py, and export_events of app/web/routes.py: the stored events as JSON, JSON lines and
-- CSV. What json.dumps and csv.writer print is the parameter `Printers`; the name of the file is left
-- out.
pub mod Everything
pub mod Cells
pub mod Lines
mod Tests
use webhook_inbox.Prelude.{
  ℕ, ◌≡◌, Bool, true, false, ◌||◌, List, [], ◌∷◌, ◌++◌, map, Option, none, some, if◌then◌else◌,
  ◌==◌,
}
use webhook_inbox.Prelude.Text.{Str, codes, Unicode, str_eq, one_of, has_char}
use webhook_inbox.Event.{Event, Request}
use webhook_inbox.Ingest.Keys.{unescape_keys}
use webhook_inbox.Search.Query.{Formats, Filters}
use webhook_inbox.Search.Ranking.{Hit, Found, ranked, listed, stream_events}

-- The public view of an event.
pub record Public : Type 0 where
  pub id : Str
  pub received_at : ℕ
  pub endpoint : Str
  pub event_type : Option Str
  pub request : Request
  pub status : Str
  pub response_status : ℕ
  pub source_ip : Option Str
  pub user_agent : Option Str

-- A value in a cell of a CSV row.
pub data Cell : Type 0 where
  text : Str → Cell
  number : ℕ → Cell
  absent : Cell

-- json.dumps(…, default=_encode), which prints on one line, and the line that
-- csv.writer.writerow writes.
pub record Printers : Type 0 where
  pub dumps : Public → Str
  pub writerow : List Cell → Str
  pub dumps_one_line : (p : Public) → has_char (dumps p) 10 ≡ false

abbrev pub formats : List Str
formats = codes "json" ∷ codes "jsonl" ∷ codes "csv" ∷ []

abbrev pub csv_columns : List Cell
csv_columns =
    text (codes "id")
    ∷ text (codes "received_at")
    ∷ text (codes "endpoint")
    ∷ text (codes "event_type")
    ∷ text (codes "method")
    ∷ text (codes "status")
    ∷ text (codes "response_status")
    ∷ text (codes "content_type")
    ∷ text (codes "body_size")
    ∷ text (codes "source_ip")
    ∷ text (codes "user_agent")
    ∷ text (codes "body")
    ∷ []

-- c in FORMULA_PREFIXES
abbrev pub is_formula_prefix : ℕ → Bool
is_formula_prefix c =
    (c == b'=') || (c == b'+') || (c == b'-') || (c == b'@') || (c == 9) || (c == 13)

-- value[:1] in FORMULA_PREFIXES
abbrev pub starts_formula : Str → Bool
starts_formula [] = false
starts_formula (c ∷ s) = is_formula_prefix c

unfoldable pub csv_safe : Cell → Cell
csv_safe (text s) = if starts_formula s then text (0x27 ∷ s) else text s
csv_safe (number n) = number n
csv_safe absent = absent

abbrev pub cell_of : Option Str → Cell
cell_of none = absent
cell_of (some s) = text s

module _ (f : Formats) where
  unfoldable pub public : Event → Public
  public e = record {
    id = f.hex e.id;
    received_at = e.received_at;
    endpoint = e.endpoint_name;
    event_type = e.event_type;
    request = record e.request { body = unescape_keys e.request.body };
    status = e.status;
    response_status = e.response_status;
    source_ip = e.source_ip;
    user_agent = e.user_agent;
  }

  abbrev pub cells_of : Event → List Cell
  cells_of e =
      text (f.hex e.id)
      ∷ text (f.isoformat e.received_at)
      ∷ text e.endpoint_name
      ∷ cell_of e.event_type
      ∷ text e.request.method
      ∷ text e.status
      ∷ number e.response_status
      ∷ text e.request.content_type
      ∷ number e.request.body_size
      ∷ cell_of e.source_ip
      ∷ cell_of e.user_agent
      ∷ text e.request.raw_body
      ∷ []

  unfoldable pub csv_row : Event → List Cell
  unfolding csv_safe
  csv_row e = map csv_safe (cells_of e)

module _ (f : Formats) (p : Printers) where
  -- The pieces that are streamed, in order.
  unfoldable pub stream_jsonl : List Event → List Str
  unfolding public
  stream_jsonl [] = []
  stream_jsonl (e ∷ rows) = (p.dumps (public f e) ++ 10 ∷ []) ∷ stream_jsonl rows

  -- The loop of stream_json, with its variable `first`.
  json_pieces : Bool → List Event → List Str
  unfolding public
  json_pieces first [] = []
  json_pieces first (e ∷ rows) =
      ((if first then [] else b',' ∷ 10 ∷ []) ++ p.dumps (public f e)) ∷ json_pieces false rows

  unfoldable pub stream_json : List Event → List Str
  unfolding json_pieces
  stream_json rows = (b'[' ∷ 10 ∷ []) ∷ (json_pieces true rows ++ (10 ∷ b']' ∷ 10 ∷ []) ∷ [])

  csv_lines : List Event → List Str
  unfolding csv_row
  csv_lines [] = []
  csv_lines (e ∷ rows) = p.writerow (csv_row f e) ∷ csv_lines rows

  unfoldable pub stream_csv : List Event → List Str
  unfolding csv_lines
  stream_csv rows = p.writerow csv_columns ∷ csv_lines rows

abbrev pub documents_of : Found → List Event
documents_of (ranked hits) = map (λ h. h.event) hits
documents_of (listed events) = events

-- The answer of export_events: the pieces of the body, or a status.
pub data Exported : Type 0 where
  streamed : List Str → Exported
  refused : (status : ℕ) → Exported

module _ (u : Unicode) (f : Formats) (p : Printers) (events : List Event) where
  -- STREAMERS[export_format]
  streamer : Str → List Event → List Str
  unfolding stream_json stream_jsonl stream_csv str_eq
  streamer export_format rows =
      if str_eq export_format (codes "json")
      then stream_json f p rows
      else if str_eq export_format (codes "jsonl")
      then stream_jsonl f p rows
      else stream_csv f p rows

  unfoldable pub export_events : Str → Filters → Str → Exported
  unfolding streamer one_of stream_events
  export_events query filters export_format =
      if one_of export_format formats
      then streamed (streamer export_format (documents_of (stream_events u f events query filters)))
      else refused 400
