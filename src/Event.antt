-- ===== src/Event.antt =====
-- The documents of the `events` collection, as app/ingest/receiver.py writes them, and what the program
-- uses of Python's codecs.
use webhook_inbox.Prelude.{ℕ, ◌≡◌, Option, some, List}
use webhook_inbox.Prelude.Text.{Str}
use webhook_inbox.Prelude.Dict.{Dict}
use webhook_inbox.Json.{Value}

pub record Request : Type 0 where
  pub method : Str
  pub headers : Dict Str
  pub query : Dict Str
  pub body : Value
  pub raw_body : Str
  pub raw_encoding : Str
  pub content_type : Str
  pub body_size : ℕ

-- The terms under which an event is found.
pub record Terms : Type 0 where
  pub tokens : List Str
  pub trigrams : List Str

pub record Event : Type 0 where
  pub id : ℕ
  pub endpoint_id : ℕ
  pub endpoint_name : Str
  pub received_at : ℕ
  pub event_type : Option Str
  pub request : Request
  pub search : Terms
  pub status : Str
  pub response_status : ℕ
  pub source_ip : Option Str
  pub user_agent : Option Str
  pub expires_at : Option ℕ

abbrev pub event_id_of : Event → ℕ
event_id_of e = e.id

-- bytes.decode() (`none` is a UnicodeDecodeError), str.encode(), base64.b64encode(…).decode() and
-- base64.b64decode. What one half encodes the other gives back.
pub record Codec : Type 0 where
  pub decode : List ℕ → Option Str
  pub encode : Str → List ℕ
  pub b64encode : List ℕ → Str
  pub b64decode : Str → List ℕ
  pub encode-decode : (raw : List ℕ) (text : Str) → decode raw ≡ some text → encode text ≡ raw
  pub b64decode-b64encode : (raw : List ℕ) → b64decode (b64encode raw) ≡ raw
