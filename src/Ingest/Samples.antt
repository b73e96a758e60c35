-- ===== src/Ingest/Samples.antt =====
-- Values for tests: a codec of single bytes, a digest that tells an empty message from the others,
-- small limits, and a request.
use webhook_inbox.Prelude.{ℕ, ◌≡◌, refl, true, false, List, [], ◌∷◌, some, all, length, arith}
use webhook_inbox.Prelude.Text.{Str, codes}
use webhook_inbox.Event.{Codec}
use webhook_inbox.Ingest.Body.{Parsers, not_json}
use webhook_inbox.Ingest.Signature.{is_hex, Hmac}
use webhook_inbox.Ingest.Incoming.{Settings, Incoming}

pub same_text : (raw text : List ℕ) → some raw ≡ some text → text ≡ raw
same_text raw text h = ground arith

abbrev pub plain_codec : Codec
plain_codec = record {
  decode = λ raw. some raw;
  encode = λ text. text;
  b64encode = λ raw. raw;
  b64decode = λ text. text;
  encode-decode = same_text;
  b64decode-b64encode = λ raw. refl;
}

abbrev pub no_parsers : Parsers
no_parsers = record { loads = λ raw. not_json; parse_qs = λ text. [] }

-- A digest that tells an empty message from the others.
abbrev pub digest : List ℕ → List ℕ → Str
digest key [] = codes "0000000000000000000000000000000000000000000000000000000000000000"
digest key (b ∷ message) = codes "1111111111111111111111111111111111111111111111111111111111111111"

pub digest-hex : (key message : List ℕ) → all is_hex (digest key message) ≡ true
digest-hex key [] = refl
digest-hex key (b ∷ message) = refl

pub length-digest : (key message : List ℕ) → length (digest key message) ≡ 64
length-digest key [] = refl
length-digest key (b ∷ message) = refl

abbrev pub hmac : Hmac
hmac = record { hexdigest = digest; hexdigest-hex = digest-hex; length-hexdigest = length-digest }

abbrev pub settings : Settings
settings = record {
  limits = record {
    max_payload_size = 4;
    max_header_count = 2;
    max_header_bytes = 200;
    max_query_length = 10;
    max_json_depth = 3;
  };
  retention = record { enabled = false; default_days = 30 };
  trust_forwarded_for = false;
}

abbrev pub hi : Incoming
hi = record {
  method = codes "POST";
  path = codes "/demo/";
  headers = (codes "content-length", codes "2") ∷ [];
  query = [];
  query_params = [];
  client = some (codes "10.0.0.1");
  chunks = (104 ∷ []) ∷ (105 ∷ []) ∷ [];
}
