-- ===== src/Ingest/Incoming.antt =====
-- The request as the handler of app/ingest/receiver.py sees it, its checks of the shape and the
-- reading of the body as a stream of chunks.
use webhook_inbox.Prelude.{
  ℕ, ◌+◌, ◌-◌, ◌*◌, Bool, true, false, not, ◌&&◌, ◌||◌, List, [], ◌∷◌, ◌++◌, Option, none,
  if◌then◌else◌, is_empty, ltb, leb, ◌==◌, length, all,
}
use webhook_inbox.Prelude.Text.{Str, codes}
use webhook_inbox.Prelude.Dict.{Dict, lookup, has_key, insert}
use webhook_inbox.RateLimit.Client.{get_or_empty}
use webhook_inbox.Retention.{RetentionConfig}

-- LimitsConfig, as far as the handler reads it
pub record LimitsConfig : Type 0 where
  pub max_payload_size : ℕ
  pub max_header_count : ℕ
  pub max_header_bytes : ℕ
  pub max_query_length : ℕ
  pub max_json_depth : ℕ

pub record Settings : Type 0 where
  pub limits : LimitsConfig
  pub retention : RetentionConfig
  pub trust_forwarded_for : Bool

-- The request: the header lines in order, with names in lower case.
pub record Incoming : Type 0 where
  pub method : Str
  pub path : Str
  pub headers : Dict Str
  pub query : Str
  pub query_params : Dict Str
  pub client : Option Str
  pub chunks : List (List ℕ)

-- dict(request.headers): under every name the value of its first line
unfoldable pub dict_from : Dict Str → Dict Str → Dict Str
unfolding has_key insert
dict_from written [] = written
dict_from written ((k, v) ∷ headers) =
    dict_from (if has_key k written then written else insert k v written) headers

-- How the handler answers. `failed` is an exception that nothing catches.
pub data Answer : Type 0 where
  reject : (status : ℕ) → (reason : Str) → (retry : Option ℕ) → Answer
  accepted : (id : ℕ) → Answer
  failed : Answer

-- A check: passed with a value, or the answer.
pub data Gate {ℓ} (A : Type ℓ) : Type ℓ where
  pass : A → Gate A
  halt : Answer → Gate A

infixl 5 ◌>>=◌ ◌>>◌
abbrev pub ◌>>=◌ {ℓ κ} : {A : Type ℓ} {B : Type κ} → Gate A → (A → Gate B) → Gate B
pass a >>= f = f a
halt answer >>= f = halt answer

abbrev pub ◌>>◌ {ℓ} : {B : Type ℓ} → Gate (Unit {0}) → Gate B → Gate B
m >> k = m >>= λ _. k

-- if test: return _reject(status, reason, path)
abbrev pub reject_if : Bool → ℕ → Str → Gate (Unit {0})
reject_if true status reason = halt (reject status reason none)
reject_if false status reason = pass tt

-- int(text) of ASCII digits
unfoldable pub int_from : ℕ → Str → ℕ
int_from n [] = n
int_from n (c ∷ s) = int_from (n * 10 + (c - b'0')) s

-- The digits of Latin-1, which is what a header value can hold: those of ASCII and three superscripts.
unfoldable pub is_digit : ℕ → Bool
is_digit c = (leb b'0' c && leb c b'9') || (c == 0xb2) || (c == 0xb3) || (c == 0xb9)

-- int(declared) is a ValueError at a superscript, and above 4300 digits.
unfoldable pub is_int : Str → Bool
is_int s = all (λ c. leb b'0' c && leb c b'9') s && leb (length s) 4300

-- Whether the declared length is refused.
unfoldable pub check_declared : Str → ℕ → Gate (Unit {0})
unfolding is_digit is_int int_from
check_declared declared limit =
    if not (is_empty declared) && all is_digit declared
    then (if is_int declared
        then reject_if (ltb limit (int_from 0 declared)) 413 (codes "Payload too large")
        else halt failed)
    else pass tt

-- The loop over the stream.
unfoldable pub read_stream : ℕ → ℕ → List ℕ → List (List ℕ) → Gate (List ℕ)
read_stream limit total kept [] = pass kept
read_stream limit total kept (chunk ∷ chunks) =
    let rest = read_stream limit (total + length chunk) (kept ++ chunk) chunks in
    if ltb limit (total + length chunk)
    then halt (reject 413 (codes "Payload too large") none)
    else rest

unfoldable pub read_limited : Incoming → ℕ → Gate (List ℕ)
unfolding check_declared read_stream lookup
read_limited request limit = do
  check_declared (get_or_empty (lookup (codes "content-length") request.headers)) limit
  read_stream limit 0 [] request.chunks

-- sum(len(key) + len(value) + 4)
unfoldable pub header_bytes : Dict Str → ℕ
header_bytes [] = 0
header_bytes ((key, value) ∷ headers) = length key + length value + 4 + header_bytes headers

-- The checks before the rate limit.
unfoldable pub check_shape : LimitsConfig → Incoming → Gate (Unit {0})
unfolding header_bytes
check_shape limits request = do
  reject_if (ltb limits.max_header_count (length request.headers)) 431 (codes "Too many headers")
  reject_if (ltb limits.max_header_bytes (header_bytes request.headers)) 431
      (codes "Headers too large")
  reject_if (ltb limits.max_query_length (length request.query)) 414 (codes "Query string too long")
