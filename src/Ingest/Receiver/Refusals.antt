-- ===== src/Ingest/Receiver/Refusals.antt =====
-- No check that stops a request lets it be taken for accepted.
use webhook_inbox.Prelude.{
  ℕ, ◌+◌, ◌≡◌, refl, Bool, true, false, not, ◌&&◌, List, [], ◌∷◌, ◌++◌, Option, none, some, ltb,
  length, all, is_empty, Bool-cases, inl, inr,
}
use webhook_inbox.Prelude.Text.{Str, Unicode, one_of, codes}
use webhook_inbox.Prelude.Dict.{lookup}
use webhook_inbox.Event.{Codec}
use webhook_inbox.Endpoint.{Endpoint}
use webhook_inbox.RateLimit.Client.{get_or_empty}
use webhook_inbox.Ingest.Body.{Parsers}
use webhook_inbox.Ingest.Signature.{Hmac, verify}
use webhook_inbox.Ingest.Incoming.{
  Settings, Incoming, dict_from, Answer, reject, accepted, failed, Gate, pass, halt, reject_if,
  read_stream, check_declared, read_limited, check_shape, LimitsConfig, is_digit, is_int, int_from,
  header_bytes, ◌>>=◌,
}
use webhook_inbox.Json.{Value}
use webhook_inbox.Retention.{expires_at, overflows}
use webhook_inbox.Ingest.Receiver.{
  is_enabled, methods_of, limit_of, check_endpoint, check_signature, document_of, body_of,
  value_or_failed, check_expiry, prepare,
}

abbrev pub is_accepted : Answer → Bool
is_accepted (accepted id) = true
is_accepted _ = false

-- Whatever stops a request is no acceptance.
pub data IsRefusal {ℓ} {A : Type ℓ} : Gate A → Type ℓ where
  passes : (a : A) → IsRefusal (pass a)
  refuses : (answer : Answer) → is_accepted answer ≡ false → IsRefusal (halt answer)

bind-IsRefusal {ℓ κ} :
    {A : Type ℓ} {B : Type κ} (g : Gate A) (f : A → Gate B)
    → IsRefusal g
    → ((a : A) → IsRefusal (f a))
    → IsRefusal (g >>= f)
bind-IsRefusal g f (passes a) k = k a
bind-IsRefusal g f (refuses answer h) k = refuses answer h

reject_if-IsRefusal : (b : Bool) (status : ℕ) (reason : Str) → IsRefusal (reject_if b status reason)
reject_if-IsRefusal true status reason = refuses (reject status reason none) refl
reject_if-IsRefusal false status reason = passes tt

pub check_shape-IsRefusal :
    (limits : LimitsConfig) (request : Incoming) → IsRefusal (check_shape limits request)
unfolding check_shape
check_shape-IsRefusal limits request =
    bind-IsRefusal _ _
      (reject_if-IsRefusal (ltb limits.max_header_count (length request.headers)) 431
        (codes "Too many headers"))
      (λ _.
        bind-IsRefusal _ _
          (reject_if-IsRefusal (ltb limits.max_header_bytes (header_bytes request.headers)) 431
            (codes "Headers too large"))
          (λ _.
            reject_if-IsRefusal (ltb limits.max_query_length (length request.query)) 414
              (codes "Query string too long")))

check_endpoint-IsRefusal :
    (request : Incoming) (found : Option Endpoint) → IsRefusal (check_endpoint request found)
unfolding check_endpoint
check_endpoint-IsRefusal request none = refuses (reject 404 (codes "Unknown endpoint") none) refl
check_endpoint-IsRefusal request (some endpoint) =
    bind-IsRefusal _ _
      (reject_if-IsRefusal (not (is_enabled endpoint)) 403 (codes "Endpoint is disabled"))
      (λ _.
        bind-IsRefusal _ _
          (reject_if-IsRefusal (not (one_of request.method (methods_of endpoint))) 405
            (codes "Method not allowed for this endpoint"))
          (λ _. passes endpoint))

read_stream-IsRefusal :
    (limit total : ℕ) (kept : List ℕ) (chunks : List (List ℕ))
    → IsRefusal (read_stream limit total kept chunks)
unfolding read_stream
read_stream-IsRefusal limit total kept [] = passes kept
read_stream-IsRefusal limit total kept (chunk ∷ chunks) =
    elim (Bool-cases (ltb limit (total + length chunk))) [
      | inl over ↦ rw over (refuses (reject 413 (codes "Payload too large") none) refl)
      | inr fits ↦
          rw fits (read_stream-IsRefusal limit (total + length chunk) (kept ++ chunk) chunks)
    ]

check_declared-IsRefusal : (declared : Str) (limit : ℕ) → IsRefusal (check_declared declared limit)
unfolding check_declared
check_declared-IsRefusal declared limit =
    elim (Bool-cases (not (is_empty declared) && all is_digit declared)) [
      | inl number ↦ elim (Bool-cases (is_int declared)) [
        | inl fine ↦
            rw (number, fine)
              (reject_if-IsRefusal (ltb limit (int_from 0 declared)) 413
                (codes "Payload too large"))
        | inr odd ↦ rw (number, odd) (refuses failed refl)
      ]
      | inr other ↦ rw other (passes tt)
    ]

check_signature-IsRefusal : (verdict : Option Bool) → IsRefusal (check_signature verdict)
unfolding check_signature
check_signature-IsRefusal (some true) = passes tt
check_signature-IsRefusal (some false) = refuses (reject 401 (codes "Invalid signature") none) refl
check_signature-IsRefusal none = refuses failed refl

value_or_failed-IsRefusal : (o : Option Value) → IsRefusal (value_or_failed o)
value_or_failed-IsRefusal none = refuses failed refl
value_or_failed-IsRefusal (some body) = passes body

check_expiry-IsRefusal : (expiry : Option ℕ) → IsRefusal (check_expiry expiry)
check_expiry-IsRefusal expiry = elim (Bool-cases (overflows expiry)) [
  | inl late ↦ rw late (refuses failed refl)
  | inr fine ↦ rw fine (passes tt)
]

module _ (u : Unicode) (codec : Codec) (parsers : Parsers) (hmac : Hmac) (settings : Settings) where
  pub prepare-IsRefusal :
      (id received_at : ℕ) (request : Incoming) (found : Option Endpoint)
      → IsRefusal (prepare u codec parsers hmac settings id received_at request found)
  unfolding prepare read_limited
  prepare-IsRefusal id received_at request found =
      bind-IsRefusal _ _ (check_endpoint-IsRefusal request found) (λ endpoint.
        bind-IsRefusal _ _
          (bind-IsRefusal _ _
            (check_declared-IsRefusal
              (get_or_empty (lookup (codes "content-length") request.headers))
              (limit_of settings endpoint))
            (λ _. read_stream-IsRefusal (limit_of settings endpoint) 0 [] request.chunks))
          (λ raw.
            bind-IsRefusal _ _
              (check_signature-IsRefusal
                (verify u codec hmac endpoint (dict_from [] request.headers) raw))
              (λ _.
                bind-IsRefusal _ _
                  (value_or_failed-IsRefusal (body_of u codec parsers hmac settings request raw))
                  (λ body.
                    bind-IsRefusal _ _
                      (check_expiry-IsRefusal (expires_at endpoint settings.retention received_at))
                      (λ _. passes (
                        document_of u codec parsers hmac settings id received_at request endpoint
                          raw body))))))
