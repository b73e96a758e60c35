-- ===== src/Log.antt =====
-- app/log.py: which keys are sensitive, and the processor that redacts log entries.
pub mod Redaction
mod Tests
use webhook_inbox.Prelude.{Bool, true, false, ◌||◌, List, [], ◌∷◌, any, if◌then◌else◌}
use webhook_inbox.Prelude.Text.{Str, codes, Unicode, contains}
use webhook_inbox.Prelude.Dict.{Dict}

abbrev pub sensitive_keys : List Str
sensitive_keys =
    codes "authorization"
    ∷ codes "cookie"
    ∷ codes "set-cookie"
    ∷ codes "proxy-authorization"
    ∷ codes "password"
    ∷ codes "secret"
    ∷ codes "token"
    ∷ codes "api_key"
    ∷ codes "apikey"
    ∷ codes "x-webhook-secret"
    ∷ codes "x-hub-signature"
    ∷ codes "x-hub-signature-256"
    ∷ codes "stripe-signature"
    ∷ codes "session"
    ∷ []

abbrev pub redacted : Str
redacted = codes "[redacted]"

-- The value of a log entry: a dictionary, or anything else, as its text.
pub data LogValue : Type 0 where
  plain : Str → LogValue
  nested : Dict Str → LogValue

module _ (u : Unicode) where
  unfoldable pub is_sensitive : Str → Bool
  unfolding contains
  is_sensitive key = any (contains (u.lower key)) sensitive_keys

  unfoldable pub redact_nested : Dict Str → Dict Str
  redact_nested [] = []
  redact_nested ((key, value) ∷ d) =
      (key, if is_sensitive key then redacted else value) ∷ redact_nested d

  redact_value : LogValue → LogValue
  redact_value (plain text) = plain text
  redact_value (nested d) = nested (redact_nested d)

  unfoldable pub redact : Dict LogValue → Dict LogValue
  unfolding redact_nested redact_value
  redact [] = []
  redact ((key, value) ∷ event) =
      (key, if is_sensitive key then plain redacted else redact_value value) ∷ redact event
