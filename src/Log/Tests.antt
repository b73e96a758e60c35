-- ===== src/Log/Tests.antt =====
-- Two log entries that differ in a secret.
use webhook_inbox.Prelude.{◌≡◌, refl, [], ◌∷◌, inl, inr}
use webhook_inbox.Prelude.Text.{Str, codes, ascii_case, ascii_lower, contains, starts_with}
use webhook_inbox.Prelude.Dict.{Dict}
use webhook_inbox.Log.{LogValue, plain, nested, is_sensitive, redact}
use webhook_inbox.Log.Redaction.{redact-same}

-- A login, with the header that was sent.
abbrev login : Str → Dict LogValue
login password =
    (codes "event", plain (codes "login"))
    ∷ (codes "headers", nested ((codes "Authorization", password) ∷ []))
    ∷ []

redact-same_example :
    redact ascii_case (login (codes "hunter2")) ≡ redact ascii_case (login (codes "letmein"))
unfolding is_sensitive contains starts_with ascii_lower
redact-same_example =
    redact-same ascii_case (login (codes "hunter2")) (login (codes "letmein"))
      (refl, inr refl, (refl, inr (refl, inl refl, tt), tt))
