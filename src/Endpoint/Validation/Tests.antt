-- ===== src/Endpoint/Validation/Tests.antt =====
-- The creation of an endpoint.
use webhook_inbox.Prelude.{◌≡◌, refl, true, [], ◌∷◌, ◌++◌, none, some}
use webhook_inbox.Prelude.Text.{codes, starts_with, contains, strip, strip_by, drop_while, is_space}
use webhook_inbox.Endpoint.{hmac_sha256, normalize_path}
use webhook_inbox.Endpoint.Validation.{
  is_slug, slug_tail, matches_path, validate_path, EndpointCreate,
}

-- What was sent, and what it becomes.
abbrev payload : EndpointCreate
payload = record {
  name = codes "GitHub";
  path = codes " /webhooks/team/github ";
  enabled = true;
  authentication = record { kind = hmac_sha256; header = none; signature_prefix = codes "sha256=" };
  secret = some (codes "key");
  allowed = codes "post" ∷ [];
  max_payload_size = none;
  retention_days = none;
}

abbrev created : EndpointCreate
created = record payload {
  path = codes "team/github";
  authentication = record {
    kind = hmac_sha256;
    header = some (codes "x-hub-signature-256");
    signature_prefix = codes "sha256=";
  };
  allowed = codes "POST" ∷ [];
}

-- A newline before the last slash stays in the path.
newline_kept : validate_path (codes "a" ++ 10 ∷ b'/' ∷ []) ≡ some (codes "a" ++ 10 ∷ [])
unfolding is_slug slug_tail matches_path validate_path normalize_path starts_with contains strip
    strip_by drop_while is_space
newline_kept = refl
