-- ===== src/Endpoint/Validation.antt =====
-- The validation of endpoints in app/models/endpoint.py. `none` is a ValueError.
pub mod Configured
mod Tests
use webhook_inbox.Prelude.{
  ℕ, Bool, true, false, not, ◌&&◌, ◌||◌, List, [], ◌∷◌, map, Option, none, some, ◌==◌, leb, ltb,
  all, length, is_empty, if◌then◌else◌,
}
use webhook_inbox.Prelude.Text.{Str, codes, Unicode, contains, one_of}
use webhook_inbox.Endpoint.{
  AuthType, no_auth, static_secret, hmac_sha256, default_auth_header, Authentication, Endpoint,
  normalize_path,
}

abbrev pub allowed_methods : List Str
allowed_methods = codes "GET" ∷ codes "POST" ∷ codes "PUT" ∷ codes "PATCH" ∷ codes "DELETE" ∷ []

-- A character of PATH_PATTERN.
unfoldable pub is_slug : ℕ → Bool
is_slug c =
    (leb b'A' c && leb c b'Z')
    || (leb b'a' c && leb c b'z')
    || (leb b'0' c && leb c b'9')
    || (c == b'.')
    || (c == b'_')
    || (c == b'~')
    || (c == b'/')
    || (c == b'-')

-- PATH_PATTERN.match: `$` also matches before a newline at the end.
unfoldable pub slug_tail : Str → Bool
unfolding is_slug
slug_tail [] = true
slug_tail (a ∷ []) = is_slug a || (a == 10)
slug_tail (a ∷ b ∷ s) = is_slug a && slug_tail (b ∷ s)

unfoldable pub matches_path : Str → Bool
unfolding slug_tail is_slug
matches_path [] = false
matches_path (a ∷ s) = is_slug a && slug_tail s

unfoldable pub validate_path : Str → Option Str
unfolding matches_path normalize_path contains
validate_path value =
    let cleaned = normalize_path value in
    if is_empty cleaned || not (matches_path cleaned) || contains cleaned (codes "..")
    then none
    else some cleaned

unfoldable pub validate_methods : Unicode → List Str → Option (List Str)
unfolding one_of
validate_methods u value =
    let methods = map u.upper value in
    if is_empty methods || not (all (λ m. one_of m allowed_methods) methods)
    then none
    else some methods

pub record AuthConfig : Type 0 where
  pub kind : AuthType
  pub header : Option Str
  pub signature_prefix : Str

-- DEFAULT_AUTH_HEADER.get(type)
abbrev default_header : AuthType → Option Str
default_header no_auth = none
default_header static_secret = some (default_auth_header static_secret)
default_header hmac_sha256 = some (default_auth_header hmac_sha256)

abbrev header_or_default : Unicode → Option Str → AuthType → Option Str
header_or_default u none kind = default_header kind
header_or_default u (some header) kind =
    if is_empty header then default_header kind else some (u.lower header)

unfoldable pub apply_default_header : Unicode → AuthConfig → AuthConfig
apply_default_header u auth = record auth { header = header_or_default u auth.header auth.kind }

pub record EndpointCreate : Type 0 where
  pub name : Str
  pub path : Str
  pub enabled : Bool
  pub authentication : AuthConfig
  pub secret : Option Str
  pub allowed : List Str
  pub max_payload_size : Option ℕ
  pub retention_days : Option ℕ

-- Field(default=None, gt=0)
abbrev pub is_positive : Option ℕ → Bool
is_positive none = true
is_positive (some n) = ltb 0 n

-- bool(secret)
abbrev pub has_secret : Option Str → Bool
has_secret none = false
has_secret (some secret) = not (is_empty secret)

abbrev pub asks_nothing : AuthType → Bool
asks_nothing no_auth = true
asks_nothing _ = false

-- The constraints on single fields that change nothing, and the secret that authentication needs.
unfoldable pub meets_constraints : EndpointCreate → Bool
meets_constraints p =
    leb 1 (length p.name)
    && leb (length p.name) 64
    && is_positive p.max_payload_size
    && is_positive p.retention_days
    && (asks_nothing p.authentication.kind || has_secret p.secret)

-- The model with its fields replaced by their validated values.
unfoldable pub with_fields :
    Unicode → EndpointCreate → Option Str → Option (List Str) → Option EndpointCreate
unfolding apply_default_header meets_constraints
with_fields u payload (some path) (some methods) =
    if meets_constraints payload
    then some (record payload {
      path = path;
      authentication = apply_default_header u payload.authentication;
      allowed = methods;
    })
    else none
with_fields u payload _ _ = none

unfoldable pub validate_create : Unicode → EndpointCreate → Option EndpointCreate
unfolding with_fields validate_path validate_methods
validate_create u payload =
    with_fields u payload (validate_path payload.path) (validate_methods u payload.allowed)

-- AuthType.value
abbrev pub type_name : AuthType → Str
type_name no_auth = codes "none"
type_name static_secret = codes "static_secret"
type_name hmac_sha256 = codes "hmac_sha256"

-- `to_document`, with the id that the driver gives; no modelled part reads the two timestamps.
unfoldable pub to_document : ℕ → EndpointCreate → Endpoint
to_document id p = record {
  id = id;
  name = p.name;
  path = p.path;
  enabled = some p.enabled;
  authentication = some (record {
    type_text = some (type_name p.authentication.kind);
    header = p.authentication.header;
    signature_prefix = some p.authentication.signature_prefix;
  });
  secret = p.secret;
  allowed_methods = some p.allowed;
  max_payload_size = p.max_payload_size;
  retention_days = p.retention_days;
}
