-- ===== src/Endpoint.antt =====
-- The documents of the `endpoints` collection and the path rule of app/models/endpoint.py. A field
-- that a document may lack is an Option.
pub mod Validation
pub mod View
pub mod Update
pub mod Store
pub mod Form
pub mod Effect
pub mod Reached
pub mod Listing
use webhook_inbox.Prelude.{ℕ, Bool, List, [], Option, none, some, ◌==◌, if◌then◌else◌}
use webhook_inbox.Prelude.Text.{Str, codes, starts_with, remove_prefix, strip, strip_by, str_eq}

-- AuthType
pub data AuthType : Type 0 where
  no_auth static_secret hmac_sha256 : AuthType

-- AuthType(value): `none` is a ValueError
unfoldable pub auth_type_of : Str → Option AuthType
unfolding str_eq
auth_type_of value =
    if str_eq value (codes "none")
    then some no_auth
    else if str_eq value (codes "static_secret")
    then some static_secret
    else if str_eq value (codes "hmac_sha256")
    then some hmac_sha256
    else none

-- DEFAULT_AUTH_HEADER, of the types that it has
abbrev pub default_auth_header : AuthType → Str
default_auth_header static_secret = codes "x-webhook-secret"
default_auth_header hmac_sha256 = codes "x-hub-signature-256"
default_auth_header no_auth = []

-- The stored `authentication`, with the type as it stands there.
pub record Authentication : Type 0 where
  pub type_text : Option Str
  pub header : Option Str
  pub signature_prefix : Option Str

pub record Endpoint : Type 0 where
  pub id : ℕ
  pub name : Str
  pub path : Str
  pub enabled : Option Bool
  pub authentication : Option Authentication
  pub secret : Option Str
  pub allowed_methods : Option (List Str)
  pub max_payload_size : Option ℕ
  pub retention_days : Option ℕ

-- The unique index on the path.
abbrev pub same_path : Endpoint → Endpoint → Bool
same_path a b = str_eq a.path b.path

unfoldable pub normalize_path : Str → Str
unfolding strip strip_by starts_with remove_prefix
normalize_path path =
    let cleaned = strip_by (λ c. c == b'/') (strip path) in
    if starts_with cleaned (codes "webhooks/")
    then remove_prefix cleaned (codes "webhooks/")
    else cleaned
