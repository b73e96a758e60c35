-- ===== src/Endpoint/View.antt =====
-- `EndpointOut` of app/models/endpoint.py: what the API shows of an endpoint. `none` is a
-- ValidationError. The timestamps are left out, as in the document.
pub mod Secrecy
pub mod Shows
mod Tests
use webhook_inbox.Prelude.{ℕ, Bool, true, List, Option, none, some, ◌++◌}
use webhook_inbox.Prelude.Text.{Str, codes, Unicode}
use webhook_inbox.Endpoint.{AuthType, no_auth, auth_type_of, Authentication, Endpoint}
use webhook_inbox.Endpoint.Validation.{AuthConfig, apply_default_header, has_secret}

pub record EndpointOut : Type 0 where
  pub id : ℕ
  pub name : Str
  pub path : Str
  pub url : Str
  pub enabled : Bool
  pub authentication : AuthConfig
  pub secret_set : Bool
  pub methods : List Str
  pub max_payload_size : Option ℕ
  pub retention_days : Option ℕ

abbrev type_or_none : Option Str → Option AuthType
type_or_none none = some no_auth
type_or_none (some text) = auth_type_of text

abbrev prefix_or_default : Option Str → Str
prefix_or_default none = codes "sha256="
prefix_or_default (some prefix) = prefix

abbrev config_with : Unicode → Authentication → Option AuthType → Option AuthConfig
config_with u auth none = none
config_with u auth (some kind) = some (
    apply_default_header u (record {
      kind = kind;
      header = auth.header;
      signature_prefix = prefix_or_default auth.signature_prefix;
    }))

abbrev absent : Authentication
absent = record { type_text = none; header = none; signature_prefix = none }

abbrev authentication_of : Option Authentication → Authentication
authentication_of none = absent
authentication_of (some auth) = auth

-- AuthConfig(**document.get("authentication", {}))
unfoldable pub auth_config_of : Unicode → Option Authentication → Option AuthConfig
unfolding apply_default_header
auth_config_of u stored =
    config_with u (authentication_of stored) (type_or_none (authentication_of stored).type_text)

-- The model from its parts: `document["enabled"]` and `document["allowed_methods"]` are a KeyError
-- when they are missing, which is `none` too.
abbrev shown : Endpoint → Option AuthConfig → Option Bool → Option (List Str) → Option EndpointOut
shown e (some auth) (some enabled) (some methods) = some (record {
  id = e.id;
  name = e.name;
  path = e.path;
  url = codes "/webhooks/" ++ e.path;
  enabled = enabled;
  authentication = auth;
  secret_set = has_secret e.secret;
  methods = methods;
  max_payload_size = e.max_payload_size;
  retention_days = e.retention_days;
})
shown e _ _ _ = none

unfoldable pub from_document : Unicode → Endpoint → Option EndpointOut
unfolding auth_config_of
from_document u e = shown e (auth_config_of u e.authentication) e.enabled e.allowed_methods
