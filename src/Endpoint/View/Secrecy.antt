-- ===== src/Endpoint/View/Secrecy.antt =====
-- What the API shows of a secret, and of an endpoint that was just created.
use webhook_inbox.Prelude.{
  ℕ, List, ◌++◌, ◌≡◌, refl, Bool, false, Option, none, some, is_empty, arith,
}
use webhook_inbox.Prelude.Text.{Str, codes, Unicode, str_eq}
use webhook_inbox.Endpoint.{
  AuthType, no_auth, static_secret, hmac_sha256, auth_type_of, Authentication, Endpoint,
}
use webhook_inbox.Endpoint.Validation.{
  AuthConfig, apply_default_header, EndpointCreate, has_secret, type_name, to_document,
}
use webhook_inbox.Endpoint.View.{
  EndpointOut, prefix_or_default, config_with, shown, auth_config_of, from_document,
}

shown-secret :
    (e : Endpoint) (s t : Str) (auth : Option AuthConfig) (enabled : Option Bool)
    (methods : Option (List Str))
    → is_empty s ≡ false
    → is_empty t ≡ false
    → shown (record e { secret = some s }) auth enabled methods
      ≡ shown (record e { secret = some t }) auth enabled methods
shown-secret e s t (some auth) (some enabled) (some methods) h k = rw (h, k) refl
shown-secret e s t (some auth) (some enabled) none h k = refl
shown-secret e s t (some auth) none methods h k = refl
shown-secret e s t none enabled methods h k = refl

-- Two secrets that are not empty cannot be told apart by what the API shows of an endpoint.
pub from_document-secret :
    (u : Unicode) (e : Endpoint) (s t : Str)
    → is_empty s ≡ false
    → is_empty t ≡ false
    → from_document u (record e { secret = some s })
      ≡ from_document u (record e { secret = some t })
unfolding from_document
from_document-secret u e s t h k =
    shown-secret e s t (auth_config_of u e.authentication) e.enabled e.allowed_methods h k

config-named :
    (u : Unicode) (auth : Authentication) (kind : AuthType)
    → config_with u auth (auth_type_of (type_name kind))
      ≡ some (
          apply_default_header u (record {
            kind = kind;
            header = auth.header;
            signature_prefix = prefix_or_default auth.signature_prefix;
          }))
unfolding auth_type_of str_eq
config-named u auth no_auth = refl
config-named u auth static_secret = refl
config-named u auth hmac_sha256 = refl

shown-some :
    (e : Endpoint) (stored : Option AuthConfig) (auth : AuthConfig) (enabled : Bool)
    (methods : List Str)
    → stored ≡ some auth
    → (out : EndpointOut) × (shown e stored (some enabled) (some methods) ≡ some out)
      × (out.url ≡ codes "/webhooks/" ++ e.path)
      × (out.secret_set ≡ has_secret e.secret)
shown-some e none auth enabled methods h = absurd (ground arith)
shown-some e (some stored) auth enabled methods h = (_, refl, refl, refl)

-- Every endpoint that was created can be shown, with the URL of its path and whether it has a
-- secret.
from_document-to_document :
    (u : Unicode) (id : ℕ) (c : EndpointCreate)
    → (out : EndpointOut) × (from_document u (to_document id c) ≡ some out)
      × (out.url ≡ codes "/webhooks/" ++ c.path)
      × (out.secret_set ≡ has_secret c.secret)
unfolding from_document auth_config_of to_document
from_document-to_document u id c = shown-some (to_document id c) _ _ c.enabled c.allowed (
    config-named u
      (record {
        type_text = some (type_name c.authentication.kind);
        header = c.authentication.header;
        signature_prefix = some c.authentication.signature_prefix;
      })
      c.authentication.kind)
