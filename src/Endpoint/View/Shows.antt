-- ===== src/Endpoint/View/Shows.antt =====
-- An endpoint that is well formed can be shown, and what its view says.
use webhook_inbox.Prelude.{◌≡◌, refl, Bool, List, ◌++◌, Option, none, some, arith}
use webhook_inbox.Prelude.Text.{Str, codes, Unicode}
use webhook_inbox.Ingest.Signature.{auth_of, stored_type}
use webhook_inbox.Endpoint.{AuthType, Authentication, Endpoint}
use webhook_inbox.Endpoint.Validation.{AuthConfig, has_secret}
use webhook_inbox.Endpoint.Validation.Configured.{IsConfigured}
use webhook_inbox.Endpoint.View.{
  EndpointOut, config_with, authentication_of, type_or_none, auth_config_of, shown, from_document,
}

-- A view shows the endpoint: its id and name, the URL of its path, its methods, and whether it is on
-- and has a secret.
pub record Shows (e : Endpoint) (v : EndpointOut) : Type 0 where
  pub id : v.id ≡ e.id
  pub name : v.name ≡ e.name
  pub url : v.url ≡ codes "/webhooks/" ++ e.path
  pub enabled : e.enabled ≡ some v.enabled
  pub methods : e.allowed_methods ≡ some v.methods
  pub secret_set : v.secret_set ≡ has_secret e.secret

shown-Shows :
    (e : Endpoint) (auth : Option AuthConfig) (config : AuthConfig) (enabled : Option Bool)
    (on : Bool) (methods : Option (List Str)) (known : List Str)
    → auth ≡ some config
    → enabled ≡ some on
    → methods ≡ some known
    → e.enabled ≡ enabled
    → e.allowed_methods ≡ methods
    → (v : EndpointOut) × (shown e auth enabled methods ≡ some v) × Shows e v
shown-Shows e none config enabled on methods known a b c p q = absurd (ground (arith, a))
shown-Shows e (some auth) config none on methods known a b c p q = absurd (ground (arith, b))
shown-Shows e (some auth) config (some flag) on none known a b c p q = absurd (ground (arith, c))
shown-Shows e (some auth) config (some flag) on (some methods) known a b c p q = (
  _,
  refl,
  record { id = refl; name = refl; url = refl; enabled = p; methods = q; secret_set = refl },
)

config_with-some :
    (u : Unicode) (auth : Authentication) (o : Option AuthType) (kind : AuthType)
    → o ≡ some kind
    → (config : AuthConfig) × (config_with u auth o ≡ some config)
config_with-some u auth none kind h = absurd (ground (arith, h))
config_with-some u auth (some k) kind h = (_, refl)

stored_kind :
    (e : Endpoint) (o : Option Authentication) (kind : AuthType)
    → stored_type (auth_of (record e { authentication = o })).type_text ≡ some kind
    → type_or_none (authentication_of o).type_text ≡ some kind
stored_kind e none kind h = h
stored_kind e (some auth) kind h = typed auth.type_text h
  where
    typed : (text : Option Str) → stored_type text ≡ some kind → type_or_none text ≡ some kind
    typed none k = k
    typed (some text) k = k

pub from_document-Shows :
    (u : Unicode) (e : Endpoint)
    → IsConfigured e
    → (v : EndpointOut) × (from_document u e ≡ some v) × Shows e v
unfolding from_document auth_config_of
from_document-Shows u e conf =
    let (config, made) =
      config_with-some u (authentication_of e.authentication)
        (type_or_none (authentication_of e.authentication).type_text) conf.kind
        (stored_kind e e.authentication conf.kind conf.known_kind) in
    shown-Shows e (auth_config_of u e.authentication) config e.enabled conf.switch e.allowed_methods
      conf.methods made conf.switched conf.takes refl refl
