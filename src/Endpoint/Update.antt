-- ===== src/Endpoint/Update.antt =====
-- `EndpointUpdate` of app/models/endpoint.py and update_endpoint of app/api/endpoints.py, up to the
-- call that writes. The timestamps are left out, as in the document.
pub mod Fields
pub mod Refused
pub mod Changed
mod Tests
use webhook_inbox.Prelude.{
  ℕ, ◌≡◌, Bool, true, false, not, ◌&&◌, ◌||◌, List, [], ◌∷◌, Option, none, some, if◌then◌else◌,
  is_empty, length, leb, ltb,
}
use webhook_inbox.Prelude.Text.{Str, Unicode, codes, str_eq}
use webhook_inbox.Endpoint.{Authentication, Endpoint}
use webhook_inbox.Endpoint.Validation.{
  AuthConfig, apply_default_header, validate_path, validate_methods, has_secret, type_name,
}

-- A field of the payload: left out, null, or a value.
pub data SentField {ℓ} (A : Type ℓ) : Type ℓ where
  unset : SentField A
  nulled : SentField A
  given : A → SentField A

pub record EndpointUpdate : Type 0 where
  pub name : SentField Str
  pub path : SentField Str
  pub enabled : SentField Bool
  pub authentication : SentField AuthConfig
  pub secret : SentField Str
  pub allowed : SentField (List Str)
  pub max_payload_size : SentField ℕ
  pub retention_days : SentField ℕ

-- A validator that lets null pass. `none` is a ValueError.
abbrev pub check_sent {ℓ} : {A : Type ℓ} → (A → Option A) → SentField A → Option (SentField A)
check_sent check unset = some unset
check_sent check nulled = some nulled
check_sent check (given a) = elim (check a) [ none ↦ none | some b ↦ some (given b) ]

abbrev pub check_if {ℓ} : {A : Type ℓ} → (A → Bool) → A → Option A
check_if test a = if test a then some a else none

abbrev pub is_name : Str → Bool
is_name name = leb 1 (length name) && leb (length name) 64

-- The model of validated fields.
with_checked :
    Option (SentField Str)
    → Option (SentField Str)
    → SentField Bool
    → Option (SentField AuthConfig)
    → SentField Str
    → Option (SentField (List Str))
    → Option (SentField ℕ)
    → Option (SentField ℕ)
    → Option EndpointUpdate
with_checked (some name) (some path) enabled (some auth) secret (some methods) (some size)
      (some days) =
    some (record {
      name = name;
      path = path;
      enabled = enabled;
      authentication = auth;
      secret = secret;
      allowed = methods;
      max_payload_size = size;
      retention_days = days;
    })
with_checked _ _ enabled _ secret _ _ _ = none

unfoldable pub validate_update : Unicode → EndpointUpdate → Option EndpointUpdate
unfolding with_checked validate_path validate_methods apply_default_header
validate_update u p =
    with_checked (check_sent (check_if is_name) p.name) (check_sent validate_path p.path) p.enabled
      (check_sent (λ auth. some (apply_default_header u auth)) p.authentication) p.secret
      (check_sent (validate_methods u) p.allowed)
      (check_sent (check_if (λ n. ltb 0 n)) p.max_payload_size)
      (check_sent (check_if (λ n. ltb 0 n)) p.retention_days)

abbrev stored_type_text : Option Authentication → Str
stored_type_text none = codes "none"
stored_type_text (some auth) = elim auth.type_text [ none ↦ codes "none" | some text ↦ text ]

-- merged.get("authentication", {}).get("type", "none"): `none` is the AttributeError of null
unfoldable pub merged_type : Option Authentication → SentField AuthConfig → Option Str
merged_type stored unset = some (stored_type_text stored)
merged_type stored nulled = none
merged_type stored (given auth) = some (type_name auth.kind)

-- merged.get("secret")
abbrev pub merged_secret : Option Str → SentField Str → Option Str
merged_secret stored unset = stored
merged_secret stored nulled = none
merged_secret stored (given secret) = some secret

-- How the handler ends before it writes, or the changes that it writes.
pub data Prepared : Type 0 where
  rejected : (status : ℕ) → Prepared
  raised : Prepared
  ready : EndpointUpdate → Prepared

pub check_merged : EndpointUpdate → Option Str → Option Str → Prepared
unfolding str_eq
check_merged changes none secret = raised
check_merged changes (some kind) secret =
    if not (str_eq kind (codes "none")) && not (has_secret secret)
    then rejected 422
    else ready changes

unfoldable pub prepare_changes : Endpoint → Option EndpointUpdate → Prepared
unfolding check_merged merged_type
prepare_changes e none = rejected 422
prepare_changes e (some changes) =
    check_merged changes (merged_type e.authentication changes.authentication)
      (merged_secret e.secret changes.secret)

-- update_endpoint from the document that was found to the changes of its `$set`.
unfoldable pub update_endpoint : Unicode → Option Endpoint → EndpointUpdate → Prepared
unfolding prepare_changes validate_update
update_endpoint u none payload = elim (validate_update u payload) [
  | none ↦ rejected 422
  | some changes ↦ rejected 404
]
update_endpoint u (some e) payload = prepare_changes e (validate_update u payload)

-- A field that every reader needs: null in its place leaves no endpoint.
abbrev pub kept {ℓ} : {A : Type ℓ} → A → SentField A → Option A
kept old unset = some old
kept old nulled = none
kept old (given a) = some a

-- A field that may lack, and one that may be null.
abbrev pub kept_some {ℓ} : {A : Type ℓ} → Option A → SentField A → Option (Option A)
kept_some old unset = some old
kept_some old nulled = none
kept_some old (given a) = some (some a)

abbrev pub kept_or_null {ℓ} : {A : Type ℓ} → Option A → SentField A → Option A
kept_or_null old unset = old
kept_or_null old nulled = none
kept_or_null old (given a) = some a

abbrev stored_auth : AuthConfig → Authentication
stored_auth auth = record {
  type_text = some (type_name auth.kind);
  header = auth.header;
  signature_prefix = some auth.signature_prefix;
}

abbrev pub kept_auth : Option Authentication → SentField AuthConfig → Option (Option Authentication)
kept_auth old unset = some old
kept_auth old nulled = none
kept_auth old (given auth) = some (some (stored_auth auth))

abbrev assembled :
    Endpoint
    → EndpointUpdate
    → Str
    → Str
    → Option Bool
    → Option Authentication
    → Option (List Str)
    → Endpoint
assembled e c name path enabled auth methods = record {
  id = e.id;
  name = name;
  path = path;
  enabled = enabled;
  authentication = auth;
  secret = merged_secret e.secret c.secret;
  allowed_methods = methods;
  max_payload_size = kept_or_null e.max_payload_size c.max_payload_size;
  retention_days = kept_or_null e.retention_days c.retention_days;
}

assemble :
    Endpoint
    → EndpointUpdate
    → Option Str
    → Option Str
    → Option (Option Bool)
    → Option (Option Authentication)
    → Option (Option (List Str))
    → Option Endpoint
assemble e c (some name) (some path) (some enabled) (some auth) (some methods) =
    some (assembled e c name path enabled auth methods)
assemble e c _ _ _ _ _ = none

-- The document after {"$set": changes}; `none` where a null replaces what every reader needs.
unfoldable pub apply_changes : Endpoint → EndpointUpdate → Option Endpoint
unfolding assemble
apply_changes e c =
    assemble e c (kept e.name c.name) (kept e.path c.path) (kept_some e.enabled c.enabled)
      (kept_auth e.authentication c.authentication) (kept_some e.allowed_methods c.allowed)
