-- ===== src/Endpoint/Validation/Configured.antt =====
-- What holds of every endpoint that is created.
use mathlib.Core.Path.{subst}
use webhook_inbox.Prelude.{
  ℕ, ◌≡◌, refl, Bool, true, false, not, ◌||◌, List, Option, none, some, inl, inr, all, is_empty,
  arith, Bool-cases, if◌then◌else◌,
}
use webhook_inbox.Prelude.Text.{Str, codes, Unicode, contains, one_of, str_eq}
use webhook_inbox.Endpoint.{
  AuthType, no_auth, static_secret, hmac_sha256, auth_type_of, Endpoint, normalize_path,
}
use webhook_inbox.Endpoint.Validation.{
  allowed_methods, matches_path, validate_path, validate_methods, EndpointCreate, is_positive,
  has_secret, asks_nothing, apply_default_header, meets_constraints, with_fields, validate_create,
  type_name, to_document,
}
use webhook_inbox.Ingest.Signature.{auth_of, stored_type}

-- What the checks of an endpoint promise: its path has the form that PATH_PATTERN asks for, which
-- lets a newline pass at the end, and no two dots in a row, it is on or off, it takes some methods and known ones only, and its authentication is known and has a secret if it needs one.
pub record IsConfigured (endpoint : Endpoint) : Type 0 where
  pub path : matches_path endpoint.path ≡ true
  pub in_place : contains endpoint.path (codes "..") ≡ false
  pub switch : Bool
  pub switched : endpoint.enabled ≡ some switch
  pub methods : List Str
  pub takes : endpoint.allowed_methods ≡ some methods
  pub some_method : is_empty methods ≡ false
  pub known_methods : all (λ m. one_of m allowed_methods) methods ≡ true
  pub kind : AuthType
  pub known_kind : stored_type (auth_of endpoint).type_text ≡ some kind
  pub with_secret : (asks_nothing kind || has_secret endpoint.secret) ≡ true
  pub sized : is_positive endpoint.max_payload_size ≡ true

pub auth_type_of-type_name : (kind : AuthType) → auth_type_of (type_name kind) ≡ some kind
unfolding auth_type_of str_eq
auth_type_of-type_name no_auth = refl
auth_type_of-type_name static_secret = refl
auth_type_of-type_name hmac_sha256 = refl

-- A value that is given back unless a test refuses it.
unless_some {ℓ} :
    {A : Type ℓ} (test : Bool) (value result : A)
    → (if test then none else some value) ≡ some result
    → (test ≡ false) × (value ≡ result)
unless_some true value result h = absurd (ground arith)
unless_some false value result h = (refl, ground arith)

refused_none : (a b c : Bool) → (a || not b || c) ≡ false → (a ≡ false) × (b ≡ true) × (c ≡ false)
refused_none a b c h = ground arith

pub validate_path-some :
    (value path : Str)
    → validate_path value ≡ some path
    → (matches_path path ≡ true) × (contains path (codes "..") ≡ false)
unfolding validate_path
validate_path-some value path h =
    let cleaned = normalize_path value in
    let (passed, same) =
      unless_some (is_empty cleaned || not (matches_path cleaned) || contains cleaned (codes ".."))
        cleaned path h in
    let (filled, slug, in_place) =
      refused_none (is_empty cleaned) (matches_path cleaned) (contains cleaned (codes ".."))
        passed in
    rw (← same) (slug, in_place)

pub validate_methods-some :
    (u : Unicode) (value methods : List Str)
    → validate_methods u value ≡ some methods
    → (is_empty methods ≡ false) × (all (λ m. one_of m allowed_methods) methods ≡ true)
unfolding validate_methods
validate_methods-some u value methods h = ground arith

constraints-met :
    (p : EndpointCreate)
    → meets_constraints p ≡ true
    → ((asks_nothing p.authentication.kind || has_secret p.secret) ≡ true)
      × (is_positive p.max_payload_size ≡ true)
unfolding meets_constraints
constraints-met p h = ground arith

with_fields-IsConfigured :
    (u : Unicode) (payload created : EndpointCreate) (id : ℕ) (path : Option Str)
    (methods : Option (List Str))
    → validate_path payload.path ≡ path
    → validate_methods u payload.allowed ≡ methods
    → with_fields u payload path methods ≡ some created
    → IsConfigured (to_document id created)
unfolding with_fields to_document apply_default_header
with_fields-IsConfigured u payload created id none methods p m h = absurd (ground arith)
with_fields-IsConfigured u payload created id (some path) none p m h = absurd (ground arith)
with_fields-IsConfigured u payload created id (some path) (some methods) p m h =
    let (slug, in_place) = validate_path-some payload.path path p in
    let (some_method, known) = validate_methods-some u payload.allowed methods m in
    elim (Bool-cases (meets_constraints payload)) [
      | inr bad ↦ absurd (ground (arith, bad))
      | inl fine ↦
          let made : record payload {
            path = path;
            authentication = apply_default_header u payload.authentication;
            allowed = methods;
          }
              ≡ created =
            ground (arith, fine) in
          let (secret, size) = constraints-met payload fine in
          subst (λ c. IsConfigured (to_document id c)) made
            (record {
              path = slug;
              in_place = in_place;
              switch = payload.enabled;
              switched = refl;
              methods = methods;
              takes = refl;
              some_method = some_method;
              known_methods = known;
              kind = payload.authentication.kind;
              known_kind = auth_type_of-type_name payload.authentication.kind;
              with_secret = secret;
              sized = size;
            })
    ]

-- Every endpoint that passes the validation is stored well formed, whatever was sent: its path
-- matches the pattern of paths and has no `..`, it is on or off, it takes at least one method and known ones only,
-- its type of authentication is a known one, it has a secret that is not empty unless that type is
-- none, and its limit of the payload, if it has one, is not 0.
pub validate_create-IsConfigured :
    (u : Unicode) (payload created : EndpointCreate) (id : ℕ)
    → validate_create u payload ≡ some created
    → IsConfigured (to_document id created)
unfolding validate_create
validate_create-IsConfigured u payload created id h =
    with_fields-IsConfigured u payload created id (validate_path payload.path)
      (validate_methods u payload.allowed) refl refl h
