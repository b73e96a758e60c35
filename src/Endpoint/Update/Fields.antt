-- ===== src/Endpoint/Update/Fields.antt =====
-- What a change leaves of each field of an endpoint.
use mathlib.Core.Path.{subst}
use webhook_inbox.Prelude.{
  ℕ, ◌≡◌, refl, sym, Bool, true, false, not, ◌&&◌, ◌||◌, List, Option, none, some, is_empty, all,
  ltb, arith, Bool-cases, Option-cases, inl, inr,
}
use webhook_inbox.Prelude.Text.{Str, Unicode, codes, str_eq, contains, one_of}
use webhook_inbox.Endpoint.{
  AuthType, no_auth, static_secret, hmac_sha256, auth_type_of, Authentication, Endpoint,
}
use webhook_inbox.Endpoint.Validation.{
  AuthConfig, allowed_methods, matches_path, validate_path, validate_methods, has_secret,
  asks_nothing, is_positive, type_name,
}
use webhook_inbox.Endpoint.Validation.Configured.{
  validate_path-some, validate_methods-some, auth_type_of-type_name,
}
use webhook_inbox.Ingest.Signature.{auth_of, stored_type}
use webhook_inbox.Endpoint.Update.{
  SentField, unset, nulled, given, check_sent, check_if, merged_type, stored_type_text, kept,
  kept_some, kept_or_null, kept_auth, stored_auth,
}

abbrev pub IsPath : Str → Type 0
IsPath path = (matches_path path ≡ true) × (contains path (codes "..") ≡ false)

-- A value that passed a check.
given_checked :
    {A : Type 0} (check : A → Option A) (sent : SentField A) (b : A)
    → check_sent check sent ≡ some (given b)
    → (a : A) × (check a ≡ some b)
given_checked check unset b c = absurd (ground (arith, c))
given_checked check nulled b c = absurd (ground (arith, c))
given_checked check (given a) b c = elim (Option-cases (check a)) [
  | inl bad ↦ absurd (ground (arith, c, bad))
  | inr (q, fine) ↦ (a, ground (arith, c, fine))
]

-- Some methods, and known ones only.
abbrev pub AreMethods : Option (List Str) → Type 0
AreMethods stored =
    (methods : List Str) × (stored ≡ some methods)
    × (is_empty methods ≡ false)
    × (all (λ m. one_of m allowed_methods) methods ≡ true)

pub kept-IsPath :
    (old new : Str) (sent checked : SentField Str)
    → check_sent validate_path sent ≡ some checked
    → kept old checked ≡ some new
    → IsPath old
    → IsPath new
kept-IsPath old new sent unset c k h = subst IsPath (ground (arith, k)) h
kept-IsPath old new sent nulled c k h = absurd (ground (arith, k))
kept-IsPath old new sent (given q) c k h =
    let (p, fine) = given_checked validate_path sent q c in
    let same : q ≡ new = ground (arith, k) in subst IsPath same (validate_path-some p q fine)

-- On or off, and not missing.
pub kept_some-switched :
    (old new : Option Bool) (sent : SentField Bool)
    → kept_some old sent ≡ some new
    → (on : Bool) × (old ≡ some on)
    → (on : Bool) × (new ≡ some on)
kept_some-switched old new unset k (on, h) = (on, ground (arith, k, h))
kept_some-switched old new nulled k h = absurd (ground (arith, k))
kept_some-switched old new (given q) k h = (q, sym (cc k))

pub kept_some-AreMethods :
    (u : Unicode) (old new : Option (List Str)) (sent checked : SentField (List Str))
    → check_sent (validate_methods u) sent ≡ some checked
    → kept_some old checked ≡ some new
    → AreMethods old
    → AreMethods new
kept_some-AreMethods u old new sent unset c k h = subst AreMethods (ground (arith, k)) h
kept_some-AreMethods u old new sent nulled c k h = absurd (ground (arith, k))
kept_some-AreMethods u old new sent (given q) c k h =
    let (p, fine) = given_checked (validate_methods u) sent q c in
    let same : some q ≡ new = ground (arith, k) in
    let (filled, known) = validate_methods-some u p q fine in (q, sym same, filled, known)

pub kept_or_null-is_positive :
    (old : Option ℕ) (sent checked : SentField ℕ)
    → check_sent (check_if (λ n. ltb 0 n)) sent ≡ some checked
    → is_positive old ≡ true
    → is_positive (kept_or_null old checked) ≡ true
kept_or_null-is_positive old sent unset c h = h
kept_or_null-is_positive old sent nulled c h = refl
kept_or_null-is_positive old sent (given q) c h =
    let (p, fine) = given_checked (check_if (λ n. ltb 0 n)) sent q c in ground (arith, fine)

-- The type of authentication that is stored is a known one, and has a secret unless it is none.
abbrev pub IsAuth : Endpoint → Option Authentication → Option Str → Type 0
IsAuth e stored secret =
    (kind : AuthType) × (stored_type (auth_of (record e { authentication = stored })).type_text
      ≡ some kind)
    × ((asks_nothing kind || has_secret secret) ≡ true)

typed_none :
    (text : Option Str) (kind : AuthType)
    → stored_type text ≡ some kind
    → str_eq (elim text [ none ↦ codes "none" | some name ↦ name ]) (codes "none") ≡ true
    → kind ≡ no_auth
unfolding auth_type_of
typed_none none kind known named = ground (arith, known)
typed_none (some text) kind known named = ground (arith, known, named)

named_none :
    (e : Endpoint) (stored : Option Authentication) (kind : AuthType)
    → stored_type (auth_of (record e { authentication = stored })).type_text ≡ some kind
    → str_eq (stored_type_text stored) (codes "none") ≡ true
    → kind ≡ no_auth
unfolding auth_type_of
named_none e none kind known named = ground (arith, known)
named_none e (some auth) kind known named = typed_none auth.type_text kind known named

stored_needs :
    (e : Endpoint) (stored : Option Authentication) (kind : AuthType) (secret : Option Str)
    → stored_type (auth_of (record e { authentication = stored })).type_text ≡ some kind
    → (not (str_eq (stored_type_text stored) (codes "none")) && not (has_secret secret)) ≡ false
    → (asks_nothing kind || has_secret secret) ≡ true
stored_needs e stored kind secret known fine =
    elim (Bool-cases (str_eq (stored_type_text stored) (codes "none"))) [
      | inl named ↦ rw (named_none e stored kind known named) refl
      | inr other ↦ ground (arith, fine, other)
    ]

name_needs :
    (kind : AuthType) (secret : Option Str)
    → (not (str_eq (type_name kind) (codes "none")) && not (has_secret secret)) ≡ false
    → (asks_nothing kind || has_secret secret) ≡ true
unfolding str_eq
name_needs no_auth secret fine = refl
name_needs static_secret secret fine = ground (arith, fine)
name_needs hmac_sha256 secret fine = ground (arith, fine)

pub kept_auth-IsAuth :
    (e : Endpoint) (sent : SentField AuthConfig) (new : Option Authentication)
    (type secret : Option Str)
    → kept_auth e.authentication sent ≡ some new
    → merged_type e.authentication sent ≡ type
    → (kind : Str) → type ≡ some kind
    → (not (str_eq kind (codes "none")) && not (has_secret secret)) ≡ false
    → (kind : AuthType) × (stored_type (auth_of e).type_text ≡ some kind)
    → IsAuth e new secret
unfolding merged_type
kept_auth-IsAuth e unset new type secret k m text is fine (kind, known) =
    let same : e.authentication ≡ new = ground (arith, k) in
    let named : stored_type_text e.authentication ≡ text = ground (arith, m, is) in
    subst (λ a. IsAuth e a secret) same
      (kind, known, stored_needs e e.authentication kind secret known (rw named fine))
kept_auth-IsAuth e nulled new type secret k m text is fine (kind, known) =
    absurd (ground (arith, k))
kept_auth-IsAuth e (given auth) new type secret k m text is fine (kind, known) =
    let same : some (stored_auth auth) ≡ new = ground (arith, k) in
    let named : type_name auth.kind ≡ text = ground (arith, m, is) in
    subst (λ a. IsAuth e a secret) same
      (auth.kind, auth_type_of-type_name auth.kind, name_needs auth.kind secret (rw named fine))
