-- ===== src/Ingest/Signature.antt =====
-- app/ingest/signature.py: whether a request to an endpoint is authentic. `none` is an exception.
pub mod Authentic
use webhook_inbox.Prelude.{
  ℕ, ◌≡◌, Bool, true, false, ◌&&◌, ◌||◌, List, [], ◌∷◌, Option, none, some, if◌then◌else◌, is_empty,
  leb, all, length,
}
use webhook_inbox.Prelude.Text.{Str, codes, Unicode, is_ascii, str_eq, strip, remove_prefix}
use webhook_inbox.Prelude.Dict.{Dict, lookup}
use webhook_inbox.Event.{Codec}
use webhook_inbox.Endpoint.{
  AuthType, no_auth, static_secret, hmac_sha256, auth_type_of, default_auth_header, Authentication,
  Endpoint,
}

-- A hexadecimal digit, in lower case.
abbrev pub is_hex : ℕ → Bool
is_hex c = (leb b'0' c && leb c b'9') || (leb b'a' c && leb c b'f')

-- hmac.new(key, message, sha256).hexdigest(): 64 digits in lower case.
pub record Hmac : Type 0 where
  pub hexdigest : List ℕ → List ℕ → Str
  pub hexdigest-hex : (key message : List ℕ) → all is_hex (hexdigest key message) ≡ true
  pub length-hexdigest : (key message : List ℕ) → length (hexdigest key message) ≡ 64

-- hmac.compare_digest of two texts: a TypeError unless both are ASCII.
unfoldable pub compare_digest : Str → Str → Option Bool
unfolding str_eq
compare_digest a b = if is_ascii a && is_ascii b then some (str_eq a b) else none

-- x or default
abbrev pub or_default : Option Str → Str → Str
or_default none default = default
or_default (some s) default = if is_empty s then default else s

abbrev pub no_authentication : Authentication
no_authentication = record { type_text = none; header = none; signature_prefix = none }

-- endpoint.get("authentication") or {}
abbrev pub auth_of : Endpoint → Authentication
auth_of endpoint = elim endpoint.authentication [ none ↦ no_authentication | some auth ↦ auth ]

-- AuthType(auth.get("type", AuthType.NONE))
abbrev pub stored_type : Option Str → Option AuthType
stored_type none = some no_auth
stored_type (some text) = auth_type_of text

module _ (u : Unicode) (codec : Codec) (hmac : Hmac) where
  -- The comparison, for a secret and a provided value that are not empty.
  unfoldable pub compare : AuthType → Option Str → Str → Str → List ℕ → Option Bool
  unfolding compare_digest remove_prefix strip
  compare no_auth prefix secret provided raw = some true
  compare static_secret prefix secret provided raw = compare_digest provided secret
  compare hmac_sha256 prefix secret provided raw =
      compare_digest (u.lower (strip (remove_prefix provided (or_default prefix []))))
        (hmac.hexdigest (codec.encode secret) raw)

  -- From the secret on: the header, and what it holds.
  unfoldable pub check_provided : AuthType → Authentication → Str → Dict Str → List ℕ → Option Bool
  unfolding lookup
  check_provided kind auth secret headers raw =
      elim (lookup (or_default auth.header (default_auth_header kind)) headers) [
        | none ↦ some false
        | some provided ↦
            if is_empty provided
            then some false
            else compare kind auth.signature_prefix secret provided raw
      ]

  unfoldable pub check_secret :
      AuthType → Authentication → Option Str → Dict Str → List ℕ → Option Bool
  unfolding check_provided
  check_secret kind auth none headers raw = some false
  check_secret kind auth (some secret) headers raw =
      if is_empty secret then some false else check_provided kind auth secret headers raw

  unfoldable pub verify_as : Option AuthType → Endpoint → Dict Str → List ℕ → Option Bool
  unfolding check_secret
  verify_as none endpoint headers raw = some false
  verify_as (some no_auth) endpoint headers raw = some true
  verify_as (some static_secret) endpoint headers raw =
      check_secret static_secret (auth_of endpoint) endpoint.secret headers raw
  verify_as (some hmac_sha256) endpoint headers raw =
      check_secret hmac_sha256 (auth_of endpoint) endpoint.secret headers raw

  unfoldable pub verify : Endpoint → Dict Str → List ℕ → Option Bool
  unfolding verify_as
  verify endpoint headers raw =
      verify_as (stored_type (auth_of endpoint).type_text) endpoint headers raw
