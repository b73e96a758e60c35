-- ===== src/Replay/Destination.antt =====
-- `validate` of app/replay/ssrf.py. httpx's URLs and the name service are the parameter `Network`:
-- what the name service answers may differ at every moment.
pub mod Safety
use webhook_inbox.Prelude.{
  ℕ, zero, suc, ◌+◌, ◌≡◌, Bool, true, false, not, ◌&&◌, ◌||◌, List, [], ◌∷◌, ◌++◌, Option, none,
  some, is_empty, if◌then◌else◌,
}
use webhook_inbox.Prelude.Text.{Str, codes, one_of, str_eq, has_char}
use webhook_inbox.Replay.Address.{Ip, is_blocked}

-- What socket.getaddrinfo does: it gives addresses, or raises a gaierror, or the UnicodeError of a
-- host name that IDNA cannot encode.
pub data Lookup : Type 0 where
  resolved_to : List Ip → Lookup
  unknown_host unencodable_host : Lookup

pub record Network : Type 1 where
  -- httpx.URL: `parse` fails on InvalidURL and UnicodeError, `join` on InvalidURL.
  pub Url : Type 0
  pub parse : Str → Option Url
  pub scheme : Url → Str
  pub host : Url → Str
  pub userinfo : Url → Str
  pub port : Url → Option ℕ
  pub copy_with_host : Url → Str → Url
  pub join : Url → Str → Option Str
  -- str(ip), and f"{port}"
  pub ip_text : Ip → Str
  pub port_text : ℕ → Str
  -- socket.getaddrinfo at a moment, for a host and a port
  pub getaddrinfo : ℕ → Str → ℕ → Lookup
  -- The address stands in the copy.
  pub host-copy_with_host :
      (url : Url) (ip : Ip) → host (copy_with_host url (ip_text ip)) ≡ ip_text ip

-- The fields of `ReplayConfig` that a delivery reads.
pub record ReplayConfig : Type 0 where
  pub enabled : Bool
  pub timeout : ℕ
  pub max_retries : ℕ
  pub retry_delay_seconds : ℕ
  pub allow_private_networks : Bool
  pub allow_redirects : Bool
  pub max_redirects : ℕ
  pub max_response_size : ℕ
  pub lease_timeout : ℕ

-- DestinationError, by its message.
pub data DestinationError : Type 0 where
  malformed_url : DestinationError
  scheme_not_allowed : Str → DestinationError
  no_host credentials_in_url : DestinationError
  cannot_resolve : Str → DestinationError
  resolves_to_blocked : Str → Ip → DestinationError
  too_many_redirects : DestinationError

-- A result, a DestinationError, or another exception.
pub data Checked {ℓ} (A : Type ℓ) : Type ℓ where
  ok : A → Checked A
  refused : DestinationError → Checked A
  raised : Checked A

infixl 5 ◌>>=◌ ◌>>◌
abbrev pub ◌>>=◌ {ℓ κ} : {A : Type ℓ} {B : Type κ} → Checked A → (A → Checked B) → Checked B
ok a >>= f = f a
refused e >>= f = refused e
raised >>= f = raised

abbrev pub ◌>>◌ {ℓ} : {B : Type ℓ} → Checked (Unit {0}) → Checked B → Checked B
m >> k = m >>= λ _. k

-- if test: raise error
abbrev pub raise_if : Bool → DestinationError → Checked (Unit {0})
raise_if true e = refused e
raise_if false e = ok tt

abbrev pub allowed_schemes : List Str
allowed_schemes = codes "http" ∷ codes "https" ∷ []

module _ (net : Network) where
  open net use {
    Url, parse, scheme, host, userinfo, port, copy_with_host, ip_text, port_text, getaddrinfo,
  }

  pub record Destination : Type 0 where
    pub url : Url
    pub ip : Ip

  -- Destination.pinned
  unfoldable pub pinned : Destination → Url
  pinned d = copy_with_host d.url (ip_text d.ip)

  abbrev with_port : Str → Option ℕ → Str
  with_port text none = text
  with_port text (some zero) = text
  with_port text (some (suc n)) = text ++ b':' ∷ port_text (suc n)

  -- Destination.authority
  unfoldable pub authority : Destination → Str
  authority d =
      with_port
        (if has_char (host d.url) b':' then b'[' ∷ (host d.url ++ b']' ∷ []) else host d.url)
        (port d.url)

  -- parsed.port or (443 if parsed.scheme == "https" else 80)
  unfoldable pub port_of : Url → Option ℕ → ℕ
  unfolding str_eq
  port_of url (some (suc n)) = suc n
  port_of url _ = if str_eq (scheme url) (codes "https") then 443 else 80

  resolved : Str → Lookup → Checked (List Ip)
  resolved name unknown_host = refused (cannot_resolve name)
  resolved name unencodable_host = raised
  resolved name (resolved_to addresses) = ok addresses

  unfoldable pub resolve : ℕ → Str → ℕ → Checked (List Ip)
  unfolding resolved
  resolve moment name number = resolved name (getaddrinfo moment name number)

  -- The loop over the addresses.
  unfoldable pub check_all : Str → List Ip → Checked (Unit {0})
  check_all name [] = ok tt
  check_all name (candidate ∷ addresses) =
      if is_blocked candidate
      then refused (resolves_to_blocked name candidate)
      else check_all name addresses

  -- `validate` from the resolved addresses on: every address must pass, and the first is used.
  unfoldable pub choose : ReplayConfig → Url → List Ip → Checked Destination
  choose config url [] = refused (cannot_resolve (host url))
  choose config url (ip ∷ addresses) = do
    (if config.allow_private_networks then ok tt else check_all (host url) (ip ∷ addresses))
    ok (record { url = url; ip = ip })

  -- `validate` from the parsed URL on.
  unfoldable pub validate_url : ReplayConfig → ℕ → Url → Checked Destination
  validate_url config moment url = do
    raise_if (not (one_of (scheme url) allowed_schemes)) (scheme_not_allowed (scheme url))
    raise_if (is_empty (host url)) no_host
    raise_if (not (is_empty (userinfo url))) credentials_in_url
    addresses ← resolve moment (host url) (port_of url (port url))
    choose config url addresses

  parsed_or_refused : Option Url → Checked Url
  parsed_or_refused none = refused malformed_url
  parsed_or_refused (some url) = ok url

  unfoldable pub validate : ReplayConfig → ℕ → Str → Checked Destination
  unfolding parsed_or_refused
  validate config moment text = do
    url ← parsed_or_refused (parse text)
    validate_url config moment url
