-- ===== src/Replay/Destination/Safety.antt =====
-- What a validated destination has been checked for.
use webhook_inbox.Prelude.{
  ℕ, ◌≡◌, refl, true, false, List, [], ◌∷◌, is_empty, All, arith, Option-cases, inl, inr, ap, ◌∙◌,
  ◌⊎◌,
}
use webhook_inbox.Prelude.Text.{Str, one_of}
use webhook_inbox.Replay.Address.{Ip, is_blocked}
use webhook_inbox.Replay.Destination.{
  Lookup, resolved_to, unknown_host, unencodable_host, Network, ReplayConfig, ok, allowed_schemes,
  Destination, resolve, check_all, choose, validate_url, validate, port_of,
}

Lookup-cases :
    (l : Lookup)
    → (l ≡ unknown_host) ⊎ (l ≡ unencodable_host) ⊎ ((ips : List Ip) × (l ≡ resolved_to ips))
Lookup-cases unknown_host = inl refl
Lookup-cases unencodable_host = inr (inl refl)
Lookup-cases (resolved_to ips) = inr (inr (ips, refl))

module _ (net : Network) where
  -- The facts about a destination that lets a request out.
  pub record IsSafe (config : ReplayConfig) (moment : ℕ) (d : Destination net) : Type 0 where
    pub scheme : one_of (net.scheme d.url) allowed_schemes ≡ true
    pub named : is_empty (net.host d.url) ≡ false
    pub anonymous : is_empty (net.userinfo d.url) ≡ true
    pub addresses : List Ip
    pub answered :
        net.getaddrinfo moment (net.host d.url) (port_of net d.url (net.port d.url))
        ≡ resolved_to (d.ip ∷ addresses)
    pub public :
        (config.allow_private_networks ≡ true)
        ⊎ All (λ ip. is_blocked ip ≡ false) (d.ip ∷ addresses)

  check_all-All :
      (name : Str) (ips : List Ip)
      → check_all net name ips ≡ ok tt
      → All (λ ip. is_blocked ip ≡ false) ips
  unfolding check_all
  check_all-All name [] h = tt
  check_all-All name (ip ∷ ips) h = ground (arith, check_all-All name ips)

  choose-answered :
      (config : ReplayConfig) (url : net.Url) (ips : List Ip) (d : Destination net)
      → choose net config url ips ≡ ok d
      → (rest : List Ip) × (ips ≡ d.ip ∷ rest)
        × (url ≡ d.url)
        × ((config.allow_private_networks ≡ true) ⊎ All (λ ip. is_blocked ip ≡ false) ips)
  unfolding choose
  choose-answered config url [] d h = cc
  choose-answered config url (ip ∷ rest) d h =
      (rest, ground arith, ground arith, ground (arith, check_all-All (net.host url) (ip ∷ rest)))

  validate_url-IsSafe :
      (config : ReplayConfig) (moment : ℕ) (url : net.Url) (d : Destination net)
      → validate_url net config moment url ≡ ok d
      → IsSafe config moment d
  unfolding validate_url resolve
  validate_url-IsSafe config moment url d h =
      elim (Lookup-cases (net.getaddrinfo moment (net.host url) (port_of net url (net.port url)))) [
        | inl silent ↦ absurd (ground (arith, silent))
        | inr (inl odd) ↦ absurd (ground (arith, odd))
        | inr (inr (ips, answered)) ↦
            let chosen : choose net config url ips ≡ ok d = ground (arith, answered) in
            let (rest, found, same, public) = choose-answered config url ips d chosen in
            record {
              scheme = rw (← same) (ground arith);
              named = rw (← same) (ground arith);
              anonymous = rw (← same) (ground arith);
              addresses = rest;
              answered = rw (← same) (answered ∙ ap resolved_to found);
              public = ground (arith, found);
            }
      ]

  -- A destination that passes has an http or https URL with a host and without credentials; its
  -- address is the first of those that the name service gave at that moment; and unless private
  -- networks are allowed, none of those addresses is blocked.
  pub validate-IsSafe :
      (config : ReplayConfig) (moment : ℕ) (text : Str) (d : Destination net)
      → validate net config moment text ≡ ok d
      → IsSafe config moment d
  unfolding validate
  validate-IsSafe config moment text d h = elim (Option-cases (net.parse text)) [
    | inl malformed ↦ absurd (ground (arith, malformed))
    | inr (url, parsed) ↦ validate_url-IsSafe config moment url d (ground (arith, parsed))
  ]
