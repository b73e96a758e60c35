-- ===== src/Ingest/Signature/Authentic.antt =====
-- Who passes the signature check.
use webhook_inbox.Prelude.{
  ℕ, ◌≡◌, refl, true, false, List, [], Option, none, some, is_empty, arith, Option-cases, inl, inr,
  ◌⊎◌,
}
use webhook_inbox.Prelude.Text.{Str, Unicode, str_eq→eq, strip, remove_prefix}
use webhook_inbox.Prelude.Dict.{Dict, lookup}
use webhook_inbox.Event.{Codec}
use webhook_inbox.Endpoint.{
  AuthType, no_auth, static_secret, hmac_sha256, default_auth_header, Endpoint,
}
use webhook_inbox.Ingest.Signature.{
  Hmac, compare_digest, or_default, auth_of, stored_type, compare, check_provided, check_secret,
  verify_as, verify,
}

module _ (u : Unicode) (codec : Codec) (hmac : Hmac) where
  -- What a provided value shows under a type of authentication: it is the secret itself, or the
  -- signature of the body under it.
  abbrev pub Proves : AuthType → Option Str → Str → Str → List ℕ → Type 0
  Proves no_auth prefix secret provided raw = Unit
  Proves static_secret prefix secret provided raw = provided ≡ secret
  Proves hmac_sha256 prefix secret provided raw =
      u.lower (strip (remove_prefix provided (or_default prefix [])))
      ≡ hmac.hexdigest (codec.encode secret) raw

  compare_digest-eq : (a b : Str) → compare_digest a b ≡ some true → a ≡ b
  unfolding compare_digest
  compare_digest-eq a b h = str_eq→eq a b (ground arith)

  compare-Proves :
      (kind : AuthType) (prefix : Option Str) (secret provided : Str) (raw : List ℕ)
      → compare u codec hmac kind prefix secret provided raw ≡ some true
      → Proves kind prefix secret provided raw
  unfolding compare
  compare-Proves no_auth prefix secret provided raw h = tt
  compare-Proves static_secret prefix secret provided raw h = compare_digest-eq provided secret h
  compare-Proves hmac_sha256 prefix secret provided raw h =
      compare_digest-eq (u.lower (strip (remove_prefix provided (or_default prefix []))))
        (hmac.hexdigest (codec.encode secret) raw) h

  -- What a request to an endpoint with this type of authentication has shown.
  pub record HasProof (kind : AuthType) (endpoint : Endpoint) (headers : Dict Str) (raw : List ℕ)
      : Type 0 where
    pub secret : Str
    pub provided : Str
    pub stored : endpoint.secret ≡ some secret
    pub not_empty : is_empty secret ≡ false
    pub sent :
        lookup (or_default (auth_of endpoint).header (default_auth_header kind)) headers
        ≡ some provided
    pub proves : Proves kind (auth_of endpoint).signature_prefix secret provided raw

  check_secret-HasProof :
      (kind : AuthType) (endpoint : Endpoint) (headers : Dict Str) (raw : List ℕ)
      → check_secret u codec hmac kind (auth_of endpoint) endpoint.secret headers raw ≡ some true
      → HasProof kind endpoint headers raw
  unfolding check_secret check_provided
  check_secret-HasProof kind endpoint headers raw h = elim (Option-cases endpoint.secret) [
    | inl unset ↦ absurd (ground (arith, unset))
    | inr (secret, set) ↦
        elim (Option-cases
          (lookup (or_default (auth_of endpoint).header (default_auth_header kind)) headers)) [
            | inl missing ↦ absurd (ground (arith, set, missing))
            | inr (provided, sent) ↦ record {
              secret = secret;
              provided = provided;
              stored = set;
              not_empty = ground (arith, set, sent);
              sent = sent;
              proves =
                  compare-Proves kind (auth_of endpoint).signature_prefix secret provided raw
                    (ground (arith, set, sent));
            }
          ]
  ]

  verify_as-HasProof :
      (stored : Option AuthType) (endpoint : Endpoint) (headers : Dict Str) (raw : List ℕ)
      → verify_as u codec hmac stored endpoint headers raw ≡ some true
      → (stored ≡ some no_auth)
        ⊎ ((kind : AuthType) × (stored ≡ some kind) × HasProof kind endpoint headers raw)
  unfolding verify_as
  verify_as-HasProof none endpoint headers raw h = absurd (ground arith)
  verify_as-HasProof (some no_auth) endpoint headers raw h = inl refl
  verify_as-HasProof (some static_secret) endpoint headers raw h =
      inr (static_secret, refl, check_secret-HasProof static_secret endpoint headers raw h)
  verify_as-HasProof (some hmac_sha256) endpoint headers raw h =
      inr (hmac_sha256, refl, check_secret-HasProof hmac_sha256 endpoint headers raw h)

  -- A request passes only if the endpoint asks for no authentication, or has a secret that is not
  -- empty and the request carries, under the endpoint's header, that secret itself or the HMAC of
  -- its very bytes under that secret, according to the endpoint's type of authentication.
  pub verify-HasProof :
      (endpoint : Endpoint) (headers : Dict Str) (raw : List ℕ)
      → verify u codec hmac endpoint headers raw ≡ some true
      → (stored_type (auth_of endpoint).type_text ≡ some no_auth)
        ⊎ ((kind : AuthType) × (stored_type (auth_of endpoint).type_text ≡ some kind)
            × HasProof kind endpoint headers raw)
  unfolding verify
  verify-HasProof endpoint headers raw h =
      verify_as-HasProof (stored_type (auth_of endpoint).type_text) endpoint headers raw h
