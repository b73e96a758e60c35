-- ===== src/Seed/Signed.antt =====
-- What the seed signs passes the check of the endpoints that it sets up.
use mathlib.Core.Path.{subst}
use webhook_inbox.Prelude.{
  ℕ, ◌≡◌, refl, sym, ap, ◌∙◌, Bool, true, false, List, [], ◌∷◌, ◌++◌, map, some, all, leb, length,
  is_empty, arith, Bool-cases, inl, inr, ◌⊎◌,
}
use mathlib.Core.List.{reverse, reverse-cons, reverse-reverse}
use webhook_inbox.Prelude.Text.{
  Str, Unicode, codes, str_eq, str_eq_refl, is_ascii, strip, strip_by, drop_while, is_space,
  remove_prefix, remove_prefix-append, ascii_lower,
}
use webhook_inbox.Prelude.Dict.{Dict, lookup, merge, lookup-insert_self}
use webhook_inbox.Event.{Codec}
use webhook_inbox.Endpoint.{hmac_sha256, default_auth_header, Endpoint, auth_type_of}
use webhook_inbox.Ingest.Signature.{
  Hmac, is_hex, or_default, compare_digest, compare, check_provided, check_secret, verify,
}
use webhook_inbox.Seed.{
  github_secret, stripe_secret, github, stripe, custom, Entry, sign, Posted, url_of, base_headers,
  posted,
}

-- Hexadecimal digits are ASCII, in lower case, and no white space.
is_hex-plain :
    (c : ℕ) → is_hex c ≡ true → (leb c 127 ≡ true) × (is_space c ≡ false) × (ascii_lower c ≡ c)
unfolding is_space ascii_lower
is_hex-plain c h = (ground (arith, h), ground (arith, h), ground (arith, h))

all_hex-is_ascii : (s : Str) → all is_hex s ≡ true → is_ascii s ≡ true
all_hex-is_ascii [] h = refl
all_hex-is_ascii (c ∷ s) h = elim (Bool-cases (is_hex c)) [
  | inl hex ↦ let (ascii, _, _) = is_hex-plain c hex in rw ascii (all_hex-is_ascii s (rw hex at h))
  | inr odd ↦ absurd (ground (arith, h, odd))
]

all_hex-ascii_lower : (s : Str) → all is_hex s ≡ true → map ascii_lower s ≡ s
all_hex-ascii_lower [] h = refl
all_hex-ascii_lower (c ∷ s) h = elim (Bool-cases (is_hex c)) [
  | inl hex ↦
      let (_, _, lower) = is_hex-plain c hex in rw (lower, all_hex-ascii_lower s (rw hex at h)) refl
  | inr odd ↦ absurd (ground (arith, h, odd))
]

all_hex-drop_while : (s : Str) → all is_hex s ≡ true → drop_while is_space s ≡ s
unfolding drop_while
all_hex-drop_while [] h = refl
all_hex-drop_while (c ∷ s) h = elim (Bool-cases (is_hex c)) [
  | inl hex ↦ let (_, solid, _) = is_hex-plain c hex in rw solid refl
  | inr odd ↦ absurd (ground (arith, h, odd))
]

all-append : (p : ℕ → Bool) (s t : Str) → all p s ≡ true → all p t ≡ true → all p (s ++ t) ≡ true
all-append p [] t h k = k
all-append p (c ∷ s) t h k = ground (arith, all-append p s t, h, k)

all-reverse : (p : ℕ → Bool) (s : Str) → all p s ≡ true → all p (reverse s) ≡ true
all-reverse p [] h = refl
all-reverse p (c ∷ s) h =
    rw reverse-cons
      (all-append p (reverse s) (c ∷ []) (all-reverse p s (ground (arith, h))) (ground (arith, h)))

all_hex-strip : (s : Str) → all is_hex s ≡ true → strip s ≡ s
unfolding strip strip_by
all_hex-strip s h =
    rw (all_hex-drop_while s h, all_hex-drop_while (reverse s) (all-reverse is_hex s h))
      (reverse-reverse s)

long_filled : (s : Str) → length s ≡ 64 → is_empty s ≡ false
long_filled [] h = absurd (omega (arith, h))
long_filled (c ∷ s) h = refl

or_default_prefix :
    (prefix digest : Str) → remove_prefix (prefix ++ digest) (or_default (some prefix) []) ≡ digest
or_default_prefix [] digest = remove_prefix-append [] digest
or_default_prefix (c ∷ prefix) digest = remove_prefix-append (c ∷ prefix) digest

module _ (u : Unicode) (codec : Codec) (hmac : Hmac) where
  compare_digest_refl : (s : Str) → is_ascii s ≡ true → compare_digest s s ≡ some true
  unfolding compare_digest
  compare_digest_refl s h = rw (h, str_eq_refl s) refl

  digest_filled :
      (prefix secret : Str) (raw : List ℕ)
      → is_empty (prefix ++ hmac.hexdigest (codec.encode secret) raw) ≡ false
  digest_filled [] secret raw =
      long_filled (hmac.hexdigest (codec.encode secret) raw)
        (hmac.length-hexdigest (codec.encode secret) raw)
  digest_filled (c ∷ prefix) secret raw = refl

  -- A digest behind its prefix passes.
  compare-prefixed :
      (prefix secret : Str) (raw : List ℕ)
      → compare u codec hmac hmac_sha256
          (some prefix)
          secret
          (prefix ++ hmac.hexdigest (codec.encode secret) raw)
          raw
        ≡ some true
  unfolding compare
  compare-prefixed prefix secret raw =
      let digest = hmac.hexdigest (codec.encode secret) raw in
      let hex = hmac.hexdigest-hex (codec.encode secret) raw in
      let ascii = all_hex-is_ascii digest hex in
      let bare : remove_prefix (prefix ++ digest) (or_default (some prefix) []) ≡ digest =
        or_default_prefix prefix digest in
      rw
        (bare, all_hex-strip digest hex, u.lower_ascii digest ascii, all_hex-ascii_lower digest hex)
        (compare_digest_refl digest ascii)

  sign_github :
      (body : List ℕ)
      → sign codec hmac (codes "github") body
        ≡ some (
            (
              codes "x-hub-signature-256",
              codes "sha256=" ++ hmac.hexdigest (codec.encode github_secret) body,
            )
            ∷ [])
  unfolding sign str_eq
  sign_github body = refl

  sign_stripe :
      (body : List ℕ)
      → sign codec hmac (codes "stripe") body
        ≡ some (
            (codes "stripe-signature", [] ++ hmac.hexdigest (codec.encode stripe_secret) body) ∷ [])
  unfolding sign str_eq
  sign_stripe body = refl

  -- What is posted carries the signature over the body.
  posted_signed :
      (compact : Entry → List ℕ) (e : Entry) (p : Posted) (header value : Str)
      → sign codec hmac e.endpoint (compact e) ≡ some ((header, value) ∷ [])
      → posted u codec hmac compact e ≡ some p
      → (lookup header p.headers ≡ some value) × (p.body ≡ compact e)
  unfolding posted merge
  posted_signed compact e p header value is made =
      let same = rw (is, posted) at made in
      let here : record {
        url = url_of e;
        headers = merge (base_headers u e) ((header, value) ∷ []);
        body = compact e;
      }
          ≡ p =
        cc same in
      (
        subst (λ (q : Posted). lookup header q.headers ≡ some value) here
            (lookup-insert_self header value (base_headers u e)),
        sym (ap (λ (q : Posted). q.body) here),
      )

  check_provided-prefixed :
      (header prefix secret : Str) (headers : Dict Str) (raw : List ℕ)
      → lookup (or_default (some header) (default_auth_header hmac_sha256)) headers
        ≡ some (prefix ++ hmac.hexdigest (codec.encode secret) raw)
      → check_provided u codec hmac hmac_sha256
          (record {
            type_text = some (codes "hmac_sha256");
            header = some header;
            signature_prefix = some prefix;
          })
          secret
          headers
          raw
        ≡ some true
  unfolding check_provided
  check_provided-prefixed header prefix secret headers raw sent =
      rw (sent, digest_filled prefix secret raw, check_provided)
        (compare-prefixed prefix secret raw)

  -- What the seed posts for an entry to one of its endpoints passes the signature check of this
  -- endpoint, with whatever headers the client adds.
  pub posted-verify :
      (compact : Entry → List ℕ) (d : ℕ → Endpoint) (id : ℕ) (e : Entry) (p : Posted)
      (headers : Dict Str)
      → (d ≡ github) ⊎ (d ≡ stripe) ⊎ (d ≡ custom)
      → e.endpoint ≡ (d id).path
      → posted u codec hmac compact e ≡ some p
      → ((k v : Str) → lookup k p.headers ≡ some v → lookup k headers ≡ some v)
      → verify u codec hmac (d id) headers p.body ≡ some true
  unfolding verify check_secret auth_type_of str_eq
  posted-verify compact d id e p headers (inl is) to made carried =
      let there : e.endpoint ≡ codes "github" = to ∙ ap (λ (f : ℕ → Endpoint). (f id).path) is in
      let (sent, same) =
        posted_signed compact e p (codes "x-hub-signature-256")
          (codes "sha256=" ++ hmac.hexdigest (codec.encode github_secret) (compact e))
          (ap (λ t. sign codec hmac t (compact e)) there ∙ sign_github (compact e)) made in
      subst (λ f. verify u codec hmac (f id) headers p.body ≡ some true) (sym is)
        (subst (λ b. verify u codec hmac (github id) headers b ≡ some true) (sym same)
          (check_provided-prefixed (codes "x-hub-signature-256") (codes "sha256=") github_secret
            headers (compact e) (carried _ _ sent)))
  posted-verify compact d id e p headers (inr (inl is)) to made carried =
      let there : e.endpoint ≡ codes "stripe" = to ∙ ap (λ (f : ℕ → Endpoint). (f id).path) is in
      let (sent, same) =
        posted_signed compact e p (codes "stripe-signature")
          ([] ++ hmac.hexdigest (codec.encode stripe_secret) (compact e))
          (ap (λ t. sign codec hmac t (compact e)) there ∙ sign_stripe (compact e)) made in
      subst (λ f. verify u codec hmac (f id) headers p.body ≡ some true) (sym is)
        (subst (λ b. verify u codec hmac (stripe id) headers b ≡ some true) (sym same)
          (check_provided-prefixed (codes "stripe-signature") [] stripe_secret headers (compact e)
            (carried _ _ sent)))
  posted-verify compact d id e p headers (inr (inr is)) to made carried =
      subst (λ f. verify u codec hmac (f id) headers p.body ≡ some true) (sym is) refl
