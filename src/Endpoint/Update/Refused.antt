-- ===== src/Endpoint/Update/Refused.antt =====
-- Changes that are refused, and the secret that a change leaves.
use mathlib.Core.Path.{subst}
use webhook_inbox.Prelude.{
  ℕ, ◌≡◌, refl, ap, Bool, false, not, ◌&&◌, List, Option, none, some, ltb, arith, Bool-cases, inl,
  inr,
}
use webhook_inbox.Prelude.Text.{Str, Unicode, codes, str_eq}
use webhook_inbox.Endpoint.{Endpoint}
use webhook_inbox.Endpoint.Validation.{
  AuthConfig, apply_default_header, validate_path, validate_methods, has_secret,
}
use webhook_inbox.Endpoint.Update.{
  SentField, EndpointUpdate, check_sent, check_if, is_name, validate_update, with_checked,
  merged_type, merged_secret, rejected, ready, check_merged, prepare_changes, update_endpoint,
}

pub check_merged-ready :
    (changes c : EndpointUpdate) (type secret : Option Str)
    → check_merged changes type secret ≡ ready c
    → (changes ≡ c)
      × (kind : Str) × (type ≡ some kind)
      × ((not (str_eq kind (codes "none")) && not (has_secret secret)) ≡ false)
unfolding check_merged
check_merged-ready changes c none secret h = absurd (ground (arith, h))
check_merged-ready changes c (some kind) secret h =
    elim (Bool-cases (not (str_eq kind (codes "none")) && not (has_secret secret))) [
      | inl bad ↦ absurd (ground (arith, h, bad))
      | inr fine ↦ (ground (arith, h, fine), kind, refl, fine)
    ]

pub prepare_changes-ready :
    (e : Endpoint) (o : Option EndpointUpdate) (c : EndpointUpdate)
    → prepare_changes e o ≡ ready c
    → (o ≡ some c)
      × (check_merged c
            (merged_type e.authentication c.authentication)
            (merged_secret e.secret c.secret)
          ≡ ready c)
unfolding prepare_changes
prepare_changes-ready e none c h = absurd (ground (arith, h))
prepare_changes-ready e (some ch) c h =
    let (same, _, _, _) =
      check_merged-ready ch c (merged_type e.authentication ch.authentication)
        (merged_secret e.secret ch.secret) h in
    (
      ap some same,
      subst
          (λ x.
            check_merged x (merged_type e.authentication x.authentication)
              (merged_secret e.secret x.secret)
            ≡ ready c)
          same h,
    )

check_merged_rejected :
    (c : EndpointUpdate) (type secret : Option Str) (status : ℕ)
    → check_merged c type secret ≡ rejected status
    → status ≡ 422
unfolding check_merged
check_merged_rejected c none secret status h = absurd (ground (arith, h))
check_merged_rejected c (some kind) secret status h =
    elim (Bool-cases (not (str_eq kind (codes "none")) && not (has_secret secret))) [
      | inl bad ↦ ground (arith, h, bad)
      | inr fine ↦ absurd (ground (arith, h, fine))
    ]

prepare_changes_rejected :
    (e : Endpoint) (o : Option EndpointUpdate) (status : ℕ)
    → prepare_changes e o ≡ rejected status
    → status ≡ 422
unfolding prepare_changes
prepare_changes_rejected e none status h = ground (arith, h)
prepare_changes_rejected e (some c) status h =
    check_merged_rejected c (merged_type e.authentication c.authentication)
      (merged_secret e.secret c.secret) status h

-- A stored endpoint is never refused a change but with 422.
pub update_endpoint_rejected :
    (u : Unicode) (e : Endpoint) (payload : EndpointUpdate) (status : ℕ)
    → update_endpoint u (some e) payload ≡ rejected status
    → status ≡ 422
unfolding update_endpoint
update_endpoint_rejected u e payload status =
    prepare_changes_rejected e (validate_update u payload) status

-- What a change names of the secret is what the request sent.
with_checked_secret :
    (name path : Option (SentField Str)) (enabled : SentField Bool)
    (auth : Option (SentField AuthConfig)) (secret : SentField Str)
    (methods : Option (SentField (List Str))) (size days : Option (SentField ℕ))
    (c : EndpointUpdate)
    → with_checked name path enabled auth secret methods size days ≡ some c
    → c.secret ≡ secret
unfolding with_checked
with_checked_secret (some name) (some path) enabled (some auth) secret (some methods) (some size)
      (some days) c h =
    ground (arith, h)
with_checked_secret none path enabled auth secret methods size days c h = absurd (ground (arith, h))
with_checked_secret (some name) none enabled auth secret methods size days c h =
    absurd (ground (arith, h))
with_checked_secret (some name) (some path) enabled none secret methods size days c h =
    absurd (ground (arith, h))
with_checked_secret (some name) (some path) enabled (some auth) secret none size days c h =
    absurd (ground (arith, h))
with_checked_secret (some name) (some path) enabled (some auth) secret (some methods) none days c
      h =
    absurd (ground (arith, h))
with_checked_secret (some name) (some path) enabled (some auth) secret (some methods) (some size)
      none c h =
    absurd (ground (arith, h))

pub update_endpoint_secret :
    (u : Unicode) (e : Endpoint) (payload c : EndpointUpdate)
    → update_endpoint u (some e) payload ≡ ready c
    → c.secret ≡ payload.secret
unfolding update_endpoint validate_update
update_endpoint_secret u e payload c h =
    let (valid, _) = prepare_changes-ready e (validate_update u payload) c h in
    with_checked_secret (check_sent (check_if is_name) payload.name)
      (check_sent validate_path payload.path) payload.enabled
      (check_sent (λ auth. some (apply_default_header u auth)) payload.authentication)
      payload.secret (check_sent (validate_methods u) payload.allowed)
      (check_sent (check_if (λ n. ltb 0 n)) payload.max_payload_size)
      (check_sent (check_if (λ n. ltb 0 n)) payload.retention_days) c valid
