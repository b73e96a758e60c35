-- ===== src/Endpoint/Update/Changed.antt =====
-- An endpoint stays well formed when it is changed.
use mathlib.Core.Path.{subst}
use webhook_inbox.Prelude.{ℕ, ◌≡◌, refl, sym, ap, Bool, true, List, Option, none, some, ltb, arith}
use webhook_inbox.Prelude.Text.{Str, Unicode}
use webhook_inbox.Endpoint.{Authentication, Endpoint}
use webhook_inbox.Endpoint.Validation.{
  AuthConfig, apply_default_header, validate_path, validate_methods, is_positive,
}
use webhook_inbox.Endpoint.Validation.Configured.{IsConfigured}
use webhook_inbox.Endpoint.Update.{
  SentField, EndpointUpdate, check_sent, check_if, is_name, validate_update, with_checked,
  merged_type, merged_secret, ready, check_merged, update_endpoint, kept, kept_some, kept_or_null,
  kept_auth, apply_changes, assemble, assembled,
}
use webhook_inbox.Endpoint.Update.Refused.{check_merged-ready, prepare_changes-ready}
use webhook_inbox.Endpoint.Update.Fields.{
  IsPath, AreMethods, IsAuth, kept-IsPath, kept_some-switched, kept_some-AreMethods,
  kept_or_null-is_positive, kept_auth-IsAuth,
}

with_checked-some :
    (name path : Option (SentField Str)) (enabled : SentField Bool)
    (auth : Option (SentField AuthConfig)) (secret : SentField Str)
    (methods : Option (SentField (List Str))) (size days : Option (SentField ℕ))
    (c : EndpointUpdate)
    → with_checked name path enabled auth secret methods size days ≡ some c
    → (path ≡ some c.path) × (methods ≡ some c.allowed) × (size ≡ some c.max_payload_size)
unfolding with_checked
with_checked-some (some name) (some path) enabled (some auth) secret (some methods) (some size)
      (some days) c h =
    (cc h, cc h, cc h)
with_checked-some none path enabled auth secret methods size days c h = absurd (ground (arith, h))
with_checked-some (some name) none enabled auth secret methods size days c h =
    absurd (ground (arith, h))
with_checked-some (some name) (some path) enabled none secret methods size days c h =
    absurd (ground (arith, h))
with_checked-some (some name) (some path) enabled (some auth) secret none size days c h =
    absurd (ground (arith, h))
with_checked-some (some name) (some path) enabled (some auth) secret (some methods) none days c h =
    absurd (ground (arith, h))
with_checked-some (some name) (some path) enabled (some auth) secret (some methods) (some size) none
      c h =
    absurd (ground (arith, h))

-- The document that the parts make, with what each part was.
assemble-IsConfigured :
    (e after : Endpoint) (c : EndpointUpdate) (name path : Option Str)
    (enabled : Option (Option Bool)) (auth : Option (Option Authentication))
    (methods : Option (Option (List Str)))
    → assemble e c name path enabled auth methods ≡ some after
    → ((p : Str) → path ≡ some p → IsPath p)
    → ((b : Option Bool) → enabled ≡ some b → (on : Bool) × (b ≡ some on))
    → ((m : Option (List Str)) → methods ≡ some m → AreMethods m)
    → ((a : Option Authentication) → auth ≡ some a → IsAuth e a (merged_secret e.secret c.secret))
    → is_positive (kept_or_null e.max_payload_size c.max_payload_size) ≡ true
    → IsConfigured after
unfolding assemble
assemble-IsConfigured e after c (some name) (some path) (some enabled) (some auth) (some methods) h
      p b m a sized =
    let (slug, in_place) = p path refl in
    let (on, switched) = b enabled refl in
    let (taken, takes, some_method, known) = m methods refl in
    let (kind, known_kind, with_secret) = a auth refl in
    let made : assembled e c name path enabled auth methods ≡ after = cc h in
    subst IsConfigured made (record {
      path = slug;
      in_place = in_place;
      switch = on;
      switched = switched;
      methods = taken;
      takes = takes;
      some_method = some_method;
      known_methods = known;
      kind = kind;
      known_kind = known_kind;
      with_secret = with_secret;
      sized = sized;
    })
assemble-IsConfigured e after c none path enabled auth methods h p b m a sized =
    absurd (ground (arith, h))
assemble-IsConfigured e after c (some name) none enabled auth methods h p b m a sized =
    absurd (ground (arith, h))
assemble-IsConfigured e after c (some name) (some path) none auth methods h p b m a sized =
    absurd (ground (arith, h))
assemble-IsConfigured e after c (some name) (some path) (some enabled) none methods h p b m a
      sized =
    absurd (ground (arith, h))
assemble-IsConfigured e after c (some name) (some path) (some enabled) (some auth) none h p b m a
      sized =
    absurd (ground (arith, h))

checked-IsConfigured :
    (u : Unicode) (e after : Endpoint) (payload c : EndpointUpdate)
    → IsConfigured e
    → validate_update u payload ≡ some c
    → check_merged c
        (merged_type e.authentication c.authentication)
        (merged_secret e.secret c.secret)
      ≡ ready c
    → apply_changes e c ≡ some after
    → IsConfigured after
unfolding validate_update apply_changes
checked-IsConfigured u e after payload c conf valid merged applied =
    let (path, methods, size) =
      with_checked-some (check_sent (check_if is_name) payload.name)
        (check_sent validate_path payload.path) payload.enabled
        (check_sent (λ auth. some (apply_default_header u auth)) payload.authentication)
        payload.secret (check_sent (validate_methods u) payload.allowed)
        (check_sent (check_if (λ n. ltb 0 n)) payload.max_payload_size)
        (check_sent (check_if (λ n. ltb 0 n)) payload.retention_days) c valid in
    let (_, kind, named, fine) =
      check_merged-ready c c (merged_type e.authentication c.authentication)
        (merged_secret e.secret c.secret) merged in
    assemble-IsConfigured e after c (kept e.name c.name) (kept e.path c.path)
      (kept_some e.enabled c.enabled) (kept_auth e.authentication c.authentication)
      (kept_some e.allowed_methods c.allowed) applied
      (λ p k. kept-IsPath e.path p payload.path c.path path k (conf.path, conf.in_place))
      (λ b k. kept_some-switched e.enabled b c.enabled k (conf.switch, conf.switched))
      (λ m k.
        kept_some-AreMethods u e.allowed_methods m payload.allowed c.allowed methods k
          (conf.methods, conf.takes, conf.some_method, conf.known_methods))
      (λ a k.
        kept_auth-IsAuth e c.authentication a (merged_type e.authentication c.authentication)
          (merged_secret e.secret c.secret) k refl kind named fine (conf.kind, conf.known_kind))
      (kept_or_null-is_positive e.max_payload_size payload.max_payload_size c.max_payload_size size
        conf.sized)

assemble_fields :
    (e after : Endpoint) (c : EndpointUpdate) (name path : Option Str)
    (enabled : Option (Option Bool)) (auth : Option (Option Authentication))
    (methods : Option (Option (List Str)))
    → assemble e c name path enabled auth methods ≡ some after
    → (after.id ≡ e.id)
      × (after.retention_days ≡ kept_or_null e.retention_days c.retention_days)
      × (after.secret ≡ merged_secret e.secret c.secret)
      × (enabled ≡ some after.enabled)
unfolding assemble
assemble_fields e after c (some name) (some path) (some enabled) (some auth) (some methods) h =
    let made : assembled e c name path enabled auth methods ≡ after = cc h in
    (
      sym (ap (λ (x : Endpoint). x.id) made),
      sym (ap (λ (x : Endpoint). x.retention_days) made),
      sym (ap (λ (x : Endpoint). x.secret) made),
      ap (λ (x : Endpoint). some x.enabled) made,
    )
assemble_fields e after c none path enabled auth methods h = absurd (ground (arith, h))
assemble_fields e after c (some name) none enabled auth methods h = absurd (ground (arith, h))
assemble_fields e after c (some name) (some path) none auth methods h = absurd (ground (arith, h))
assemble_fields e after c (some name) (some path) (some enabled) none methods h =
    absurd (ground (arith, h))
assemble_fields e after c (some name) (some path) (some enabled) (some auth) none h =
    absurd (ground (arith, h))

-- A change keeps the id, and the days and the secret unless it names them.
pub apply_changes_fields :
    (e after : Endpoint) (c : EndpointUpdate)
    → apply_changes e c ≡ some after
    → (after.id ≡ e.id)
      × (after.retention_days ≡ kept_or_null e.retention_days c.retention_days)
      × (after.secret ≡ merged_secret e.secret c.secret)
unfolding apply_changes
apply_changes_fields e after c h =
    let (id, days, secret, _) =
      assemble_fields e after c (kept e.name c.name) (kept e.path c.path)
        (kept_some e.enabled c.enabled) (kept_auth e.authentication c.authentication)
        (kept_some e.allowed_methods c.allowed) h in
    (id, days, secret)

-- An endpoint that is well formed is so after every change that the handler writes, as
-- long as no null replaces what every reader needs: its path has the form of paths and no two dots in a row, it is on or off, it takes some
-- methods and known ones only, its type of authentication is known, and has a secret unless it is
-- none.
pub update_endpoint-IsConfigured :
    (u : Unicode) (e after : Endpoint) (payload c : EndpointUpdate)
    → IsConfigured e
    → update_endpoint u (some e) payload ≡ ready c
    → apply_changes e c ≡ some after
    → IsConfigured after
unfolding update_endpoint
update_endpoint-IsConfigured u e after payload c conf written applied =
    let (valid, merged) = prepare_changes-ready e (validate_update u payload) c written in
    checked-IsConfigured u e after payload c conf valid merged applied
