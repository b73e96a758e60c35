-- ===== src/Endpoint/Form/Steps.antt =====
-- The handlers of the endpoint forms take no steps but those of Endpoint/Effect.
use mathlib.Core.Path.{subst}
use webhook_inbox.Prelude.{ℕ, ◌≡◌, refl, Option, none, some, ◌==◌, arith, Option-cases, inl, inr}
use webhook_inbox.Prelude.Text.{Str, Unicode}
use webhook_inbox.Mongo.{Collection}
use webhook_inbox.Mongo.Indexed.{Indexed}
use webhook_inbox.Search.Query.{Formats}
use webhook_inbox.Event.{Event, event_id_of}
use webhook_inbox.Retention.{RetentionConfig}
use webhook_inbox.Endpoint.{Endpoint, same_path}
use webhook_inbox.Endpoint.Validation.{EndpointCreate, validate_create, to_document}
use webhook_inbox.Endpoint.Validation.Configured.{IsConfigured, validate_create-IsConfigured}
use webhook_inbox.Endpoint.Update.{
  SentField, EndpointUpdate, Prepared, rejected, raised, ready, update_endpoint, apply_changes,
  kept_or_null,
}
use webhook_inbox.Endpoint.Update.Changed.{update_endpoint-IsConfigured, apply_changes_fields}
use webhook_inbox.Endpoint.Effect.{IsFresh, Effect, unchanged, removed, replaced}
use webhook_inbox.Endpoint.Store.{reapply_if}
use webhook_inbox.Endpoint.Store.Steps.{inserted, written, reapply_if_lem, same_state}
use webhook_inbox.Endpoint.Form.{
  Numerals, EndpointForm, Parsed, fields, validation_error, value_error, parse_endpoint_form,
  new_form, update_of, insert_shown, create_parsed, endpoint_create, endpoint_delete, write_saved,
  save_prepared, save_parsed, save_found, endpoint_save,
}

module _ (u : Unicode) (f : Formats) (n : Numerals) (endpoints : Indexed Endpoint same_path)
    (events : Collection Event event_id_of) (config : RetentionConfig) where
  abbrev StepsTo : endpoints.State → events.State → endpoints.State → events.State → Type 0
  StepsTo s es after es' =
      Effect config (endpoints.documents s) (events.documents es) (endpoints.documents after)
        (events.documents es')

  insert_shown-Effect :
      (id : ℕ) (payload : EndpointCreate) (s : endpoints.State) (es : events.State)
      (o : Option EndpointCreate)
      → validate_create u payload ≡ o
      → IsFresh id (endpoints.documents s) (events.documents es)
      → StepsTo s es (insert_shown u f n endpoints id s o).1 es
  unfolding insert_shown to_document
  insert_shown-Effect id payload s es none valid fresh = unchanged refl refl
  insert_shown-Effect id payload s es (some created) valid fresh =
      elim (Option-cases (endpoints.insert_one (to_document id created) s)) [
        | inl taken ↦ rw (taken, insert_shown) (unchanged refl refl)
        | inr (after, made) ↦
            rw (made, insert_shown)
              (inserted endpoints config (to_document id created) s after made
                (validate_create-IsConfigured u payload created id valid) fresh)
      ]

  create_parsed-Effect :
      (id : ℕ) (s : endpoints.State) (es : events.State) (p : Parsed)
      → IsFresh id (endpoints.documents s) (events.documents es)
      → StepsTo s es (create_parsed u f n endpoints id s p).1 es
  unfolding create_parsed
  create_parsed-Effect id s es (fields payload) fresh =
      insert_shown-Effect id payload s es (validate_create u payload) refl fresh
  create_parsed-Effect id s es validation_error fresh = unchanged refl refl
  create_parsed-Effect id s es value_error fresh = unchanged refl refl

  pub endpoint_create-Effect :
      (id : ℕ) (form : EndpointForm) (s : endpoints.State) (es : events.State)
      → IsFresh id (endpoints.documents s) (events.documents es)
      → StepsTo s es (endpoint_create u f n endpoints id form s).1 es
  unfolding endpoint_create
  endpoint_create-Effect id form s es =
      create_parsed-Effect id s es (parse_endpoint_form n (new_form form))

  pub endpoint_delete-Effect :
      (endpoint_id : Str) (s : endpoints.State) (es : events.State)
      → StepsTo s es (endpoint_delete u f n endpoints endpoint_id s).1 es
  unfolding endpoint_delete
  endpoint_delete-Effect endpoint_id s es = elim (Option-cases (f.object_id endpoint_id)) [
    | inl bad ↦ rw (bad, endpoint_delete) (unchanged refl refl)
    | inr (id, parsed) ↦
        rw (parsed, endpoint_delete)
          (removed (λ d. d.id == id) (endpoints.documents-delete_one (λ d. d.id == id) s) refl)
  ]

  write_saved-Effect :
      (id : ℕ) (s after : endpoints.State) (es es' : events.State) (days : SentField ℕ)
      (e : Endpoint) (o : Option Endpoint)
      → endpoints.find_one (λ d. d.id == id) s ≡ some e
      → ((x : Endpoint)
          → o ≡ some x
          → (x.id ≡ e.id)
            × (x.retention_days ≡ kept_or_null e.retention_days days)
            × (IsConfigured e → IsConfigured x))
      → (write_saved u f n endpoints events config id s es days o).1 ≡ some (after, es')
      → StepsTo s es after es'
  unfolding write_saved
  write_saved-Effect id s after es es' days e none found fine made = absurd (ground (arith, made))
  write_saved-Effect id s after es es' days e (some x) found fine made =
      elim (Option-cases (endpoints.update_one (λ d. d.id == id) (λ d. x) s)) [
        | inl taken ↦
            same_state u f endpoints events config s after es es' (ground (arith, made, taken))
        | inr (now, done) ↦
            let (id_kept, kept, configured) = fine x refl in
            let here : now ≡ after = ground (arith, made, done) in
            let there : reapply_if u f endpoints events config days x es ≡ es' =
              ground (arith, made, done) in
            subst (λ t. StepsTo s es t es') here
              (subst (λ t. StepsTo s es now t) there
                (replaced e x (written endpoints id e x s now found done) id_kept configured
                  (reapply_if_lem u f endpoints events config days e x es kept)))
      ]

  save_prepared-Effect :
      (id : ℕ) (s after : endpoints.State) (es es' : events.State) (e : Endpoint)
      (payload : EndpointUpdate) (p : Prepared)
      → update_endpoint u (some e) payload ≡ p
      → endpoints.find_one (λ d. d.id == id) s ≡ some e
      → (save_prepared u f n endpoints events config id s es e p).1 ≡ some (after, es')
      → StepsTo s es after es'
  unfolding save_prepared
  save_prepared-Effect id s after es es' e payload (rejected status) is found made =
      same_state u f endpoints events config s after es es' made
  save_prepared-Effect id s after es es' e payload raised is found made =
      same_state u f endpoints events config s after es es' made
  save_prepared-Effect id s after es es' e payload (ready c) is found made =
      write_saved-Effect id s after es es' c.retention_days e (apply_changes e c) found
        (λ x applied.
          let (id_kept, days, _) = apply_changes_fields e x c applied in
          (id_kept, days, λ h. update_endpoint-IsConfigured u e x payload c h is applied))
        made

  save_parsed-Effect :
      (id : ℕ) (s after : endpoints.State) (es es' : events.State) (e : Endpoint) (p : Parsed)
      → endpoints.find_one (λ d. d.id == id) s ≡ some e
      → (save_parsed u f n endpoints events config id s es e p).1 ≡ some (after, es')
      → StepsTo s es after es'
  unfolding save_parsed
  save_parsed-Effect id s after es es' e (fields payload) found made =
      save_prepared-Effect id s after es es' e (update_of payload)
        (update_endpoint u (some e) (update_of payload)) refl found made
  save_parsed-Effect id s after es es' e validation_error found made =
      same_state u f endpoints events config s after es es' made
  save_parsed-Effect id s after es es' e value_error found made =
      same_state u f endpoints events config s after es es' made

  save_found-Effect :
      (id : ℕ) (form : EndpointForm) (s after : endpoints.State) (es es' : events.State)
      (o : Option Endpoint)
      → endpoints.find_one (λ d. d.id == id) s ≡ o
      → (save_found u f n endpoints events config id form s es o).1 ≡ some (after, es')
      → StepsTo s es after es'
  unfolding save_found
  save_found-Effect id form s after es es' none found made =
      same_state u f endpoints events config s after es es' made
  save_found-Effect id form s after es es' (some e) found made =
      save_parsed-Effect id s after es es' e (parse_endpoint_form n form) found made

  pub endpoint_save-Effect :
      (endpoint_id : Str) (form : EndpointForm) (s after : endpoints.State) (es es' : events.State)
      → (endpoint_save u f n endpoints events config endpoint_id form s es).1 ≡ some (after, es')
      → StepsTo s es after es'
  unfolding endpoint_save
  endpoint_save-Effect endpoint_id form s after es es' made =
      elim (Option-cases (f.object_id endpoint_id)) [
        | inl bad ↦
            same_state u f endpoints events config s after es es' (rw (bad, endpoint_save) at made)
        | inr (id, parsed) ↦
            save_found-Effect id form s after es es' (endpoints.find_one (λ d. d.id == id) s) refl
              (rw (parsed, endpoint_save) at made)
      ]
