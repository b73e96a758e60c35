-- ===== src/Endpoint/Form/Secret.antt =====
-- A blank secret in the form of an endpoint keeps the stored one.
use mathlib.Core.Path.{subst}
use webhook_inbox.Prelude.{
  ℕ, ◌≡◌, refl, sym, ap, ◌∙◌, true, [], Option, none, some, ◌==◌, arith, Option-cases, inl, inr,
}
use webhook_inbox.Prelude.Text.{Str, Unicode}
use webhook_inbox.Mongo.{Collection}
use webhook_inbox.Mongo.Indexed.{Indexed, documents_in}
use webhook_inbox.Mongo.Indexed.Places.{update_unique-found}
use webhook_inbox.Search.Query.{Formats}
use webhook_inbox.Event.{Event, event_id_of}
use webhook_inbox.Retention.{RetentionConfig}
use webhook_inbox.Endpoint.{AuthType, Endpoint, same_path}
use webhook_inbox.Endpoint.Validation.{EndpointCreate}
use webhook_inbox.Endpoint.Update.{
  SentField, unset, EndpointUpdate, Prepared, rejected, raised, ready, update_endpoint,
  apply_changes, merged_secret,
}
use webhook_inbox.Endpoint.Update.Refused.{update_endpoint_secret}
use webhook_inbox.Endpoint.Update.Changed.{apply_changes_fields}
use webhook_inbox.Endpoint.Store.Steps.{found_id}
use webhook_inbox.Endpoint.Form.{
  Numerals, EndpointForm, Parsed, fields, validation_error, value_error, parse_endpoint_form,
  fields_of, update_of, write_saved, save_prepared, save_parsed, save_found, endpoint_save,
}

fields_of_secret :
    (form : EndpointForm) (kind : Option AuthType) (size days : Option (Option ℕ))
    (payload : EndpointCreate)
    → form.secret ≡ []
    → fields_of form kind size days ≡ fields payload
    → payload.secret ≡ none
unfolding fields_of
fields_of_secret form none size days payload blank h = absurd (ground (arith, h))
fields_of_secret form (some kind) none days payload blank h = absurd (ground (arith, h))
fields_of_secret form (some kind) (some size) none payload blank h = absurd (ground (arith, h))
fields_of_secret form (some kind) (some size) (some days) payload blank h = ground (arith, blank, h)

parse_endpoint_form_secret :
    (n : Numerals) (form : EndpointForm) (payload : EndpointCreate)
    → form.secret ≡ []
    → parse_endpoint_form n form ≡ fields payload
    → (update_of payload).secret ≡ unset
unfolding parse_endpoint_form update_of
parse_endpoint_form_secret n form payload blank h =
    rw (fields_of_secret form _ _ _ payload blank h) refl

module _ (u : Unicode) (f : Formats) (n : Numerals) (endpoints : Indexed Endpoint same_path)
    (events : Collection Event event_id_of) (config : RetentionConfig) (s after : endpoints.State)
    (es es' : events.State) (id : ℕ) (e : Endpoint)
    (found : endpoints.find_one (λ d. d.id == id) s ≡ some e) where
  -- The endpoint is found again, with the secret that it had.
  abbrev pub KeepsSecret : Type 0
  KeepsSecret =
      (x : Endpoint) × (endpoints.find_one (λ d. d.id == id) after ≡ some x) × (x.secret ≡ e.secret)

  write_saved-KeepsSecret :
      (days : SentField ℕ) (o : Option Endpoint)
      → ((x : Endpoint) → o ≡ some x → (x.id ≡ e.id) × (x.secret ≡ e.secret))
      → write_saved u f n endpoints events config id s es days o ≡ (some 204, some (after, es'))
      → KeepsSecret
  unfolding write_saved
  write_saved-KeepsSecret days none fine made = absurd (ground (arith, made))
  write_saved-KeepsSecret days (some x) fine made =
      elim (Option-cases (endpoints.update_one (λ d. d.id == id) (λ d. x) s)) [
        | inl taken ↦ absurd (ground (arith, made, taken))
        | inr (now, done) ↦
            let here : now ≡ after = ground (arith, made, done) in
            let (same, secret) = fine x refl in
            let is_id : (x.id == id) ≡ true =
              ground (arith, same, found_id endpoints id e s found) in
            let again =
              update_unique-found same_path (λ d. d.id == id) x e (endpoints.documents s)
                (endpoints.documents now)
                (sym (endpoints.documents-find_one (λ d. d.id == id) s) ∙ found)
                (sym (endpoints.documents-update_one (λ d. d.id == id) (λ d. x) s)
                  ∙ ap (documents_in endpoints.documents) done)
                is_id in
            (
              x,
              subst (λ t. endpoints.find_one (λ d. d.id == id) t ≡ some x) here
                  (endpoints.documents-find_one (λ d. d.id == id) now ∙ again),
              secret,
            )
      ]

  save_prepared-KeepsSecret :
      (payload : EndpointUpdate) (p : Prepared)
      → payload.secret ≡ unset
      → update_endpoint u (some e) payload ≡ p
      → save_prepared u f n endpoints events config id s es e p ≡ (some 204, some (after, es'))
      → KeepsSecret
  unfolding save_prepared
  save_prepared-KeepsSecret payload (rejected status) blank is made = absurd (ground (arith, made))
  save_prepared-KeepsSecret payload raised blank is made = absurd (ground (arith, made))
  save_prepared-KeepsSecret payload (ready c) blank is made =
      write_saved-KeepsSecret c.retention_days (apply_changes e c)
        (λ x applied.
          let (same, _, secret) = apply_changes_fields e x c applied in
          (
            same,
            secret ∙ ap (merged_secret e.secret) (update_endpoint_secret u e payload c is ∙ blank),
          ))
        made

  save_parsed-KeepsSecret :
      (p : Parsed)
      → ((payload : EndpointCreate) → p ≡ fields payload → (update_of payload).secret ≡ unset)
      → save_parsed u f n endpoints events config id s es e p ≡ (some 204, some (after, es'))
      → KeepsSecret
  unfolding save_parsed
  save_parsed-KeepsSecret (fields payload) blank made =
      save_prepared-KeepsSecret (update_of payload) (update_endpoint u (some e) (update_of payload))
        (blank payload refl) refl made
  save_parsed-KeepsSecret validation_error blank made = absurd (ground (arith, made))
  save_parsed-KeepsSecret value_error blank made = absurd (ground (arith, made))

  save_found-KeepsSecret :
      (form : EndpointForm) (o : Option Endpoint)
      → o ≡ some e
      → form.secret ≡ []
      → save_found u f n endpoints events config id form s es o ≡ (some 204, some (after, es'))
      → KeepsSecret
  unfolding save_found
  save_found-KeepsSecret form none is blank made = absurd (ground (arith, is))
  save_found-KeepsSecret form (some e') is blank made =
      let same : e' ≡ e = cc is in
      save_parsed-KeepsSecret (parse_endpoint_form n form)
        (λ payload parsed. parse_endpoint_form_secret n form payload blank parsed)
        (subst
          (λ t.
            save_parsed u f n endpoints events config id s es t (parse_endpoint_form n form)
            ≡ (some 204, some (after, es')))
          same made)

  -- If the form of an endpoint that is stored leaves the secret blank and is saved, the endpoint
  -- stored under the id has the secret that it had.
  pub endpoint_save-KeepsSecret :
      (endpoint_id : Str) (form : EndpointForm)
      → f.object_id endpoint_id ≡ some id
      → form.secret ≡ []
      → endpoint_save u f n endpoints events config endpoint_id form s es
        ≡ (some 204, some (after, es'))
      → KeepsSecret
  unfolding endpoint_save
  endpoint_save-KeepsSecret endpoint_id form parsed blank made =
      save_found-KeepsSecret form (endpoints.find_one (λ d. d.id == id) s) found blank
        (rw (parsed, endpoint_save) at made)
