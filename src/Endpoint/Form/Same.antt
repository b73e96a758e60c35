-- ===== src/Endpoint/Form/Same.antt =====
-- The forms do to the collections what the API does, and a blank secret keeps the stored one.
use mathlib.Core.Path.{subst}
use webhook_inbox.Prelude.{
  ℕ, ◌≡◌, refl, sym, ap, Bool, false, Option, none, some, ◌==◌, arith, Option-cases, inl, inr,
}
use webhook_inbox.Prelude.Text.{Str, Unicode}
use webhook_inbox.Mongo.{Collection}
use webhook_inbox.Mongo.Indexed.{Indexed}
use webhook_inbox.Search.Query.{Formats}
use webhook_inbox.Event.{Event, event_id_of}
use webhook_inbox.Retention.{RetentionConfig}
use webhook_inbox.Endpoint.{Endpoint, same_path}
use webhook_inbox.Endpoint.Validation.{EndpointCreate, validate_create, to_document}
use webhook_inbox.Endpoint.Update.{
  SentField, EndpointUpdate, validate_update, Prepared, rejected, raised, ready, update_endpoint,
  apply_changes,
}
use webhook_inbox.Endpoint.Update.Refused.{update_endpoint_rejected}
use webhook_inbox.Endpoint.Store.{
  find_or_404, insert_valid, create_endpoint, write_changed, write_prepared, change_found, unfound,
  change_endpoint,
}
use webhook_inbox.Endpoint.Store.Steps.{found_id}
use webhook_inbox.Endpoint.Form.{
  Numerals, EndpointForm, fields, parse_endpoint_form, new_form, update_of, insert_shown,
  create_parsed, endpoint_create, write_saved, save_prepared, save_parsed, save_found,
  endpoint_save,
}

-- The status is this one.
abbrev pub says : ℕ → Option ℕ → Bool
says status none = false
says status (some s) = s == status

update_endpoint_unfound :
    (u : Unicode) (payload : EndpointUpdate) (status : ℕ)
    → update_endpoint u none payload ≡ rejected status
    → says 200 (some status) ≡ false
unfolding update_endpoint
update_endpoint_unfound u payload status h = elim (Option-cases (validate_update u payload)) [
  | inl bad ↦ ground (arith, h, bad)
  | inr (c, fine) ↦ ground (arith, h, fine)
]

module _ (u : Unicode) (f : Formats) (n : Numerals) (endpoints : Indexed Endpoint same_path) where
  insert_shown-valid :
      (id : ℕ) (s : endpoints.State) (o : Option EndpointCreate)
      → ((insert_shown u f n endpoints id s o).1 ≡ (insert_valid u f endpoints id s o).1)
        × (says 204 (insert_shown u f n endpoints id s o).0
            ≡ says 201 (insert_valid u f endpoints id s o).0)
  unfolding insert_shown insert_valid
  insert_shown-valid id s none = (refl, refl)
  insert_shown-valid id s (some created) =
      elim (Option-cases (endpoints.insert_one (to_document id created) s)) [
        | inl taken ↦ rw (taken, insert_shown, insert_valid) (refl, refl)
        | inr (after, made) ↦ rw (made, insert_shown, insert_valid) (refl, refl)
      ]

  -- Where the form of a new endpoint has fields, it leaves the endpoints as the API does with these
  -- fields, and it says 204 exactly if the API says 201.
  pub endpoint_create-create_endpoint :
      (id : ℕ) (form : EndpointForm) (payload : EndpointCreate) (s : endpoints.State)
      → parse_endpoint_form n (new_form form) ≡ fields payload
      → ((endpoint_create u f n endpoints id form s).1
          ≡ (create_endpoint u f endpoints id payload s).1)
        × (says 204 (endpoint_create u f n endpoints id form s).0
            ≡ says 201 (create_endpoint u f endpoints id payload s).0)
  unfolding endpoint_create create_endpoint create_parsed
  endpoint_create-create_endpoint id form payload s parsed =
      rw (parsed, create_parsed) (insert_shown-valid id s (validate_create u payload))

  module _ (events : Collection Event event_id_of) (config : RetentionConfig) where
    write_saved-changed :
        (s : endpoints.State) (es : events.State) (days : SentField ℕ) (e : Endpoint)
        (o : Option Endpoint)
        → ((write_saved u f n endpoints events config e.id s es days o).1
            ≡ (write_changed u f endpoints events config s es days e o).1)
          × (says 204 (write_saved u f n endpoints events config e.id s es days o).0
              ≡ says 200 (write_changed u f endpoints events config s es days e o).0)
    unfolding write_saved write_changed
    write_saved-changed s es days e none = (refl, refl)
    write_saved-changed s es days e (some x) =
        elim (Option-cases (endpoints.update_one (λ d. d.id == e.id) (λ d. x) s)) [
          | inl taken ↦ rw (taken, write_saved, write_changed) (refl, refl)
          | inr (after, made) ↦ rw (made, write_saved, write_changed) (refl, refl)
        ]

    -- Without a document nothing is written, and the page says 404.
    unfound_same :
        (s : endpoints.State) (es : events.State) (p : Prepared)
        → ((status : ℕ) → p ≡ rejected status → says 200 (some status) ≡ false)
        → (◌≡◌ {A = Option (endpoints.State × events.State)}
            (some (s, es))
            (unfound u f endpoints events config s es p).1)
          × (false ≡ says 200 (unfound u f endpoints events config s es p).0)
    unfolding unfound
    unfound_same s es (rejected status) refused = (refl, sym (refused status refl))
    unfound_same s es raised refused = (refl, refl)
    unfound_same s es (ready c) refused = (refl, refl)

    save_prepared-written :
        (s : endpoints.State) (es : events.State) (e : Endpoint) (p : Prepared)
        → ((status : ℕ) → p ≡ rejected status → status ≡ 422)
        → ((save_prepared u f n endpoints events config e.id s es e p).1
            ≡ (write_prepared u f endpoints events config s es e p).1)
          × (says 204 (save_prepared u f n endpoints events config e.id s es e p).0
              ≡ says 200 (write_prepared u f endpoints events config s es e p).0)
    unfolding save_prepared write_prepared
    save_prepared-written s es e (rejected status) refused = (refl, rw (refused status refl) refl)
    save_prepared-written s es e raised refused = (refl, refl)
    save_prepared-written s es e (ready c) refused =
        write_saved-changed s es c.retention_days e (apply_changes e c)

    save_found_lem :
        (s : endpoints.State) (es : events.State) (form : EndpointForm) (payload : EndpointCreate)
        (id : ℕ) (e : Endpoint)
        → parse_endpoint_form n form ≡ fields payload
        → save_found u f n endpoints events config id form s es (some e)
          ≡ save_prepared u f n endpoints events config id s es e
              (update_endpoint u (some e) (update_of payload))
    unfolding save_found save_parsed
    save_found_lem s es form payload id e parsed =
        ap (save_parsed u f n endpoints events config id s es e) parsed

    save_found-change_found :
        (s : endpoints.State) (es : events.State) (form : EndpointForm) (payload : EndpointCreate)
        (id : ℕ) (o : Option Endpoint)
        → parse_endpoint_form n form ≡ fields payload
        → ((e : Endpoint) → o ≡ some e → e.id ≡ id)
        → ((save_found u f n endpoints events config id form s es o).1
            ≡ (change_found u f endpoints events config (update_of payload) s es o).1)
          × (says 204 (save_found u f n endpoints events config id form s es o).0
              ≡ says 200 (change_found u f endpoints events config (update_of payload) s es o).0)
    unfolding change_found
    save_found-change_found s es form payload id none parsed found =
        unfold save_found in
        unfound_same s es (update_endpoint u none (update_of payload))
          (update_endpoint_unfound u (update_of payload))
    save_found-change_found s es form payload id (some e) parsed found =
        let change = update_endpoint u (some e) (update_of payload) in
        subst
          (λ k.
            ((save_found u f n endpoints events config k form s es (some e)).1
              ≡ (write_prepared u f endpoints events config s es e change).1)
            × (says 204 (save_found u f n endpoints events config k form s es (some e)).0
                ≡ says 200 (write_prepared u f endpoints events config s es e change).0))
          (found e refl)
          (rw (save_found_lem s es form payload e.id e parsed) (
            save_prepared-written s es e change
              (λ status. update_endpoint_rejected u e (update_of payload) status)))

    find_or_404_lem :
        (endpoint_id : Str) (id : ℕ) (s : endpoints.State)
        → f.object_id endpoint_id ≡ some id
        → find_or_404 u f endpoints endpoint_id s ≡ endpoints.find_one (λ d. d.id == id) s
    unfolding find_or_404
    find_or_404_lem endpoint_id id s parsed = rw (parsed, find_or_404) refl

    find_or_404-none :
        (endpoint_id : Str) (s : endpoints.State)
        → f.object_id endpoint_id ≡ none
        → find_or_404 u f endpoints endpoint_id s ≡ none
    unfolding find_or_404
    find_or_404-none endpoint_id s bad = rw (bad, find_or_404) refl

    -- Where the form of an endpoint has fields, saving it leaves the endpoints and the events as the
    -- API does with a change of all these fields, but for a blank secret, and says 204 exactly if
    -- the API says 200.
    pub endpoint_save-change_endpoint :
        (endpoint_id : Str) (form : EndpointForm) (payload : EndpointCreate) (s : endpoints.State)
        (es : events.State)
        → parse_endpoint_form n form ≡ fields payload
        → ((endpoint_save u f n endpoints events config endpoint_id form s es).1
            ≡ (change_endpoint u f endpoints events config endpoint_id (update_of payload) s es).1)
          × (says 204 (endpoint_save u f n endpoints events config endpoint_id form s es).0
              ≡ says 200
                  (change_endpoint u f endpoints events config endpoint_id
                    (update_of payload)
                    s
                    es).0)
    unfolding endpoint_save change_endpoint
    endpoint_save-change_endpoint endpoint_id form payload s es parsed =
        elim (Option-cases (f.object_id endpoint_id)) [
          | inl bad ↦
              rw (bad, find_or_404-none endpoint_id s bad, endpoint_save)
                (unfound_same s es (update_endpoint u none (update_of payload))
                  (update_endpoint_unfound u (update_of payload)))
          | inr (id, known) ↦
              rw (known, find_or_404_lem endpoint_id id s known, endpoint_save)
                (save_found-change_found s es form payload id
                  (endpoints.find_one (λ d. d.id == id) s) parsed
                  (λ e found. found_id endpoints id e s found))
        ]
