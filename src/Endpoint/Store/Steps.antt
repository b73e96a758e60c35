-- ===== src/Endpoint/Store/Steps.antt =====
-- The handlers of app/api/endpoints.py take no steps but those of Endpoint/Effect.
use mathlib.Core.Path.{subst}
use webhook_inbox.Prelude.{
  ℕ, ◌≡◌, refl, sym, ap, ◌∙◌, List, Option, none, some, ◌==◌, arith, Option-cases, inl, inr, ◌⊎◌,
}
use webhook_inbox.Prelude.Text.{Str, Unicode}
use webhook_inbox.Mongo.{Collection}
use webhook_inbox.Mongo.Indexed.{Indexed, documents_in}
use webhook_inbox.Mongo.Indexed.Places.{
  insert_unique-some, update_unique-IsReplaced, IsReplaced, find_first-first_place,
}
use webhook_inbox.Search.Query.{Formats}
use webhook_inbox.Event.{Event, event_id_of}
use webhook_inbox.Retention.{RetentionConfig, reapply}
use webhook_inbox.Endpoint.{Endpoint, same_path}
use webhook_inbox.Endpoint.Validation.{EndpointCreate, validate_create, to_document}
use webhook_inbox.Endpoint.Validation.Configured.{IsConfigured, validate_create-IsConfigured}
use webhook_inbox.Endpoint.Update.{
  SentField, unset, nulled, given, EndpointUpdate, Prepared, rejected, raised, ready,
  update_endpoint, apply_changes, kept_or_null,
}
use webhook_inbox.Endpoint.Update.Changed.{update_endpoint-IsConfigured, apply_changes_fields}
use webhook_inbox.Endpoint.Effect.{
  IsFresh, reapplied_to, Effect, unchanged, added, removed, replaced,
}
use webhook_inbox.Endpoint.Store.{
  find_or_404, insert_valid, create_endpoint, delete_found, delete_endpoint, reapply_if,
  write_changed, write_prepared, change_found, change_endpoint, unfound,
}

module _ (endpoints : Indexed Endpoint same_path) where
  -- An endpoint that was inserted.
  pub inserted :
      (config : RetentionConfig) (e : Endpoint) (s after : endpoints.State) {events : List Event}
      → endpoints.insert_one e s ≡ some after
      → IsConfigured e
      → IsFresh e.id (endpoints.documents s) events
      → Effect config (endpoints.documents s) events (endpoints.documents after) events
  inserted config e s after made fine fresh =
      let (stands, alone) =
        insert_unique-some same_path e (endpoints.documents s) (endpoints.documents after)
          (sym (endpoints.documents-insert_one e s) ∙ ap (documents_in endpoints.documents) made) in
      added e fine fresh alone stands refl

  -- An endpoint that was found and written.
  pub written :
      (id : ℕ) (e x : Endpoint) (s after : endpoints.State)
      → endpoints.find_one (λ d. d.id == id) s ≡ some e
      → endpoints.update_one (λ d. d.id == id) (λ d. x) s ≡ some after
      → IsReplaced same_path (endpoints.documents s) (endpoints.documents after) e x
  written id e x s after found made =
      update_unique-IsReplaced same_path (λ d. d.id == id) x e (endpoints.documents s)
        (endpoints.documents after) (sym (endpoints.documents-find_one (λ d. d.id == id) s) ∙ found)
        (sym (endpoints.documents-update_one (λ d. d.id == id) (λ d. x) s)
          ∙ ap (documents_in endpoints.documents) made)

  pub found_id :
      (id : ℕ) (e : Endpoint) (s : endpoints.State)
      → endpoints.find_one (λ d. d.id == id) s ≡ some e
      → e.id ≡ id
  found_id id e s found =
      let (_, _, _, _, matched) =
        find_first-first_place (λ d. d.id == id) (endpoints.documents s) e
          (sym (endpoints.documents-find_one (λ d. d.id == id) s) ∙ found) in
      ground (arith, matched)

module _ (u : Unicode) (f : Formats) (endpoints : Indexed Endpoint same_path)
    (events : Collection Event event_id_of) (config : RetentionConfig) where
  -- What reapplying leaves of the events, if the changes name the days.
  pub reapply_if_lem :
      (days : SentField ℕ) (e x : Endpoint) (es : events.State)
      → x.retention_days ≡ kept_or_null e.retention_days days
      → ((x.retention_days ≡ e.retention_days)
          × (events.documents (reapply_if u f endpoints events config days x es)
              ≡ events.documents es))
        ⊎ (events.documents (reapply_if u f endpoints events config days x es)
            ≡ reapplied_to config x (events.documents es))
  unfolding reapply_if reapply
  reapply_if_lem unset e x es same = inl (same, refl)
  reapply_if_lem nulled e x es same = inr (events.documents-update_many _ _ es)
  reapply_if_lem (given days) e x es same = inr (events.documents-update_many _ _ es)

  abbrev StepsTo : endpoints.State → events.State → endpoints.State → events.State → Type 0
  StepsTo s es after es' =
      Effect config (endpoints.documents s) (events.documents es) (endpoints.documents after)
        (events.documents es')

  insert_valid-Effect :
      (id : ℕ) (payload : EndpointCreate) (s : endpoints.State) (es : events.State)
      (o : Option EndpointCreate)
      → validate_create u payload ≡ o
      → IsFresh id (endpoints.documents s) (events.documents es)
      → StepsTo s es (insert_valid u f endpoints id s o).1 es
  unfolding insert_valid to_document
  insert_valid-Effect id payload s es none valid fresh = unchanged refl refl
  insert_valid-Effect id payload s es (some created) valid fresh =
      elim (Option-cases (endpoints.insert_one (to_document id created) s)) [
        | inl taken ↦ rw (taken, insert_valid) (unchanged refl refl)
        | inr (after, made) ↦
            rw (made, insert_valid)
              (inserted endpoints config (to_document id created) s after made
                (validate_create-IsConfigured u payload created id valid) fresh)
      ]

  pub create_endpoint-Effect :
      (id : ℕ) (payload : EndpointCreate) (s : endpoints.State) (es : events.State)
      → IsFresh id (endpoints.documents s) (events.documents es)
      → StepsTo s es (create_endpoint u f endpoints id payload s).1 es
  unfolding create_endpoint
  create_endpoint-Effect id payload s es =
      insert_valid-Effect id payload s es (validate_create u payload) refl

  delete_found-Effect :
      (s : endpoints.State) (es : events.State) (o : Option Endpoint)
      → StepsTo s es (delete_found u f endpoints s o).1 es
  unfolding delete_found
  delete_found-Effect s es none = unchanged refl refl
  delete_found-Effect s es (some e) =
      removed (λ d. d.id == e.id) (endpoints.documents-delete_one (λ d. d.id == e.id) s) refl

  pub delete_endpoint-Effect :
      (endpoint_id : Str) (s : endpoints.State) (es : events.State)
      → StepsTo s es (delete_endpoint u f endpoints endpoint_id s).1 es
  unfolding delete_endpoint
  delete_endpoint-Effect endpoint_id s es =
      delete_found-Effect s es (find_or_404 u f endpoints endpoint_id s)

  -- Where nothing is written.
  pub same_state :
      (s after : endpoints.State) (es es' : events.State)
      → ◌≡◌ {A = Option (endpoints.State × events.State)} (some (s, es)) (some (after, es'))
      → StepsTo s es after es'
  same_state s after es es' h =
      unchanged (sym (ap endpoints.documents (cc h))) (sym (ap events.documents (cc h)))

  find_or_404-found :
      (endpoint_id : Str) (s : endpoints.State) (e : Endpoint)
      → find_or_404 u f endpoints endpoint_id s ≡ some e
      → endpoints.find_one (λ d. d.id == e.id) s ≡ some e
  unfolding find_or_404
  find_or_404-found endpoint_id s e found = elim (Option-cases (f.object_id endpoint_id)) [
    | inl bad ↦ absurd (ground (arith, found, bad))
    | inr (id, parsed) ↦
        let here : endpoints.find_one (λ d. d.id == id) s ≡ some e =
          rw (parsed, find_or_404) at found in
        subst (λ k. endpoints.find_one (λ d. d.id == k) s ≡ some e)
          (sym (found_id endpoints id e s here)) here
  ]

  write_changed-Effect :
      (s after : endpoints.State) (es es' : events.State) (days : SentField ℕ) (e : Endpoint)
      (o : Option Endpoint)
      → endpoints.find_one (λ d. d.id == e.id) s ≡ some e
      → ((x : Endpoint)
          → o ≡ some x
          → (x.id ≡ e.id)
            × (x.retention_days ≡ kept_or_null e.retention_days days)
            × (IsConfigured e → IsConfigured x))
      → (write_changed u f endpoints events config s es days e o).1 ≡ some (after, es')
      → StepsTo s es after es'
  unfolding write_changed
  write_changed-Effect s after es es' days e none found fine made = absurd (ground (arith, made))
  write_changed-Effect s after es es' days e (some x) found fine made =
      elim (Option-cases (endpoints.update_one (λ d. d.id == e.id) (λ d. x) s)) [
        | inl taken ↦ same_state s after es es' (ground (arith, made, taken))
        | inr (now, done) ↦
            let (id, kept, configured) = fine x refl in
            let here : now ≡ after = ground (arith, made, done) in
            let there : reapply_if u f endpoints events config days x es ≡ es' =
              ground (arith, made, done) in
            subst (λ t. StepsTo s es t es') here
              (subst (λ t. StepsTo s es now t) there
                (replaced e x (written endpoints e.id e x s now found done) id configured
                  (reapply_if_lem days e x es kept)))
      ]

  write_prepared-Effect :
      (s after : endpoints.State) (es es' : events.State) (e : Endpoint) (payload : EndpointUpdate)
      (p : Prepared)
      → update_endpoint u (some e) payload ≡ p
      → endpoints.find_one (λ d. d.id == e.id) s ≡ some e
      → (write_prepared u f endpoints events config s es e p).1 ≡ some (after, es')
      → StepsTo s es after es'
  unfolding write_prepared
  write_prepared-Effect s after es es' e payload (rejected status) is found made =
      same_state s after es es' made
  write_prepared-Effect s after es es' e payload raised is found made =
      same_state s after es es' made
  write_prepared-Effect s after es es' e payload (ready c) is found made =
      write_changed-Effect s after es es' c.retention_days e (apply_changes e c) found
        (λ x applied.
          let (id, days, _) = apply_changes_fields e x c applied in
          (id, days, λ h. update_endpoint-IsConfigured u e x payload c h is applied))
        made

  unfound-Effect :
      (s after : endpoints.State) (es es' : events.State) (p : Prepared)
      → (unfound u f endpoints events config s es p).1 ≡ some (after, es')
      → StepsTo s es after es'
  unfolding unfound
  unfound-Effect s after es es' (rejected status) made = same_state s after es es' made
  unfound-Effect s after es es' raised made = same_state s after es es' made
  unfound-Effect s after es es' (ready c) made = same_state s after es es' made

  change_found-Effect :
      (payload : EndpointUpdate) (s after : endpoints.State) (es es' : events.State)
      (o : Option Endpoint)
      → ((e : Endpoint) → o ≡ some e → endpoints.find_one (λ d. d.id == e.id) s ≡ some e)
      → (change_found u f endpoints events config payload s es o).1 ≡ some (after, es')
      → StepsTo s es after es'
  unfolding change_found
  change_found-Effect payload s after es es' none found made =
      unfound-Effect s after es es' (update_endpoint u none payload) made
  change_found-Effect payload s after es es' (some e) found made =
      write_prepared-Effect s after es es' e payload (update_endpoint u (some e) payload) refl
        (found e refl) made

  pub change_endpoint-Effect :
      (endpoint_id : Str) (payload : EndpointUpdate) (s after : endpoints.State)
      (es es' : events.State)
      → (change_endpoint u f endpoints events config endpoint_id payload s es).1 ≡ some (after, es')
      → StepsTo s es after es'
  unfolding change_endpoint
  change_endpoint-Effect endpoint_id payload s after es es' made =
      change_found-Effect payload s after es es' (find_or_404 u f endpoints endpoint_id s)
        (find_or_404-found endpoint_id s) made
