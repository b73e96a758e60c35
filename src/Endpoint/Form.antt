-- ===== src/Endpoint/Form.antt =====
-- The forms of the endpoint pages in app/web/routes.py: _parse_endpoint_form, endpoint_create,
-- endpoint_save and endpoint_delete.
pub mod Steps
pub mod Same
pub mod Secret
use webhook_inbox.Prelude.{
  ℕ, Bool, true, List, [], ◌∷◌, Option, none, some, if◌then◌else◌, ◌==◌, is_empty,
}
use webhook_inbox.Prelude.Text.{Str, Unicode, codes, strip, split_on}
use webhook_inbox.Mongo.{Collection}
use webhook_inbox.Mongo.Indexed.{Indexed}
use webhook_inbox.Search.Query.{Formats}
use webhook_inbox.Event.{Event, event_id_of}
use webhook_inbox.Retention.{RetentionConfig}
use webhook_inbox.Endpoint.{AuthType, auth_type_of, Endpoint, same_path}
use webhook_inbox.Endpoint.Validation.{AuthConfig, EndpointCreate, validate_create, to_document}
use webhook_inbox.Endpoint.Update.{
  SentField, unset, nulled, given, EndpointUpdate, Prepared, rejected, raised, ready,
  update_endpoint, apply_changes,
}
use webhook_inbox.Endpoint.Store.{EndpointReply, Changed, reapply_if}

-- str.isdigit, and int of a text: `none` is a ValueError.
pub record Numerals : Type 0 where
  pub is_digit : Str → Bool
  pub int : Str → Option ℕ

-- The texts of the form, and its check box.
pub record EndpointForm : Type 0 where
  pub name : Str
  pub path : Str
  pub auth_type : Str
  pub secret : Str
  pub allowed_methods : Str
  pub max_payload_size : Str
  pub retention_days : Str
  pub enabled : Bool

-- What _parse_endpoint_form makes of it: the fields, or one of two exceptions.
pub data Parsed : Type 0 where
  fields : EndpointCreate → Parsed
  validation_error value_error : Parsed

-- int(text) if text.strip().isdigit() else None
unfoldable pub number_of : Numerals → Str → Option (Option ℕ)
unfolding strip
number_of n text =
    if n.is_digit (strip text)
    then (elim (n.int text) [ none ↦ none | some number ↦ some (some number) ])
    else some none

-- [m.strip() for m in texts if m.strip()]
filled_methods : List Str → List Str
unfolding strip
filled_methods [] = []
filled_methods (m ∷ ms) =
    if is_empty (strip m) then filled_methods ms else strip m ∷ filled_methods ms

-- secret or None
abbrev secret_of : Str → Option Str
secret_of secret = if is_empty secret then none else some secret

-- AuthConfig(type=…): the default header is filled in where the model around it is validated.
abbrev config_of : AuthType → AuthConfig
config_of kind = record { kind = kind; header = none; signature_prefix = codes "sha256=" }

fields_of : EndpointForm → Option AuthType → Option (Option ℕ) → Option (Option ℕ) → Parsed
unfolding filled_methods strip split_on
fields_of form none size days = validation_error
fields_of form (some kind) (some size) (some days) = fields (record {
  name = strip form.name;
  path = strip form.path;
  enabled = form.enabled;
  authentication = config_of kind;
  secret = secret_of form.secret;
  allowed = filled_methods (split_on b',' form.allowed_methods);
  max_payload_size = size;
  retention_days = days;
})
fields_of form (some kind) _ _ = value_error

unfoldable pub parse_endpoint_form : Numerals → EndpointForm → Parsed
unfolding fields_of number_of auth_type_of
parse_endpoint_form n form =
    fields_of form (auth_type_of form.auth_type) (number_of n form.max_payload_size)
      (number_of n form.retention_days)

-- The three fields that the form of a new endpoint leaves at their defaults.
abbrev pub new_form : EndpointForm → EndpointForm
new_form form = record form { max_payload_size = []; retention_days = []; enabled = true }

abbrev sent_or_null {ℓ} : {A : Type ℓ} → Option A → SentField A
sent_or_null none = nulled
sent_or_null (some a) = given a

-- A blank secret field means "keep the stored one".
abbrev sent_if_any {ℓ} : {A : Type ℓ} → Option A → SentField A
sent_if_any none = unset
sent_if_any (some a) = given a

-- EndpointUpdate(**fields)
unfoldable pub update_of : EndpointCreate → EndpointUpdate
update_of p = record {
  name = given p.name;
  path = given p.path;
  enabled = given p.enabled;
  authentication = given p.authentication;
  secret = sent_if_any p.secret;
  allowed = given p.allowed;
  max_payload_size = sent_or_null p.max_payload_size;
  retention_days = sent_or_null p.retention_days;
}

module _ (u : Unicode) (f : Formats) (n : Numerals) (endpoints : Indexed Endpoint same_path) where
  -- An error is shown on the page, which is a 200.
  insert_shown : ℕ → endpoints.State → Option EndpointCreate → EndpointReply × endpoints.State
  insert_shown id s none = (some 200, s)
  insert_shown id s (some payload) = elim (endpoints.insert_one (to_document id payload) s) [
    | none ↦ (some 200, s)
    | some after ↦ (some 204, after)
  ]

  create_parsed : ℕ → endpoints.State → Parsed → EndpointReply × endpoints.State
  unfolding insert_shown validate_create
  create_parsed id s (fields payload) = insert_shown id s (validate_create u payload)
  create_parsed id s validation_error = (some 200, s)
  create_parsed id s value_error = (none, s)

  unfoldable pub endpoint_create :
      ℕ → EndpointForm → endpoints.State → EndpointReply × endpoints.State
  unfolding create_parsed parse_endpoint_form
  endpoint_create id form s = create_parsed id s (parse_endpoint_form n (new_form form))

  unfoldable pub endpoint_delete : Str → endpoints.State → EndpointReply × endpoints.State
  endpoint_delete endpoint_id s = elim (f.object_id endpoint_id) [
    | none ↦ (some 404, s)
    | some id ↦ (some 204, endpoints.delete_one (λ d. d.id == id) s)
  ]

  module _ (events : Collection Event event_id_of) (config : RetentionConfig) where
    abbrev Saved : Type 0
    Saved = Changed u f endpoints events config

    write_saved : ℕ → endpoints.State → events.State → SentField ℕ → Option Endpoint → Saved
    unfolding reapply_if
    write_saved id s es days none = (none, none)
    write_saved id s es days (some merged) =
        elim (endpoints.update_one (λ d. d.id == id) (λ d. merged) s) [
          | none ↦ (some 200, some (s, es))
          | some after ↦
              (some 204, some (after, reapply_if u f endpoints events config days merged es))
        ]

    -- The checks of the changes are those of the API, but a refusal is shown on the page.
    save_prepared : ℕ → endpoints.State → events.State → Endpoint → Prepared → Saved
    unfolding write_saved apply_changes
    save_prepared id s es e (rejected status) = (some 200, some (s, es))
    save_prepared id s es e raised = (none, some (s, es))
    save_prepared id s es e (ready changes) =
        write_saved id s es changes.retention_days (apply_changes e changes)

    -- Neither exception of the parser is caught here.
    save_parsed : ℕ → endpoints.State → events.State → Endpoint → Parsed → Saved
    unfolding save_prepared update_of update_endpoint
    save_parsed id s es e (fields payload) =
        save_prepared id s es e (update_endpoint u (some e) (update_of payload))
    save_parsed id s es e _ = (none, some (s, es))

    save_found : ℕ → EndpointForm → endpoints.State → events.State → Option Endpoint → Saved
    unfolding save_parsed parse_endpoint_form
    save_found id form s es none = (some 404, some (s, es))
    save_found id form s es (some e) = save_parsed id s es e (parse_endpoint_form n form)

    unfoldable pub endpoint_save : Str → EndpointForm → endpoints.State → events.State → Saved
    unfolding save_found
    endpoint_save endpoint_id form s es = elim (f.object_id endpoint_id) [
      | none ↦ (some 404, some (s, es))
      | some id ↦ save_found id form s es (endpoints.find_one (λ d. d.id == id) s)
    ]
