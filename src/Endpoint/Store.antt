-- ===== src/Endpoint/Store.antt =====
-- The handlers of app/api/endpoints.py that change the collection of endpoints, and with it the
-- expiry of the stored events.
pub mod Steps
use webhook_inbox.Prelude.{ℕ, Bool, List, [], ◌∷◌, Option, none, some, if◌then◌else◌, ◌==◌}
use webhook_inbox.Prelude.Text.{Str, Unicode, str_eq}
use webhook_inbox.Mongo.Indexed.{Indexed}
use webhook_inbox.Search.Query.{Formats}
use webhook_inbox.Endpoint.{Endpoint, same_path}
use webhook_inbox.Endpoint.Validation.{EndpointCreate, validate_create, to_document}
use webhook_inbox.Endpoint.Update.{
  SentField, unset, nulled, given, EndpointUpdate, Prepared, rejected, raised, ready,
  update_endpoint, apply_changes,
}
use webhook_inbox.Event.{Event, event_id_of}
use webhook_inbox.Mongo.{Collection}
use webhook_inbox.Retention.{RetentionConfig, reapply}

-- The status of the answer; `none` is an exception.
abbrev pub EndpointReply : Type 0
EndpointReply = Option ℕ

module _ (u : Unicode) (f : Formats) (endpoints : Indexed Endpoint same_path) where
  unfoldable pub find_or_404 : Str → endpoints.State → Option Endpoint
  find_or_404 endpoint_id s = elim (f.object_id endpoint_id) [
    | none ↦ none
    | some id ↦ endpoints.find_one (λ e. e.id == id) s
  ]

  unfoldable pub insert_valid :
      ℕ → endpoints.State → Option EndpointCreate → EndpointReply × endpoints.State
  insert_valid id s none = (some 422, s)
  insert_valid id s (some payload) = elim (endpoints.insert_one (to_document id payload) s) [
    | none ↦ (some 409, s)
    | some after ↦ (some 201, after)
  ]

  unfoldable pub create_endpoint :
      ℕ → EndpointCreate → endpoints.State → EndpointReply × endpoints.State
  unfolding insert_valid validate_create
  create_endpoint id payload s = insert_valid id s (validate_create u payload)

  delete_found : endpoints.State → Option Endpoint → EndpointReply × endpoints.State
  delete_found s none = (some 404, s)
  delete_found s (some e) = (some 204, endpoints.delete_one (λ d. d.id == e.id) s)

  unfoldable pub delete_endpoint : Str → endpoints.State → EndpointReply × endpoints.State
  unfolding delete_found find_or_404
  delete_endpoint endpoint_id s = delete_found s (find_or_404 endpoint_id s)

  module _ (events : Collection Event event_id_of) (config : RetentionConfig) where
    -- What the handler of a change leaves of both collections. There is no state where a null leaves
    -- a document that is no endpoint, which `EndpointOut` refuses.
    abbrev pub Changed : Type 0
    Changed = EndpointReply × Option (endpoints.State × events.State)

    -- if "retention_days" in changes: await reapply(db, updated, config)
    unfoldable pub reapply_if : SentField ℕ → Endpoint → events.State → events.State
    unfolding reapply
    reapply_if unset updated es = es
    reapply_if nulled updated es = reapply events updated config es
    reapply_if (given days) updated es = reapply events updated config es

    -- The write of the changes to the document that was found. A 200 says that they are written: what
    -- is answered then is EndpointOut.from_document of the document, which is `from_document` of
    -- Endpoint/View, and fails without `enabled` or `allowed_methods`.
    unfoldable pub write_changed :
        endpoints.State → events.State → SentField ℕ → Endpoint → Option Endpoint → Changed
    unfolding reapply_if
    write_changed s es days e none = (none, none)
    write_changed s es days e (some updated) =
        elim (endpoints.update_one (λ d. d.id == e.id) (λ d. updated) s) [
          | none ↦ (some 409, some (s, es))
          | some after ↦ (some 200, some (after, reapply_if days updated es))
        ]

    unfoldable pub write_prepared : endpoints.State → events.State → Endpoint → Prepared → Changed
    unfolding write_changed apply_changes
    write_prepared s es e (rejected status) = (some status, some (s, es))
    write_prepared s es e raised = (none, some (s, es))
    write_prepared s es e (ready changes) =
        write_changed s es changes.retention_days e (apply_changes e changes)

    -- Without a document there is no write.
    unfoldable pub unfound : endpoints.State → events.State → Prepared → Changed
    unfound s es (rejected status) = (some status, some (s, es))
    unfound s es raised = (none, some (s, es))
    unfound s es (ready changes) = (none, some (s, es))

    unfoldable pub change_found :
        EndpointUpdate → endpoints.State → events.State → Option Endpoint → Changed
    unfolding write_prepared unfound update_endpoint
    change_found payload s es none = unfound s es (update_endpoint u none payload)
    change_found payload s es (some e) = write_prepared s es e (update_endpoint u (some e) payload)

    unfoldable pub change_endpoint : Str → EndpointUpdate → endpoints.State → events.State → Changed
    unfolding change_found find_or_404
    change_endpoint endpoint_id payload s es = change_found payload s es (find_or_404 endpoint_id s)
