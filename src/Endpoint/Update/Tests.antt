-- ===== src/Endpoint/Update/Tests.antt =====
-- Changes of an endpoint.
use webhook_inbox.Prelude.{◌≡◌, refl, true, [], ◌∷◌, none, some}
use webhook_inbox.Prelude.Text.{codes, ascii_case, str_eq}
use webhook_inbox.Endpoint.{Endpoint}
use webhook_inbox.Endpoint.Update.{
  EndpointUpdate, unset, nulled, validate_update, merged_type, prepare_changes, ready,
  update_endpoint, apply_changes,
}

abbrev demo : Endpoint
demo = record {
  id = 1;
  name = codes "demo";
  path = codes "demo";
  enabled = some true;
  authentication = none;
  secret = none;
  allowed_methods = some (codes "POST" ∷ []);
  max_payload_size = none;
  retention_days = none;
}

abbrev nothing : EndpointUpdate
nothing = record {
  name = unset;
  path = unset;
  enabled = unset;
  authentication = unset;
  secret = unset;
  allowed = unset;
  max_payload_size = unset;
  retention_days = unset;
}

-- A null passes, and leaves a document that no reader takes.
null_name :
    update_endpoint ascii_case (some demo) (record nothing { name = nulled })
    ≡ ready (record nothing { name = nulled })
unfolding update_endpoint validate_update prepare_changes merged_type str_eq
null_name = refl

name_lost : apply_changes demo (record nothing { name = nulled }) ≡ none
unfolding apply_changes
name_lost = refl
