-- ===== src/Endpoint/View/Tests.antt =====
-- An endpoint with a secret, as the API shows it.
use webhook_inbox.Prelude.{◌≡◌, refl, true, [], ◌∷◌, none, some}
use webhook_inbox.Prelude.Text.{codes, ascii_case}
use webhook_inbox.Endpoint.{static_secret, Endpoint}
use webhook_inbox.Endpoint.Validation.{EndpointCreate}
use webhook_inbox.Endpoint.View.{from_document}
use webhook_inbox.Endpoint.View.Secrecy.{from_document-secret}

abbrev created : EndpointCreate
created = record {
  name = codes "GitHub";
  path = codes "github";
  enabled = true;
  authentication = record {
    kind = static_secret;
    header = none;
    signature_prefix = codes "sha256=";
  };
  secret = some (codes "key");
  allowed = codes "POST" ∷ [];
  max_payload_size = none;
  retention_days = none;
}

abbrev stored : Endpoint
stored = record {
  id = 1;
  name = codes "GitHub";
  path = codes "github";
  enabled = some true;
  authentication = none;
  secret = none;
  allowed_methods = some (codes "POST" ∷ []);
  max_payload_size = none;
  retention_days = none;
}

from_document-secret_example :
    from_document ascii_case (record stored { secret = some (codes "key") })
    ≡ from_document ascii_case (record stored { secret = some (codes "lock") })
from_document-secret_example =
    from_document-secret ascii_case stored (codes "key") (codes "lock") refl refl
