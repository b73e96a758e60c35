-- ===== src/Retention/Tests.antt =====
-- A stored event whose endpoint changes its retention.
use webhook_inbox.Prelude.{◌≡◌, refl, true, [], none, some}
use webhook_inbox.Prelude.Text.{codes}
use webhook_inbox.Json.{null}
use webhook_inbox.Mongo.{Collection}
use webhook_inbox.Mongo.Lists.{in_memory}
use webhook_inbox.Event.{Event, event_id_of}
use webhook_inbox.Endpoint.{Endpoint}
use webhook_inbox.Retention.{RetentionConfig, expires_at}

abbrev store : Collection Event event_id_of
store = in_memory Event event_id_of

abbrev demo : Endpoint
demo = record {
  id = 1;
  name = codes "demo";
  path = codes "demo";
  enabled = none;
  authentication = none;
  secret = none;
  allowed_methods = none;
  max_payload_size = none;
  retention_days = none;
}

abbrev ping : Event
ping = record {
  id = 7;
  endpoint_id = 1;
  endpoint_name = codes "demo";
  received_at = 1_000;
  event_type = none;
  request = record {
    method = codes "POST";
    headers = [];
    query = [];
    body = null;
    raw_body = [];
    raw_encoding = codes "utf-8";
    content_type = [];
    body_size = 0;
  };
  search = record { tokens = []; trigrams = [] };
  status = codes "received";
  response_status = 202;
  source_ip = none;
  user_agent = none;
  expires_at = none;
}

abbrev two_days : RetentionConfig
two_days = record { enabled = true; default_days = 2 }

two_days_on : expires_at demo two_days 1_000 ≡ some 172_800_001_000
unfolding expires_at
two_days_on = refl
