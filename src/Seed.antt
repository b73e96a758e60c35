-- ===== src/Seed.antt =====
-- app/seed.py: the demo data. Every event is sent to the service and backdated then.
pub mod Sending
pub mod Signed
pub mod Backdated
mod Tests
use webhook_inbox.Prelude.{
  ℕ, ◌+◌, ◌-◌, ◌*◌, ◌≡◌, Bool, true, false, List, [], ◌∷◌, ◌++◌, Option, none, some, ◌==◌, is_empty,
  if◌then◌else◌,
}
use webhook_inbox.Prelude.Text.{Str, Unicode, codes, str_eq}
use webhook_inbox.Prelude.Dict.{Dict, lookup, merge}
use webhook_inbox.Mongo.{Collection}
use webhook_inbox.Mongo.Indexed.{Indexed}
use webhook_inbox.Event.{Codec, Event, event_id_of}
use webhook_inbox.Endpoint.{Endpoint, Authentication, same_path}
use webhook_inbox.Ingest.Body.{Parsers}
use webhook_inbox.Ingest.Signature.{Hmac}
use webhook_inbox.Ingest.Incoming.{Settings, Incoming, Answer, reject, accepted, failed}
use webhook_inbox.Ingest.Receiver.{Inbox, receive}

abbrev pub github_secret : Str
github_secret = codes "github-demo-secret"

abbrev pub stripe_secret : Str
stripe_secret = codes "stripe-demo-secret"

-- ENDPOINTS, with the id of the document that is written; the note is left out as in the code.
abbrev pub github : ℕ → Endpoint
github id = record {
  id = id;
  name = codes "github";
  path = codes "github";
  enabled = some true;
  authentication = some (record {
    type_text = some (codes "hmac_sha256");
    header = some (codes "x-hub-signature-256");
    signature_prefix = some (codes "sha256=");
  });
  secret = some github_secret;
  allowed_methods = some (codes "POST" ∷ []);
  max_payload_size = none;
  retention_days = none;
}

abbrev pub stripe : ℕ → Endpoint
stripe id = record {
  id = id;
  name = codes "stripe";
  path = codes "stripe";
  enabled = some true;
  authentication = some (record {
    type_text = some (codes "hmac_sha256");
    header = some (codes "stripe-signature");
    signature_prefix = some [];
  });
  secret = some stripe_secret;
  allowed_methods = some (codes "POST" ∷ []);
  max_payload_size = none;
  retention_days = some 90;
}

abbrev pub custom : ℕ → Endpoint
custom id = record {
  id = id;
  name = codes "custom";
  path = codes "custom";
  enabled = some true;
  authentication = some (record {
    type_text = some (codes "none");
    header = none;
    signature_prefix = some (codes "sha256=");
  });
  secret = none;
  allowed_methods =
      some (codes "GET" ∷ codes "POST" ∷ codes "PUT" ∷ codes "PATCH" ∷ codes "DELETE" ∷ []);
  max_payload_size = none;
  retention_days = some 7;
}

abbrev pub demo_endpoints : List (ℕ → Endpoint)
demo_endpoints = github ∷ stripe ∷ custom ∷ []

-- An entry of TIMELINE.
pub record Entry : Type 0 where
  pub endpoint : Str
  pub name : Str
  pub minutes : ℕ
  pub query : Str

abbrev entry : Str → Str → ℕ → Str → Entry
entry endpoint name minutes query = record {
  endpoint = endpoint;
  name = name;
  minutes = minutes;
  query = query;
}

abbrev pub timeline : List Entry
timeline =
    entry (codes "custom") (codes "user.created") 5760 []
    ∷ entry (codes "stripe") (codes "checkout.session.completed") 5700 (codes "attempt=1")
    ∷ entry (codes "github") (codes "push") 5580 []
    ∷ entry (codes "custom") (codes "chekout") 4320 []
    ∷ entry (codes "custom") (codes "checkout_session") 4310 []
    ∷ entry (codes "stripe") (codes "payment_intent.succeeded") 4200 []
    ∷ entry (codes "github") (codes "pull_request") 2880 []
    ∷ entry (codes "custom") (codes "checkout") 2820 []
    ∷ entry (codes "stripe") (codes "checkout.session.expired") 1440 (codes "attempt=2")
    ∷ entry (codes "custom") (codes "order.updated") 1380 (codes "source=admin")
    ∷ entry (codes "github") (codes "issues") 720 []
    ∷ entry (codes "stripe") (codes "invoice.payment_failed") 240 (codes "attempt=3")
    ∷ entry (codes "custom") (codes "user.created") 90 []
    ∷ entry (codes "stripe") (codes "checkout.session.completed") 30 (codes "attempt=1")
    ∷ []

abbrev pub secrets : Dict Str
secrets = (codes "github", github_secret) ∷ (codes "stripe", stripe_secret) ∷ []

abbrev pub signature_header : Dict Str
signature_header =
    (codes "github", codes "x-hub-signature-256") ∷ (codes "stripe", codes "stripe-signature") ∷ []

abbrev pub signature_prefix : Dict Str
signature_prefix = (codes "github", codes "sha256=") ∷ (codes "stripe", []) ∷ []

-- The header with the digest: `none` is a KeyError.
signed : Option Str → Option Str → Str → Option (Dict Str)
signed (some header) (some prefix) digest = some ((header, prefix ++ digest) ∷ [])
signed _ _ digest = none

signed_by : Codec → Hmac → Str → List ℕ → Option Str → Option (Dict Str)
unfolding signed lookup
signed_by codec hmac endpoint body none = some []
signed_by codec hmac endpoint body (some secret) =
    if is_empty secret
    then some []
    else signed (lookup endpoint signature_header) (lookup endpoint signature_prefix)
        (hmac.hexdigest (codec.encode secret) body)

unfoldable pub sign : Codec → Hmac → Str → List ℕ → Option (Dict Str)
unfolding signed_by lookup
sign codec hmac endpoint body = signed_by codec hmac endpoint body (lookup endpoint secrets)

-- What `send` posts.
pub record Posted : Type 0 where
  pub url : Str
  pub headers : Dict Str
  pub body : List ℕ

-- text.capitalize(), of an ASCII text
abbrev pub capitalize : Unicode → Str → Str
capitalize u [] = []
capitalize u (c ∷ s) = u.upper (c ∷ []) ++ u.lower s

abbrev pub url_of : Entry → Str
url_of e =
    codes "/webhooks/" ++ e.endpoint ++ (if is_empty e.query then [] else codes "?" ++ e.query)

abbrev pub base_headers : Unicode → Entry → Dict Str
base_headers u e =
    (codes "content-type", codes "application/json")
    ∷ (codes "user-agent", capitalize u e.endpoint ++ codes "-Hookshot/1.0")
    ∷ (codes "x-webhook-event", e.name)
    ∷ []

-- The request of an entry; `compact` gives the JSON of its file without white space.
unfoldable pub posted : Unicode → Codec → Hmac → (Entry → List ℕ) → Entry → Option Posted
unfolding sign merge
posted u codec hmac compact e = elim (sign codec hmac e.endpoint (compact e)) [
  | none ↦ none
  | some signature ↦
      some
        (record { url = url_of e; headers = merge (base_headers u e) signature; body = compact e })
]

-- timedelta(minutes=n)
abbrev pub minutes_long : ℕ → ℕ
minutes_long n = n * 60_000_000

-- The changes of `backdate` on one document: the expiry keeps its distance from the arrival.
unfoldable pub backdated : ℕ → Event → Event
backdated received v = record v {
  received_at = received;
  expires_at = elim v.expires_at [
    | none ↦ none
    | some expires ↦ some (received + expires - v.received_at)
  ];
}

module _ (endpoints : Indexed Endpoint same_path) where
  -- One round of ensure_endpoints: `none` is a DuplicateKeyError.
  ensure_endpoint : ℕ → (ℕ → Endpoint) → endpoints.State → Option endpoints.State
  unfolding str_eq
  ensure_endpoint id document =
      endpoints.upsert_one (λ e. str_eq e.path (document id).path) (λ e. document e.id)
        (document id)

  -- The loop, with the ids for those that are missing.
  ensure_all : List (ℕ → Endpoint) → ℕ → endpoints.State → Option endpoints.State
  unfolding ensure_endpoint
  ensure_all [] id s = some s
  ensure_all (document ∷ documents) id s = elim (ensure_endpoint id document s) [
    | none ↦ none
    | some after ↦ ensure_all documents (id + 1) after
  ]

  unfoldable pub ensure_endpoints : ℕ → endpoints.State → Option endpoints.State
  unfolding ensure_all
  ensure_endpoints id s = ensure_all demo_endpoints id s

module _ (events : Collection Event event_id_of) where
  backdate_found : ℕ → ℕ → events.State → Option Event → events.State
  unfolding backdated
  backdate_found id received es none = es
  backdate_found id received es (some v) =
      events.update_one id
        (λ w. record w {
          received_at = received;
          expires_at = elim v.expires_at [
            | none ↦ w.expires_at
            | some expires ↦ some (received + expires - v.received_at)
          ];
        })
        es

  unfoldable pub backdate : ℕ → ℕ → ℕ → events.State → events.State
  unfolding backdate_found
  backdate now id minutes es =
      backdate_found id (now - minutes_long minutes) es (events.find_one (λ v. v.id == id) es)
