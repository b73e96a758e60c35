-- ===== src/Seed/Tests.antt =====
-- The seed over an empty inbox, one request of it, and a backdated event.
use webhook_inbox.Prelude.{
  ℕ, ◌≡◌, refl, true, false, List, [], ◌∷◌, Option, none, some, inl, arith, map, if◌then◌else◌,
  ◌==◌, ◌-◌,
}
use webhook_inbox.Json.{null}
use webhook_inbox.Prelude.Text.{Str, codes, ascii_case, ascii_upper, ascii_lower, str_eq}
use webhook_inbox.Prelude.Dict.{lookup, merge}
use webhook_inbox.Mongo.{Collection}
use webhook_inbox.Mongo.Indexed.{
  Indexed, indexed_in_memory, upsert_unique, replace_unique, insert_unique, first_place,
}
use webhook_inbox.Mongo.Lists.{in_memory, find_first}
use webhook_inbox.Event.{Event, event_id_of}
use webhook_inbox.Endpoint.{Endpoint, same_path, auth_type_of}
use webhook_inbox.Retention.{retention_days, expires_at}
use webhook_inbox.RateLimit.{new}
use webhook_inbox.Endpoint.Effect.InStep.{InStep}
use webhook_inbox.Ingest.Signature.{compare, verify}
use webhook_inbox.Ingest.Incoming.{Settings, Incoming}
use webhook_inbox.Ingest.Samples.{plain_codec, no_parsers, hmac, settings, hi}
use webhook_inbox.Ingest.Receiver.{Inbox, document_of}
use webhook_inbox.Seed.{
  Entry, Posted, sign, posted, github, stripe, custom, backdate, minutes_long, ensure_endpoints,
  timeline,
}
use webhook_inbox.Seed.Sending.{RoundTime, seed}
use webhook_inbox.Seed.Signed.{posted-verify}
use webhook_inbox.Seed.Backdated.{backdate-InStep}

seeding : Unit {0}
unfolding sign posted lookup merge str_eq backdate find_first document_of ensure_endpoints
    upsert_unique replace_unique insert_unique first_place retention_days expires_at ascii_upper
    ascii_lower
seeding = tt

abbrev one_byte : Entry → List ℕ
one_byte e = 1 ∷ []

abbrev push : Entry
push = record { endpoint = codes "github"; name = codes "push"; minutes = 5580; query = [] }

abbrev pushed : Posted
pushed = record {
  url = codes "/webhooks/github";
  headers =
      (codes "content-type", codes "application/json")
      ∷ (codes "user-agent", codes "Github-Hookshot/1.0")
      ∷ (codes "x-webhook-event", codes "push")
      ∷ (
        codes "x-hub-signature-256",
        codes "sha256=1111111111111111111111111111111111111111111111111111111111111111",
      )
      ∷ [];
  body = 1 ∷ [];
}

posted-push : posted ascii_case plain_codec hmac one_byte push ≡ some pushed
unfolding seeding
posted-push = refl

abbrev endpoints : Indexed Endpoint same_path
endpoints = indexed_in_memory Endpoint same_path

-- The endpoints that are there keep their place and their id.
missing_added :
    ensure_endpoints endpoints 4 (github 1 ∷ custom 9 ∷ [])
    ≡ some (github 1 ∷ custom 9 ∷ stripe 5 ∷ [])
unfolding seeding
missing_added = refl

posted-verify_example :
    verify ascii_case plain_codec hmac (github 1) pushed.headers (1 ∷ []) ≡ some true
posted-verify_example =
    posted-verify ascii_case plain_codec hmac one_byte github 1 push pushed pushed.headers
      (inl refl) refl posted-push (λ k v here. here)

abbrev events : Collection Event event_id_of
events = in_memory Event event_id_of

abbrev keeping : Settings
keeping = record settings { retention = record { enabled = true; default_days = 30 } }

-- Two events that arrived in the third hour, at the endpoint that keeps them a week.
abbrev arrived : ℕ → Event
arrived id =
    document_of ascii_case plain_codec no_parsers hmac keeping id (minutes_long 180) hi (custom 3)
      (1 ∷ []) null

abbrev two : List Event
two = arrived 1 ∷ arrived 2 ∷ []

two-InStep : InStep keeping.retention (github 1 ∷ custom 3 ∷ []) two
unfolding seeding
two-InStep = (
  (λ hers. absurd (ground (arith, hers)), (λ hers. absurd (ground (arith, hers)), tt)),
  ((λ hers. refl, (λ hers. refl, tt)), tt),
)

backdate-InStep_example :
    InStep keeping.retention
      (github 1 ∷ custom 3 ∷ [])
      (backdate events (minutes_long 181) 2 30 two)
unfolding seeding
backdate-InStep_example =
    backdate-InStep events keeping.retention (github 1 ∷ custom 3 ∷ []) (minutes_long 181) 2 30 two
      ((refl, tt), (tt, tt)) two-InStep

-- What stands before the question mark.
path_of : Str → Str
path_of [] = []
path_of (c ∷ s) = if c == b'?' then [] else c ∷ path_of s

abbrev delivered : Posted → Incoming
delivered p = record hi { path = path_of p.url; headers = p.headers; chunks = p.body ∷ [] }

abbrev wide : Settings
wide = record keeping { limits = record settings.limits { max_header_count = 9 } }

abbrev times : ℕ → RoundTime
times i = record { clock = i; id = i; received_at = minutes_long 9000; now = minutes_long 9000 }

abbrev Seeded : Type 0
Seeded = ℕ × Inbox ascii_case plain_codec no_parsers hmac wide endpoints events

abbrev seed_empty : Option Seeded
seed_empty =
    seed ascii_case plain_codec no_parsers hmac wide endpoints events one_byte delivered times 1
      (record { limiter = new 1 false; endpoints_now = []; events_now = [] })

abbrev shifts : Option Seeded → ℕ × List ℕ
shifts none = (0, [])
shifts (some (n, inbox)) =
    (n, map (λ (v : Event). minutes_long 9000 - v.received_at) inbox.events_now)

-- All fourteen events are accepted, and arrive at their times.
seeded_arrivals : shifts seed_empty ≡ (14, map (λ e. minutes_long e.minutes) timeline)
unfolding seeding seed new path_of auth_type_of compare
seeded_arrivals = refl
