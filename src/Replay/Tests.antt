-- ===== src/Replay/Tests.antt =====
-- Deliveries of one event to hosts of a small net, and the theorems of the replay at them.
use webhook_inbox.Prelude.{
  ℕ, ◌+◌, ◌≤◌, ◌≡◌, refl, true, false, List, [], ◌∷◌, none, some, All, if◌then◌else◌, length, ◌==◌,
}
use webhook_inbox.Prelude.Text.{
  Str, codes, ascii_case, ascii_lower, str_eq, one_of, starts_with, remove_prefix,
}
use webhook_inbox.Prelude.Dict.{Dict, has_key, lookup, insert, merge}
use webhook_inbox.Mongo.{Collection}
use webhook_inbox.Mongo.Lists.{in_memory}
use webhook_inbox.Event.{Event, event_id_of}
use webhook_inbox.Search.Samples.{formats, ping, ticks}
use webhook_inbox.Replay.Queue.{Replay, ReplayCreate, id_of}
use webhook_inbox.Replay.Creation.{create_replay, replay_submit}
use webhook_inbox.Replay.Creation.Queued.{
  IsHandled, create_replay-IsHandled, replay_submit-create_replay,
}
use webhook_inbox.Replay.Headers.{hop_by_hop_headers, is_forwarded, forwardable, merge_headers}
use webhook_inbox.Replay.Headers.Forwarding.{IsReceived, merge_headers_blocked}
use webhook_inbox.Replay.Address.{Ip, v4, v6, quad, is_blocked}
use webhook_inbox.Replay.Destination.{
  Lookup, resolved_to, unknown_host, Network, ReplayConfig, resolves_to_blocked, Destination,
  validate, validate_url, resolve, choose, check_all,
}
use webhook_inbox.Replay.Runner.{
  Reply, response, timeout, Sent, rejected, send, Attempt, read_chunks, execute, timed_out_after,
}
use webhook_inbox.Replay.Runner.Hops.{IsGuarded, send-IsGuarded}

replaying : Unit {0}
unfolding lookup has_key insert merge str_eq one_of starts_with forwardable merge_headers
    is_forwarded ascii_lower is_blocked validate validate_url resolve choose check_all send
    read_chunks execute remove_prefix
replaying = tt

-- A URL of the net: a scheme and a host.
record Link : Type 0 where
  scheme : Str
  host : Str

-- A host answers with another address from the second moment on.
abbrev shop : Str
shop = codes "shop.test"

abbrev addresses : ℕ → Str → Lookup
addresses moment name =
    if str_eq name shop
    then resolved_to ((if moment == 0 then v4 (quad 203 1 113 7) else v4 (quad 127 0 0 1)) ∷ [])
    else unknown_host

abbrev ip_number : Ip → Str
ip_number (v4 n) = n ∷ []
ip_number (v6 n) = n ∷ []

abbrev net : Network
net = record {
  Url = Link;
  parse =
      λ text. some (record { scheme = codes "http"; host = remove_prefix text (codes "http://") });
  scheme = λ url. url.scheme;
  host = λ url. url.host;
  userinfo = λ url. [];
  port = λ url. none;
  copy_with_host = λ url host. record { scheme = url.scheme; host = host };
  join = λ url location. some location;
  ip_text = ip_number;
  port_text = λ n. n ∷ [];
  getaddrinfo = λ moment name number. addresses moment name;
  host-copy_with_host = λ url ip. refl;
}

abbrev config : ReplayConfig
config = record {
  enabled = true;
  timeout = 10;
  max_retries = 3;
  retry_delay_seconds = 5;
  allow_private_networks = false;
  allow_redirects = true;
  max_redirects = 2;
  max_response_size = 4;
  lease_timeout = 60;
}

abbrev shop_url : Str
shop_url = codes "http://shop.test"

-- The server sends the client back to itself.
abbrev peer : ℕ → Sent net → Reply
peer moment sent =
    response
      (record { status_code = 302; headers = (codes "location", shop_url) ∷ []; chunks = [] })

abbrev decode_replace : List ℕ → Str
decode_replace raw = raw

abbrev post : Str
post = codes "POST"

-- The second hop meets the other address, and is refused.
rebound :
    (send net peer decode_replace config shop_url post [] (1 ∷ [])).0
    ≡ rejected (resolves_to_blocked shop (v4 (quad 127 0 0 1)))
unfolding replaying
rebound = refl

one_contact : length (send net peer decode_replace config shop_url post [] (1 ∷ [])).1 ≡ 1
unfolding replaying
one_contact = refl

send-IsGuarded_example :
    All
      (IsGuarded net peer decode_replace config)
      (send net peer decode_replace config shop_url post [] (1 ∷ [])).1
    × (length (send net peer decode_replace config shop_url post [] (1 ∷ [])).1 ≤ 2 + 1)
send-IsGuarded_example = send-IsGuarded net peer decode_replace config shop_url post [] (1 ∷ [])

abbrev shop_now : Destination net
shop_now = record {
  url = record { scheme = codes "http"; host = shop };
  ip = v4 (quad 203 1 113 7);
}

-- A server that answers late.
abbrev late : ℕ → Sent net → Reply
late moment sent = timeout

abbrev lost : Attempt
lost = record {
  status_code = none;
  headers = [];
  body = [];
  truncated = false;
  duration_ms = 10_000;
  error = some (timed_out_after 10);
  retryable = true;
}

abbrev chunks : List (List ℕ)
chunks = (1 ∷ 2 ∷ 3 ∷ []) ∷ (4 ∷ 5 ∷ []) ∷ []

abbrev stored : Dict Str
stored =
    (codes "cookie", codes "a=b")
    ∷ (codes "x-webhook-secret", codes "s3cret")
    ∷ (codes "accept-language", codes "fr")
    ∷ []

received : IsReceived ascii_case stored
unfolding replaying
received = record { lowered = (refl, (refl, (refl, tt))); distinct = (refl, (refl, (refl, tt))) }

merge_headers_blocked_example :
    lookup (codes "cookie") (merge_headers ascii_case stored ((codes "Cookie", codes "mine") ∷ []))
    ≡ (if one_of (codes "cookie") hop_by_hop_headers
        then none
        else lookup
            (codes "cookie")
            (merge_headers ascii_case [] ((codes "Cookie", codes "mine") ∷ [])))
unfolding replaying
merge_headers_blocked_example =
    merge_headers_blocked ascii_case (codes "cookie") stored ((codes "Cookie", codes "mine") ∷ [])
      refl

typed_cookie :
    lookup (codes "cookie") (merge_headers ascii_case stored ((codes "Cookie", codes "mine") ∷ []))
    ≡ some (codes "mine")
unfolding replaying
typed_cookie = refl

abbrev events : Collection Event event_id_of
events = in_memory Event event_id_of

abbrev replays : Collection Replay id_of
replays = in_memory Replay id_of

abbrev to_shop : ReplayCreate
to_shop = record { destination = shop_url; method = codes " post"; headers = [] }

create_replay-IsHandled_example :
    IsHandled net ascii_case formats events replays config
      (ping 7 ∷ [])
      0
      100
      1
      (ticks 7)
      to_shop
      []
      (create_replay net ascii_case formats events replays config
        (ping 7 ∷ [])
        0
        100
        1
        (ticks 7)
        to_shop
        []).0
      (create_replay net ascii_case formats events replays config
        (ping 7 ∷ [])
        0
        100
        1
        (ticks 7)
        to_shop
        []).1
create_replay-IsHandled_example =
    create_replay-IsHandled net ascii_case formats events replays config (ping 7 ∷ []) 0 100 1
      (ticks 7) to_shop []

replay_submit-create_replay_example :
    (replay_submit net ascii_case formats events replays config
      (ping 7 ∷ [])
      0
      100
      1
      (ticks 7)
      shop_url
      (codes "post")
      []).1
    ≡ (create_replay net ascii_case formats events replays config
        (ping 7 ∷ [])
        0
        100
        1
        (ticks 7)
        (record { destination = shop_url; method = codes "post"; headers = [] })
        []).1
replay_submit-create_replay_example =
    replay_submit-create_replay net ascii_case formats events replays config (ping 7 ∷ []) 0 100 1
      (ticks 7) shop_url (codes "post") []
