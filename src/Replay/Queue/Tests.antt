-- ===== src/Replay/Queue/Tests.antt =====
-- A queue in memory, a worker's rounds on it, and the theorems of the queue at them.
use webhook_inbox.Prelude.{ℕ, ◌≡◌, ◌≢◌, refl, true, false, List, [], ◌∷◌, none, some, arith, inr}
use webhook_inbox.Prelude.Text.{Str, codes, ascii_case, str_eq}
use webhook_inbox.Prelude.Dict.{Dict}
use webhook_inbox.Json.{null}
use webhook_inbox.Mongo.{Collection}
use webhook_inbox.Mongo.Lists.{in_memory, find_first, update_least, least_place}
use webhook_inbox.Event.{Event, Codec}
use webhook_inbox.Replay.Destination.{ReplayConfig}
use webhook_inbox.Replay.Runner.{succeeded, failed_attempt, timed_out_after}
use webhook_inbox.Replay.Queue.{
  running, ReplayCreate, Replay, id_of, queued, lease_expired, is_due, leased, finished_as, enqueue,
  release_expired, claim, finish, Delivery, run_once,
}
use webhook_inbox.Replay.Queue.Settled.{IsCalm, total_left}
use webhook_inbox.Replay.Queue.Worker.{Round, run_once-Round}
use webhook_inbox.Replay.Queue.Forever.{
  Enqueue, Turn, enqueue_all, AreFresh, IsQuiet, run_forever, IsUsedUp, run_forever-IsUsedUp,
}

working : Unit {0}
unfolding queued lease_expired is_due leased finished_as enqueue release_expired claim finish
    run_once find_first update_least least_place succeeded str_eq
working = tt

abbrev store : Collection Replay id_of
store = in_memory Replay id_of

-- One retry.
abbrev config : ReplayConfig
config = record {
  enabled = true;
  timeout = 10;
  max_retries = 1;
  retry_delay_seconds = 5;
  allow_private_networks = false;
  allow_redirects = false;
  max_redirects = 3;
  max_response_size = 1000;
  lease_timeout = 60;
}

abbrev to_shop : ReplayCreate
to_shop = record { destination = codes "http://shop.test"; method = codes "POST"; headers = [] }

abbrev first_job : Replay
first_job = queued config 100 1 7 to_shop

abbrev jobs : List Replay
jobs = first_job ∷ []

-- An event of which only the id matters.
abbrev ping : Event
ping = record {
  id = 7;
  endpoint_id = 1;
  endpoint_name = codes "demo";
  received_at = 0;
  event_type = none;
  request = record {
    method = codes "POST";
    headers = [];
    query = [];
    body = null;
    raw_body = [];
    raw_encoding = codes "utf-8";
    content_type = [];
    body_size = 0;
  };
  search = record { tokens = []; trigrams = [] };
  status = codes "accepted";
  response_status = 200;
  source_ip = none;
  user_agent = none;
  expires_at = none;
}

same_text : (raw text : List ℕ) → some raw ≡ some text → text ≡ raw
same_text raw text h = ground arith

-- Text and bytes with the same numbers.
abbrev plain_codec : Codec
plain_codec = record {
  decode = λ raw. some raw;
  encode = λ text. text;
  b64encode = λ raw. raw;
  b64decode = λ text. text;
  encode-decode = λ raw text h. same_text raw text h;
  b64decode-b64encode = λ raw. refl;
}

-- Every delivery times out.
abbrev late : Delivery store config
late = record {
  event = λ id. some ping;
  execute = λ url method headers body. some (failed_attempt (timed_out_after 10) true 10_000);
  finished_at = 200;
}

never_none :
    (url method : Str) (headers : Dict Str) (body : List ℕ)
    → late.execute url method headers body ≢ none
never_none url method headers body e = ground arith

jobs-IsCalm : IsCalm jobs
unfolding working
jobs-IsCalm = record {
  settled = (record { idle = refl; bounded = omega arith; room = inr (omega arith) }, tt);
  distinct = (tt, tt);
}

-- Two rounds use both attempts, the second only after the delay has passed.
used_up :
    total_left
      (run_once store config ascii_case plain_codec 5_000_200 late
        (run_once store config ascii_case plain_codec 100 late jobs).1).1
    ≡ 0
unfolding working
used_up = refl

too_early :
    (run_once store config ascii_case plain_codec 5_000_199 late
      (run_once store config ascii_case plain_codec 100 late jobs).1).0
    ≡ some false
unfolding working
too_early = refl

run_once-Round_example :
    Round store config 100 jobs
      (run_once store config ascii_case plain_codec 100 late jobs).0
      (run_once store config ascii_case plain_codec 100 late jobs).1
run_once-Round_example =
    run_once-Round store config ascii_case plain_codec 100 late jobs never_none jobs-IsCalm

-- A second job, which is queued after the first pass.
abbrev extra : Enqueue store config
extra = record {
  at = 300;
  id = 77;
  event_id = 1;
  payload = record { destination = []; method = codes "POST"; headers = [] };
}

-- Four passes, for two attempts at each job.
abbrev turns : List (Turn store config)
turns =
    record { queued_before = []; now = 100; delivery = late }
    ∷ record { queued_before = extra ∷ []; now = 5_000_199; delivery = late }
    ∷ record { queued_before = []; now = 5_000_200; delivery = late }
    ∷ record { queued_before = []; now = 50_000_200; delivery = late }
    ∷ record { queued_before = []; now = 50_000_201; delivery = late }
    ∷ []

passes :
    (run_forever store config ascii_case plain_codec turns jobs).0
    ≡ true ∷ true ∷ true ∷ true ∷ false ∷ []
unfolding working run_forever enqueue_all
passes = refl

turns-IsQuiet : IsQuiet store config ascii_case plain_codec turns jobs
unfolding working run_forever enqueue_all AreFresh IsQuiet
turns-IsQuiet = (
  tt,
  never_none,
  (((refl, tt), tt), never_none, (tt, never_none, (tt, never_none, (tt, never_none, tt)))),
)

run_forever-IsUsedUp_example :
    IsUsedUp store config jobs 1
      (run_forever store config ascii_case plain_codec turns jobs).0
      (run_forever store config ascii_case plain_codec turns jobs).1
run_forever-IsUsedUp_example =
    run_forever-IsUsedUp store config ascii_case plain_codec turns jobs turns-IsQuiet jobs-IsCalm

-- A job that another worker holds.
abbrev held : Replay
held = record first_job { state = running; attempt = 2; leased_at = some 100 }

held_stays : (claim store config 60_000_100 (held ∷ [])).1 ≡ held ∷ []
unfolding working
held_stays = refl
