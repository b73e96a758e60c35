-- ===== src/Lib.antt =====
-- Webhook Inbox: a service that receives webhooks over HTTP, stores them in MongoDB, makes them
-- searchable and replays them to other destinations.
--
-- How the parts work together. A request to /webhooks/<path> passes the rate limiter, is parsed, and
-- becomes an event (app/ingest/receiver.py); with it are stored the terms under which it is found.
-- A user queues replays of an event (app/replay/store.py). A worker claims them one at a time
-- (app/replay/worker.py), merges the headers, delivers the bytes that arrived (app/replay/runner.py)
-- to a destination checked against internal networks (app/replay/ssrf.py), and writes the outcome.
-- Users sign in with a password (app/auth.py, app/api/auth.py) and reach the pages through the
-- middleware; they search the events page by page (app/search/query.py), look at bodies as HTML
-- (app/web/json_view.py) and export what they find (app/export.py).
--
-- Which file models which part:
--   Prelude            shared notation and lemmas; Prelude/Text: str as a list of code points, and
--                      its methods; Prelude/Dict: dict as a list of pairs in insertion order
--   Mongo              the driver's calls on a collection as an interface (Collection); Mongo/Lists is
--                      an implementation in memory
--   Json, Event        parsed bodies; the documents of the events collection; the codecs
--   RateLimit          app/ratelimit.py: RateLimiter.__init__ is new, _prune is prune, allow and
--                      retry_after keep their names; RateLimit/Client: client_key
--   Ingest/Keys        app/ingest/parser.py: _escape_key, escape_keys and their inverses; the
--                      recursion that both share is map_keys
--   Ingest/Depth       app/ingest/parser.py: nesting_depth, its loop's variables as the record Scan
--   Ingest/Body        app/ingest/parser.py: decode_raw, parse_body and extract_event_type
--   Ingest/Signature   app/ingest/signature.py: verify
--   Ingest/Incoming    app/ingest/receiver.py: the request, the shape checks and read_limited
--   Ingest/Receiver    app/ingest/receiver.py: receive, each early return as the answer of a check
--   Endpoint           app/models/endpoint.py: the stored document and normalize_path
--   Endpoint/Validation  app/models/endpoint.py: validation of EndpointCreate, and to_document
--   Endpoint/View      app/models/endpoint.py: EndpointOut.from_document
--   Endpoint/Update    app/models/endpoint.py: EndpointUpdate; app/api/endpoints.py: update_endpoint up
--                      to the call that writes
--   Endpoint/Store     app/api/endpoints.py: create_endpoint, update_endpoint (change_endpoint) and
--                      delete_endpoint, over the unique index on the path, with the events that a change
--                      of the retention reapplies
--   Endpoint/Form      app/web/routes.py: _parse_endpoint_form, endpoint_create, endpoint_save and
--                      endpoint_delete
--   Endpoint/Listing   app/api/endpoints.py: list_endpoints and get_endpoint; app/web/routes.py:
--                      _endpoint_list and endpoint_detail
--   Endpoint/Effect    the five steps that requests may take on the endpoints and events;
--                      Endpoint/Reached: sequences of requests to all these handlers and of webhooks
--   Middleware         app/middleware.py: dispatch of AuthMiddleware, of a session that is given;
--                      Auth/Guard: the same over the sessions, is_https and SecurityHeadersMiddleware
--   Mongo/Indexed      the driver's calls on a collection with a unique index, the DuplicateKeyError as
--                      none, and an implementation in memory
--   Auth               app/auth.py, function by function; Auth/Handlers: app/api/auth.py, the settings
--                      pages of app/web/routes.py and UserCreate of app/models/user.py. sign_in is what
--                      login and login_submit share; Auth/Reached: sequences of requests
--   Retention          app/retention.py: retention_days, expires_at and reapply
--   Log                app/log.py: is_sensitive and the processor redact
--   Search/Tokenize    app/search/tokenize.py, function by function
--   Search/Query       app/search/query.py: Filters and Cursor
--   Search/Ranking     app/search/query.py: _candidate_clause is is_candidate, _score_expression is
--                      score_of, _cursor_clause is behind; build_pipeline with search, list_events,
--                      find_events and stream_events
--   Search/Paging      app/web/routes.py: the rows and the next link of events_page
--   Search/Params      app/deps.py: event_query
--   Search/Backfill    app/search/backfill.py: the loop of backfill is write_batches
--   Export             app/export.py, and export_events of app/web/routes.py
--   JsonView           app/web/json_view.py: render_json
--   Replay/Headers     app/replay/runner.py: forwardable and merge_headers
--   Replay/Address     app/replay/ssrf.py: is_blocked, over the tables of Python's ipaddress
--   Replay/Destination app/replay/ssrf.py: resolve and validate, the exception as a result
--   Replay/Runner      app/replay/runner.py: _request, _result, _send (send) and execute
--   Replay/Queue       app/replay/store.py and run_once of app/replay/worker.py; Replay/Queue/Forever:
--                      run_forever, over the passes until it is stopped
--   Replay/Creation    app/models/replay.py: ReplayCreate; app/api/replays.py: create_replay;
--                      app/web/routes.py: replay_submit
--   Seed               app/seed.py: ensure_endpoints, sign, the request of send (posted) and backdate;
--                      Seed/Sending: send and seed, over the handler of Ingest/Receiver
--
-- Numbers. The limiter's floats are exact natural numbers: time in nanoseconds, and tokens in units of
-- which one nanosecond refills per_minute. The queue counts microseconds. A search score is counted in
-- units of one over the number of trigrams of the query, in which all scores of that query are whole.
-- Rounding of floats is not modelled, nor that BSON keeps a time to the millisecond: a stored time is the
-- time that was written. Where an expiry leaves the range of datetime, the handler fails; the queue's
-- times are taken to stay in range.
-- Fuel: the one bounded loop that calls out, _send, runs max_redirects + 1 rounds as in the source,
-- with the source's own error after the last; all other loops of the code are structural.
-- A reader who follows the links from page to page runs on fuel, for which one round more than there
-- are matches is enough.
--
-- Parameters, for code outside the repository: str.lower and str.upper (Unicode), bytes.decode and
-- base64 (Codec), json.loads and parse_qs (Parsers), the HMAC digest (Hmac), httpx.URL and
-- socket.getaddrinfo (Network), the server at the other end (peer), the replacing decoder of a
-- response body (decode_replace), the database (Collection, Indexed), argon2 and sha256 (Hasher), the
-- texts of times, ids and floats (Formats), json.dumps and csv.writer (Printers), markupsafe (Html),
-- str.isdigit and int of a text (Numerals), and the ids, salts and tokens that are drawn (arguments).
--
-- Exceptions. What json.loads, getaddrinfo, an exchange over HTTP or the insertion of an event raise
-- beyond what the source catches has a value of its own (Loaded, Lookup, Reply, Collection.takes), and
-- leads to the answer or result of an unhandled exception. The insertions of a replay, a user, a session
-- and an endpoint are taken to fail only on a duplicate key, and an update in the pipeline of reapply
-- not to leave the range of dates. A change of an endpoint is modelled up to its write; the view that is
-- answered then is Endpoint/View.
--
-- Not modelled: the rendering of the pages (Jinja templates, pretty_json); the assembly of the
-- application (app/main.py, app/config.py, the indexes and the demo endpoint of app/db.py), which is
-- calls of FastAPI, pydantic and the driver; the history of the replays of an event, which only reads;
-- reset and the times of creation in app/seed.py; the log lines and their setup; and the main functions
-- of the commands.
pub mod Prelude
pub mod Mongo
pub mod Json
pub mod Event
pub mod Log
pub mod RateLimit
pub mod Endpoint
pub mod Middleware
pub mod Auth
pub mod Retention
pub mod Search
pub mod Export
pub mod JsonView
pub mod Ingest
pub mod Replay
pub mod Seed
