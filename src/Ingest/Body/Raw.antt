-- ===== src/Ingest/Body/Raw.antt =====
-- What is kept of a body: its very bytes, and a parse that is no deeper than allowed.
use webhook_inbox.Prelude.{ℕ, ◌≡◌, List, Option-cases, inl, inr}
use webhook_inbox.Prelude.Text.{str_eq}
use webhook_inbox.Event.{Codec, Event}
use webhook_inbox.Replay.Queue.{event_body}
use webhook_inbox.Ingest.Body.{decode_raw}

-- The bytes that a replay of an event sends are the bytes that arrived, whether they were text or
-- not.
pub event_body-decode_raw :
    (codec : Codec) (event : Event) (raw : List ℕ)
    → event.request.raw_body ≡ (decode_raw codec raw).0
    → event.request.raw_encoding ≡ (decode_raw codec raw).1
    → event_body codec event ≡ raw
unfolding event_body decode_raw str_eq
event_body-decode_raw codec event raw stored named = elim (Option-cases (codec.decode raw)) [
  | inl binary ↦ rw (named, stored, decode_raw, binary) (codec.b64decode-b64encode raw)
  | inr (text, valid) ↦ rw (named, stored, decode_raw, valid) (codec.encode-decode raw text valid)
]
