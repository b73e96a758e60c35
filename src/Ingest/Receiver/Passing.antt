-- ===== src/Ingest/Receiver/Passing.antt =====
-- What a check that passes has seen.
use mathlib.Core.List.{append_assoc, append-nil}
use webhook_inbox.Prelude.{
  ℕ, ◌+◌, ◌≤◌, ◌≡◌, refl, sym, ◌∙◌, Bool, true, false, List, [], ◌∷◌, ◌++◌, Option, none, some, ltb,
  length, length-append, arith, Bool-cases, inl, inr, ◌⊎◌,
}
use webhook_inbox.Prelude.Text.{one_of, codes}
use webhook_inbox.Prelude.Dict.{lookup}
use webhook_inbox.Endpoint.{Endpoint}
use webhook_inbox.RateLimit.Client.{get_or_empty}
use webhook_inbox.Replay.Runner.Outcome.{joined_chunks}
use webhook_inbox.Ingest.Incoming.{
  Incoming, Answer, Gate, pass, halt, read_stream, check_declared, read_limited,
}
use webhook_inbox.Ingest.Receiver.{is_enabled, methods_of, check_endpoint, check_signature}

pub Gate-cases {ℓ} :
    {A : Type ℓ} (g : Gate A) → ((answer : Answer) × (g ≡ halt answer)) ⊎ ((a : A) × (g ≡ pass a))
Gate-cases (halt answer) = inl (answer, refl)
Gate-cases (pass a) = inr (a, refl)

pub read_stream-pass :
    (limit : ℕ) (kept : List ℕ) (chunks : List (List ℕ)) (raw : List ℕ)
    → length kept ≤ limit
    → read_stream limit (length kept) kept chunks ≡ pass raw
    → (raw ≡ kept ++ joined_chunks chunks) × (length raw ≤ limit)
unfolding read_stream
read_stream-pass limit kept [] raw h e =
    let same : raw ≡ kept = ground arith in (same ∙ sym (append-nil kept), rw same h)
read_stream-pass limit kept (chunk ∷ chunks) raw h e =
    elim (Bool-cases (ltb limit (length kept + length chunk))) [
      | inl over ↦ absurd (ground (arith, over))
      | inr fits ↦
          let room : length (kept ++ chunk) ≤ limit = ground (arith, length-append kept chunk) in
          let next : read_stream limit (length (kept ++ chunk)) (kept ++ chunk) chunks ≡ pass raw =
            rw (length-append kept chunk) (ground (arith, fits)) in
          let (same, short) = read_stream-pass limit (kept ++ chunk) chunks raw room next in
          (same ∙ append_assoc kept chunk (joined_chunks chunks), short)
    ]

pub read_limited-pass :
    (request : Incoming) (limit : ℕ) (raw : List ℕ)
    → read_limited request limit ≡ pass raw
    → (raw ≡ joined_chunks request.chunks) × (length raw ≤ limit)
unfolding read_limited
read_limited-pass request limit raw e =
    elim (Gate-cases
      (check_declared (get_or_empty (lookup (codes "content-length") request.headers)) limit)) [
        | inl (answer, refused) ↦ absurd (ground (arith, refused))
        | inr (_, fine) ↦
            read_stream-pass limit [] request.chunks raw (omega arith) (ground (arith, fine))
      ]

pub check_endpoint-pass :
    (request : Incoming) (found : Option Endpoint) (endpoint : Endpoint)
    → check_endpoint request found ≡ pass endpoint
    → (found ≡ some endpoint)
      × (is_enabled endpoint ≡ true)
      × (one_of request.method (methods_of endpoint) ≡ true)
unfolding check_endpoint
check_endpoint-pass request none endpoint e = absurd (ground arith)
check_endpoint-pass request (some endpoint') endpoint e = ground arith

pub check_signature-pass :
    (verdict : Option Bool) → check_signature verdict ≡ pass tt → verdict ≡ some true
unfolding check_signature
check_signature-pass (some true) e = refl
check_signature-pass (some false) e = absurd (ground arith)
check_signature-pass none e = absurd (ground arith)
