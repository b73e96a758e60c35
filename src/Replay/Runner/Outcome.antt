-- ===== src/Replay/Runner/Outcome.antt =====
-- What an attempt reports: how much of the answer is kept, and what may be tried again.
use mathlib.Core.List.{append_assoc, append-nil}
use webhook_inbox.Prelude.{
  ℕ, ◌+◌, ◌≤◌, ◌≡◌, refl, sym, ap, ◌∙◌, Bool, true, false, List, [], ◌∷◌, ◌++◌, ◌⊎◌, inl, inr,
  length, length-append, arith, Option, none, some, ltb, Bool-cases, any, ◌==◌,
}
use webhook_inbox.Prelude.Text.{Str}
use webhook_inbox.Prelude.Dict.{Dict}
use webhook_inbox.Replay.Destination.{Network, ReplayConfig}
use webhook_inbox.Replay.Runner.{
  Problem, timed_out_after, connection_failed, read_chunks, Response, Reply, Sent, Sending,
  finished, Round, stop, follow, result_of,
}

-- All the bytes of a response.
abbrev pub joined_chunks : List (List ℕ) → List ℕ
joined_chunks [] = []
joined_chunks (chunk ∷ chunks) = chunk ++ joined_chunks chunks

read_chunks_from :
    (limit : ℕ) (kept : List ℕ) (chunks : List (List ℕ))
    → length kept ≤ limit
    → (length (read_chunks limit (length kept) kept chunks).0 ≤ limit)
      × ((read_chunks limit (length kept) kept chunks).1
          ≡ ltb limit (length (kept ++ joined_chunks chunks)))
      × (((read_chunks limit (length kept) kept chunks).1 ≡ true)
          ⊎ ((read_chunks limit (length kept) kept chunks).0 ≡ kept ++ joined_chunks chunks))
unfolding read_chunks
read_chunks_from limit kept [] h = (h, rw append-nil (ground arith), inr (sym (append-nil kept)))
read_chunks_from limit kept (chunk ∷ chunks) h =
    let all = kept ++ (chunk ++ joined_chunks chunks) in
    let sum : length all ≡ length kept + (length chunk + length (joined_chunks chunks)) =
      length-append kept (chunk ++ joined_chunks chunks)
      ∙ ap (λ n. length kept + n) (length-append chunk (joined_chunks chunks)) in
    elim (Bool-cases (ltb limit (length kept + length chunk))) [
      | inl over ↦ rw over (h, ground (arith, sum), inl refl)
      | inr fits ↦
          let room : length (kept ++ chunk) ≤ limit = ground (arith, length-append kept chunk) in
          let rest = read_chunks_from limit (kept ++ chunk) chunks room in
          rw fits
            (rw (append_assoc kept chunk (joined_chunks chunks), length-append kept chunk) at rest)
    ]

-- Of a response at most `limit` bytes are kept; it is marked as truncated exactly if it is longer;
-- and if it is not, every byte is kept.
read_chunks_lem :
    (limit : ℕ) (chunks : List (List ℕ))
    → (length (read_chunks limit 0 [] chunks).0 ≤ limit)
      × ((read_chunks limit 0 [] chunks).1 ≡ ltb limit (length (joined_chunks chunks)))
      × (((read_chunks limit 0 [] chunks).1 ≡ true)
          ⊎ ((read_chunks limit 0 [] chunks).0 ≡ joined_chunks chunks))
read_chunks_lem limit chunks = read_chunks_from limit [] chunks (omega arith)

-- The statuses of answers that are tried again.
abbrev pub retried_statuses : List ℕ
retried_statuses = 429 ∷ 500 ∷ 502 ∷ 503 ∷ 504 ∷ 507 ∷ 508 ∷ 509 ∷ []

-- Whether an outcome may be tried again: never a refused destination, always a timeout or a broken
-- connection, and of the answers those with one of eight statuses.
abbrev pub may_retry : Option Problem → Option ℕ → Bool
may_retry (some (timed_out_after _)) _ = true
may_retry (some (connection_failed _)) _ = true
may_retry (some _) _ = false
may_retry none (some status) = any (λ s. status == s) retried_statuses
may_retry none none = false

module _ (net : Network) (peer : ℕ → Sent net → Reply) (decode_replace : List ℕ → Str)
    (config : ReplayConfig) where
  abbrev IsResult : Sending net → Type 0
  IsResult (finished attempt) =
      (r : Response) × (attempt ≡ result_of net peer decode_replace config r)
  IsResult _ = Unit

  abbrev IsResultRound : Round net peer decode_replace config → Type 0
  IsResultRound (stop end) = IsResult end
  IsResultRound (follow next) = Unit
