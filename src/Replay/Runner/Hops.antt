-- ===== src/Replay/Runner/Hops.antt =====
-- Whom a delivery contacts, over all its redirects.
use webhook_inbox.Prelude.{
  ℕ, zero, suc, ◌+◌, ◌≤◌, ◌≡◌, refl, false, List, ◌⊎◌, inl, inr, All, length, arith, Option-cases,
}
use webhook_inbox.Prelude.Text.{Str}
use webhook_inbox.Prelude.Dict.{Dict}
use webhook_inbox.Replay.Destination.{
  Network, ReplayConfig, DestinationError, Checked, ok, refused, raised, Destination, validate,
}
use webhook_inbox.Replay.Destination.Safety.{IsSafe, validate-IsSafe}
use webhook_inbox.Replay.Runner.{
  Reply, response, timeout, broken, uncaught, transport_error, redirect_of, result_of, Sent,
  request_of, Contact, Sending, finished, timed_out, unreachable, Round, stop, follow, round_of,
  send_from, send,
}

pub Checked-cases {ℓ} :
    {A : Type ℓ} (c : Checked A)
    → (c ≡ raised) ⊎ ((e : DestinationError) × (c ≡ refused e)) ⊎ ((a : A) × (c ≡ ok a))
Checked-cases raised = inl refl
Checked-cases (refused e) = inr (inl (e, refl))
Checked-cases (ok a) = inr (inr (a, refl))

module _ (net : Network) (peer : ℕ → Sent net → Reply) (decode_replace : List ℕ → Str)
    (config : ReplayConfig) where
  pub Round-cases :
      (r : Round net peer decode_replace config)
      → ((end : Sending net) × (r ≡ stop end)) ⊎ ((next : Str) × (r ≡ follow next))
  Round-cases (stop end) = inl (end, refl)
  Round-cases (follow next) = inr (next, refl)

  -- The connection goes to the validated address of a destination that passed every check at that
  -- very moment.
  pub record IsGuarded (c : Contact net) : Type 0 where
    pub safe : IsSafe net config c.moment c.destination
    pub pinned_to_ip : net.host c.sent.target ≡ net.ip_text c.destination.ip

  request-IsGuarded :
      (d : Destination net) (moment : ℕ) (method : Str) (headers : Dict Str) (body : List ℕ)
      → IsSafe net config moment d
      → IsGuarded
          (record { destination = d; moment = moment; sent = request_of net d method headers body })
  unfolding request_of
  request-IsGuarded d moment method headers body safe = record {
    safe = safe;
    pinned_to_ip = net.host-copy_with_host d.url d.ip;
  }

  send_from-IsGuarded :
      (rounds moment : ℕ) (url method : Str) (headers : Dict Str) (body : List ℕ)
      → All IsGuarded
          (send_from net peer decode_replace config rounds moment url method headers body).1
        × (length (send_from net peer decode_replace config rounds moment url method headers body).1
            ≤ rounds)
  unfolding send_from
  send_from-IsGuarded zero moment url method headers body = (tt, omega arith)
  send_from-IsGuarded (suc rounds) moment url method headers body =
      elim (Checked-cases (validate net config moment url)) [
        | inl lost ↦ rw (lost, send_from) (tt, omega arith)
        | inr (inl (e, no_good)) ↦ rw (no_good, send_from) (tt, omega arith)
        | inr (inr (d, valid)) ↦
            let sent = request_of net d method headers body in
            let guarded =
              request-IsGuarded d moment method headers body
                (validate-IsSafe net config moment url d valid) in
            elim (Round-cases (round_of net peer decode_replace config d.url (peer moment sent))) [
              | inl (end, stops) ↦ rw (valid, stops, send_from) ((guarded, tt), omega arith)
              | inr (next, follows) ↦
                  let (rest, count) =
                    send_from-IsGuarded rounds (moment + 1) next method headers body in
                  rw (valid, follows, send_from) ((guarded, rest), omega (arith, count))
            ]
      ]

  -- Whatever the servers and the name service answer, and whenever: every request of a delivery goes
  -- to the address that its own URL was checked for in that very hop, that check has found every
  -- address of the host unblocked unless private networks are allowed, and there are at most
  -- `max_redirects` + 1 requests.
  pub send-IsGuarded :
      (url method : Str) (headers : Dict Str) (body : List ℕ)
      → All IsGuarded (send net peer decode_replace config url method headers body).1
        × (length (send net peer decode_replace config url method headers body).1
            ≤ config.max_redirects + 1)
  unfolding send
  send-IsGuarded url method headers body =
      send_from-IsGuarded (config.max_redirects + 1) 0 url method headers body

  round_of-stops :
      (url : net.Url) (r : Reply)
      → config.allow_redirects ≡ false
      → (end : Sending net) × (round_of net peer decode_replace config url r ≡ stop end)
  unfolding round_of
  round_of-stops url timeout h = (timed_out, refl)
  round_of-stops url broken h = (uncaught, refl)
  round_of-stops url (transport_error text) h = (unreachable text, refl)
  round_of-stops url (response r) h = elim (Option-cases (redirect_of r)) [
    | inl stays ↦ (finished (result_of net peer decode_replace config r), ground (arith, stays))
    | inr (location, moved) ↦
        (finished (result_of net peer decode_replace config r), ground (arith, moved))
  ]

  send_from_once :
      (rounds moment : ℕ) (url method : Str) (headers : Dict Str) (body : List ℕ)
      → config.allow_redirects ≡ false
      → length (send_from net peer decode_replace config rounds moment url method headers body).1
        ≤ 1
  unfolding send_from
  send_from_once zero moment url method headers body h = omega arith
  send_from_once (suc rounds) moment url method headers body h =
      elim (Checked-cases (validate net config moment url)) [
        | inl lost ↦ rw (lost, send_from) (omega arith)
        | inr (inl (e, no_good)) ↦ rw (no_good, send_from) (omega arith)
        | inr (inr (d, valid)) ↦
            let sent = request_of net d method headers body in
            let (end, stops) = round_of-stops d.url (peer moment sent) h in
            rw (valid, stops, send_from) (omega arith)
      ]

  -- With redirects off, a delivery makes at most one request, whatever the server answers.
  send_once :
      (url method : Str) (headers : Dict Str) (body : List ℕ)
      → config.allow_redirects ≡ false
      → length (send net peer decode_replace config url method headers body).1 ≤ 1
  unfolding send
  send_once url method headers body h =
      send_from_once (config.max_redirects + 1) 0 url method headers body h
