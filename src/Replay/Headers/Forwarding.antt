-- ===== src/Replay/Headers/Forwarding.antt =====
-- Which headers a replay sends.
use webhook_inbox.Prelude.{
  ◌≡◌, refl, ◌∙◌, true, false, ◌&&◌, [], ◌∷◌, none, some, arith, if◌then◌else◌, Bool-cases, inl,
  inr,
}
use webhook_inbox.Prelude.Text.{Str, codes, Unicode, one_of, str_eq_iff}
use webhook_inbox.Prelude.Dict.{
  Dict, lookup, insert, has_key, HasDistinctKeys, lookup-insert, has_key-insert,
  lookup-none_of_has_key, insert-HasDistinctKeys, lookup-merge,
}
use webhook_inbox.Replay.Headers.{
  blocked_headers, hop_by_hop_headers, is_forwarded, forward_from, forwardable, choose_from,
  merge_headers,
}

-- What holds of every key.
abbrev pub AllKeys {ℓ} : {V : Type ℓ} → (Str → Type 0) → Dict V → Type 0
AllKeys P [] = Unit
AllKeys P ((k, v) ∷ d) = P k × AllKeys P d

module _ (u : Unicode) where
  -- Header names as the server hands them over: in lower case, each once.
  pub record IsReceived (headers : Dict Str) : Type 0 where
    pub lowered : AllKeys (λ k. u.lower k ≡ k) headers
    pub distinct : HasDistinctKeys headers

  lookup-forward_from :
      (k : Str) (forwarded headers : Dict Str)
      → AllKeys (λ j. u.lower j ≡ j) headers
      → HasDistinctKeys headers
      → lookup k (forward_from u forwarded headers)
        ≡ (if is_forwarded k && has_key k headers then lookup k headers else lookup k forwarded)
  unfolding forward_from lookup has_key
  lookup-forward_from k forwarded [] low dist = ground arith
  lookup-forward_from k forwarded ((j, v) ∷ headers) (low, lows) (fresh, dist) = rw low (
      lookup-forward_from k (if is_forwarded j then insert j v forwarded else forwarded) headers
        lows dist
      ∙ ground (arith, lookup-insert j k v forwarded, str_eq_iff j k))

  -- Of headers with names in lower case, each once, a replay takes over exactly those whose name is
  -- forwarded, with their values.
  lookup-forwardable :
      (k : Str) (headers : Dict Str)
      → IsReceived headers
      → lookup k (forwardable u headers) ≡ (if is_forwarded k then lookup k headers else none)
  unfolding forwardable lookup
  lookup-forwardable k headers r =
      lookup-forward_from k [] headers r.lowered r.distinct
      ∙ ground (arith, lookup-none_of_has_key k headers)

  choose_from-hop :
      (k : Str) (chosen custom : Dict Str)
      → one_of k hop_by_hop_headers ≡ true
      → has_key k chosen ≡ false
      → has_key k (choose_from u chosen custom) ≡ false
  unfolding choose_from
  choose_from-hop k chosen [] h e = e
  choose_from-hop k chosen ((j, v) ∷ custom) h e =
      choose_from-hop k
        (if one_of (u.lower j) hop_by_hop_headers then chosen else insert (u.lower j) v chosen)
        custom h (ground (arith, has_key-insert (u.lower j) k v chosen, str_eq_iff (u.lower j) k))

  forward_from-blocked :
      (k : Str) (forwarded headers : Dict Str)
      → is_forwarded k ≡ false
      → has_key k forwarded ≡ false
      → has_key k (forward_from u forwarded headers) ≡ false
  unfolding forward_from
  forward_from-blocked k forwarded [] h e = e
  forward_from-blocked k forwarded ((j, v) ∷ headers) h e =
      forward_from-blocked k
        (if is_forwarded (u.lower j) then insert (u.lower j) v forwarded else forwarded) headers h
        (ground (arith, has_key-insert (u.lower j) k v forwarded, str_eq_iff (u.lower j) k))

  choose_from-HasDistinctKeys :
      (chosen custom : Dict Str)
      → HasDistinctKeys chosen
      → HasDistinctKeys (choose_from u chosen custom)
  unfolding choose_from
  choose_from-HasDistinctKeys chosen [] h = h
  choose_from-HasDistinctKeys chosen ((j, v) ∷ custom) h =
      choose_from-HasDistinctKeys
        (if one_of (u.lower j) hop_by_hop_headers then chosen else insert (u.lower j) v chosen)
        custom (ground (arith, insert-HasDistinctKeys (u.lower j) v chosen h))

  blocked-is_forwarded : (k : Str) → one_of k blocked_headers ≡ true → is_forwarded k ≡ false
  unfolding is_forwarded
  blocked-is_forwarded k h = rw h

  lookup-merge_headers :
      (k : Str) (original custom : Dict Str)
      → lookup k (merge_headers u original custom) ≡ (
          if has_key k (choose_from u [] custom)
          then lookup k (choose_from u [] custom)
          else lookup k (forwardable u original))
  unfolding merge_headers
  lookup-merge_headers k original custom =
      lookup-merge k (forwardable u original) (choose_from u [] custom)
        (choose_from-HasDistinctKeys [] custom tt)

  -- No header of the stored event that is blocked leaves with a replay: such a header is sent only
  -- as it would be for an event with no headers at all, that is, if the user typed it; and a
  -- hop-by-hop header is not sent even then.
  pub merge_headers_blocked :
      (k : Str) (original custom : Dict Str)
      → one_of k blocked_headers ≡ true
      → lookup k (merge_headers u original custom)
        ≡ (if one_of k hop_by_hop_headers then none else lookup k (merge_headers u [] custom))
  unfolding forwardable has_key
  merge_headers_blocked k original custom h =
      let kept : lookup k (forwardable u original) ≡ none =
        lookup-none_of_has_key k (forwardable u original)
          (forward_from-blocked k [] original (blocked-is_forwarded k h) refl) in
      let empty : lookup k (forwardable u []) ≡ none =
        lookup-none_of_has_key k (forwardable u []) refl in
      elim (Bool-cases (one_of k hop_by_hop_headers)) [
        | inl hop ↦ rw hop (
            lookup-merge_headers k original custom ∙ rw (choose_from-hop k [] custom hop refl) kept)
        | inr other ↦ rw other (
            lookup-merge_headers k original custom
            ∙ ground (arith, lookup-merge_headers k [] custom))
      ]

  -- From headers with names in lower case, each once, a secret that a sender presents as
  -- `x-webhook-secret` is taken over into every replay.
  forwardable-webhook_secret :
      (headers : Dict Str) (secret : Str)
      → IsReceived headers
      → lookup (codes "x-webhook-secret") headers ≡ some secret
      → lookup (codes "x-webhook-secret") (forwardable u headers) ≡ some secret
  unfolding is_forwarded
  forwardable-webhook_secret headers secret r h =
      lookup-forwardable (codes "x-webhook-secret") headers r ∙ h
