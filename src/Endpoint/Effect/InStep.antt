-- ===== src/Endpoint/Effect/InStep.antt =====
-- Every step keeps the expiry of the stored events in step with their endpoints.
use mathlib.Core.Path.{subst}
use webhook_inbox.Prelude.{
  ◌<◌, ◌≡◌, refl, sym, true, false, List, [], ◌∷◌, ◌++◌, ◌==◌, All, All-append, All-map, All-middle,
  All-replace, arith, Bool-cases, inl, inr, if◌then◌else◌,
}
use webhook_inbox.Prelude.Pairwise.{Pairwise-middle, All-both, All-around}
use webhook_inbox.Prelude.Sort.{Pairwise, map-All}
use webhook_inbox.Mongo.Indexed.Kept.{remove_first-All}
use webhook_inbox.Event.{Event}
use webhook_inbox.Endpoint.{Endpoint, same_path}
use webhook_inbox.Retention.{
  RetentionConfig, retention_days, expires_at, reapplied, reapplied-expires_at,
}
use webhook_inbox.Mongo.Indexed.Places.{IsReplaced}
use webhook_inbox.Endpoint.Effect.{
  reapplied_to, IsArrival, Effect, unchanged, added, removed, replaced, arrived,
}
use webhook_inbox.Endpoint.Effect.Kept.{AreApart}

module _ (config : RetentionConfig) where
  -- An event expires as an endpoint says, if it is one of the endpoint's.
  abbrev pub ExpiresBy : Endpoint → Event → Type 0
  ExpiresBy e v = (v.endpoint_id == e.id) ≡ true → v.expires_at ≡ expires_at e config v.received_at

  abbrev pub InStep : List Endpoint → List Event → Type 0
  InStep endpoints events = All (λ e. All (ExpiresBy e) events) endpoints

  -- Another endpoint with the same id and the same days.
  ExpiresBy-same :
      (old new : Endpoint) (v : Event)
      → new.id ≡ old.id
      → new.retention_days ≡ old.retention_days
      → ExpiresBy old v
      → ExpiresBy new v
  unfolding expires_at retention_days
  ExpiresBy-same old new v same days h mine = ground (arith, h, same, days, mine)

  abbrev rewritten : Endpoint → Event → Event
  rewritten e v = if v.endpoint_id == e.id then reapplied (retention_days e config) v else v

  rewritten-ExpiresBy :
      (e : Endpoint) (v : Event) → 0 < config.default_days → ExpiresBy e (rewritten e v)
  rewritten-ExpiresBy e v some_days = elim (Bool-cases (v.endpoint_id == e.id)) [
    | inl mine ↦ rw (mine, reapplied-expires_at e config v some_days) (λ _. refl)
    | inr other ↦ rw (other, other) (λ no. absurd (ground (arith, no)))
  ]

  rewritten-ExpiresBy_other :
      (e other : Endpoint) (v : Event)
      → 0 < config.default_days
      → (other.id == e.id) ≡ false
      → ExpiresBy other v
      → ExpiresBy other (rewritten e v)
  rewritten-ExpiresBy_other e other v some_days apart h =
      elim (Bool-cases (v.endpoint_id == e.id)) [
        | inl hers ↦
            rw (hers, reapplied-expires_at e config v some_days)
              (λ mine. absurd (ground (arith, apart, hers, mine)))
        | inr not_hers ↦ rw not_hers h
      ]

  -- The endpoints before and after one are apart from it.
  apart_from :
      (front back : List Endpoint) (x : Endpoint)
      → Pairwise AreApart (front ++ x ∷ back)
      → All (λ y. (y.id == x.id) ≡ false) front × All (λ y. (y.id == x.id) ≡ false) back
  apart_from front back x h =
      let (before, after) = Pairwise-middle AreApart front back x h in
      (before, All-map back (λ y p. ground (arith, p)) after)

  arrived-InStep :
      (endpoints : List Endpoint) (events : List Event) (v : Event)
      → IsArrival config endpoints v
      → Pairwise AreApart endpoints
      → InStep endpoints events
      → InStep endpoints (events ++ v ∷ [])
  arrived-InStep endpoints events v new apart h =
      let home = new.endpoint in
      let (before, after) =
        apart_from new.known.front new.known.back home
          (subst (Pairwise AreApart) new.known.stood apart) in
      let mine : All (λ e. ExpiresBy e v) endpoints =
        subst (All (λ e. ExpiresBy e v)) (sym new.known.stood) (
          All-around new.known.front new.known.back home
            (λ y p hers. absurd (ground (arith, p, hers, new.of_endpoint))) (λ _. new.expires)
            before after) in
      All-both endpoints (λ e old one. All-append (ExpiresBy e) events (v ∷ []) old (one, tt)) h
        mine

  replaced-InStep :
      (endpoints endpoints' : List Endpoint) (events : List Event) (old new : Endpoint)
      → IsReplaced same_path endpoints endpoints' old new
      → new.id ≡ old.id
      → new.retention_days ≡ old.retention_days
      → InStep endpoints events
      → InStep endpoints' events
  replaced-InStep endpoints endpoints' events old new put same days h =
      let P = λ (e : Endpoint). All (ExpiresBy e) events in
      let there = subst (All P) put.stood h in
      let (_, here, _) = All-middle P put.front old put.back there in
      subst (All P) (sym put.stands) (
        All-replace P put.front old new put.back
          (All-map events (λ v. ExpiresBy-same old new v same days) here) there)

  reapplied-InStep :
      (endpoints endpoints' : List Endpoint) (events : List Event) (old new : Endpoint)
      → 0 < config.default_days
      → IsReplaced same_path endpoints endpoints' old new
      → new.id ≡ old.id
      → Pairwise AreApart endpoints
      → InStep endpoints events
      → InStep endpoints' (reapplied_to config new events)
  reapplied-InStep endpoints endpoints' events old new some_days put same apart h =
      let P = λ (e : Endpoint). All (ExpiresBy e) events in
      let Q = λ (e : Endpoint). All (ExpiresBy e) (reapplied_to config new events) in
      let (ones, here, others) = All-middle P put.front old put.back (subst (All P) put.stood h) in
      let (before, after) =
        apart_from put.front put.back old (subst (Pairwise AreApart) put.stood apart) in
      let keep = λ (y : Endpoint) (p : P y) (far : (y.id == old.id) ≡ false).
        map-All (rewritten new) (ExpiresBy y) events
          (λ v. rewritten-ExpiresBy_other new y v some_days (rw same far)) p in
      subst (All Q) (sym put.stands) (
        All-around {P = Q} put.front put.back new (λ y q. q)
          (map-All (rewritten new) (ExpiresBy new) events
            (λ v _. rewritten-ExpiresBy new v some_days) here)
          (All-both put.front keep ones before) (All-both put.back keep others after))

  pub Effect-InStep :
      {endpoints endpoints' : List Endpoint} {events events' : List Event}
      → 0 < config.default_days
      → Effect config endpoints events endpoints' events'
      → Pairwise AreApart endpoints
      → InStep endpoints events
      → InStep endpoints' events'
  Effect-InStep some_days (unchanged same still) apart h = rw (same, still) h
  Effect-InStep {endpoints = es} {events = vs} some_days (added e _ fresh _ made still) apart h =
      rw (made, still)
        (All-append (λ d. All (ExpiresBy d) vs) es (e ∷ []) h
          (All-map vs (λ v p mine. absurd (ground (arith, p, mine))) fresh.of_events, tt))
  Effect-InStep {endpoints = es} {events = vs} some_days (removed test made still) apart h =
      rw (made, still) (remove_first-All (λ d. All (ExpiresBy d) vs) test es h)
  Effect-InStep {endpoints = es} {endpoints' = es'} {events = vs} some_days
        (replaced old new put same _ (inl (days, still))) apart h =
      rw still (replaced-InStep es es' vs old new put same days h)
  Effect-InStep {endpoints = es} {endpoints' = es'} {events = vs} some_days
        (replaced old new put same _ (inr done)) apart h =
      rw done (reapplied-InStep es es' vs old new some_days put same apart h)
  Effect-InStep {endpoints = es} {events = vs} some_days (arrived v new same made) apart h =
      rw (same, made) (arrived-InStep es vs v new apart h)
