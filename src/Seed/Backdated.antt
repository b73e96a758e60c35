-- ===== src/Seed/Backdated.antt =====
-- Backdating moves one event and its expiry together, and leaves all expiries in step.
use mathlib.Core.Path.{subst}
use webhook_inbox.Prelude.{
  ℕ, ◌+◌, ◌-◌, ◌≡◌, refl, sym, ap, ◌∙◌, true, false, List, [], ◌∷◌, map, Option, none, some, ◌==◌,
  All, All-map, arith, Bool-cases, Option-cases, inl, inr, if◌then◌else◌,
}
use webhook_inbox.Prelude.Sort.{Pairwise, map-All}
use webhook_inbox.Prelude.Pairwise.{Pairwise-middle, All-around}
use webhook_inbox.Mongo.{Collection}
use webhook_inbox.Event.{Event, event_id_of}
use webhook_inbox.Endpoint.{Endpoint}
use webhook_inbox.Endpoint.Effect.InStep.{ExpiresBy, InStep}
use webhook_inbox.Retention.{RetentionConfig, moved, expires_at-moved}
use webhook_inbox.Seed.{backdate, backdate_found, backdated, minutes_long}

abbrev pub HaveOwnIds : List Event → Type 0
HaveOwnIds = Pairwise (λ a b. (a.id == b.id) ≡ false)

-- The event with this id, backdated, and all others.
abbrev pub backdated_at : ℕ → ℕ → Event → Event
backdated_at id received w = if w.id == id then backdated received w else w

backdated_expires :
    (received : ℕ) (v : Event)
    → (backdated received v).expires_at ≡ moved v.received_at received v.expires_at
unfolding backdated
backdated_expires received v = elim (Option-cases v.expires_at) [
  | inl forever ↦ rw forever refl
  | inr (expires, until) ↦ rw until refl
]

map-same : {A : Type 0} (g h : A → A) (xs : List A) → All (λ x. g x ≡ h x) xs → map g xs ≡ map h xs
map-same g h [] same = refl
map-same g h (x ∷ xs) (p, same) = cc (p, map-same g h xs same)

absent :
    (id received : ℕ) (vs : List Event)
    → All (λ v. (v.id == id) ≡ false) vs
    → map (backdated_at id received) vs ≡ vs
absent id received [] h = refl
absent id received (v ∷ vs) (p, h) = rw p (ap (λ t. v ∷ t) (absent id received vs h))

backdated-ExpiresBy :
    (config : RetentionConfig) (e : Endpoint) (id received : ℕ) (v : Event)
    → ExpiresBy config e v
    → ExpiresBy config e (backdated_at id received v)
unfolding backdated
backdated-ExpiresBy config e id received v h = elim (Bool-cases (v.id == id)) [
  | inr other ↦ rw other h
  | inl here ↦ rw here (λ hers.
      backdated_expires received v
      ∙ ap (moved v.received_at received) (h hers)
      ∙ expires_at-moved e config v.received_at received)
]

backdated-InStep :
    (config : RetentionConfig) (endpoints : List Endpoint) (vs : List Event) (id received : ℕ)
    → InStep config endpoints vs
    → InStep config endpoints (map (backdated_at id received) vs)
backdated-InStep config endpoints vs id received h =
    All-map endpoints
      (λ e p.
        map-All (backdated_at id received) (ExpiresBy config e) vs
          (λ v. backdated-ExpiresBy config e id received v) p)
      h

module _ (events : Collection Event event_id_of) where
  -- The write of `backdate`, on one document.
  abbrev written : ℕ → ℕ → Event → Event → Event
  written id received v w =
      if w.id == id
      then record w {
        received_at = received;
        expires_at = elim v.expires_at [
          | none ↦ w.expires_at
          | some expires ↦ some (received + expires - v.received_at)
        ];
      }
      else w

  written-found :
      (id received : ℕ) (v : Event)
      → (v.id == id) ≡ true
      → written id received v v ≡ backdated_at id received v
  unfolding backdated
  written-found id received v here = elim (Option-cases v.expires_at) [
    | inl forever ↦ ground (arith, here, forever)
    | inr (expires, until) ↦ ground (arith, here, until)
  ]

  backdate_found-backdated :
      (id received : ℕ) (es : events.State) (v : Event)
      → events.find_one (λ w. w.id == id) es ≡ some v
      → HaveOwnIds (events.documents es)
      → events.documents (backdate_found events id received es (some v))
        ≡ map (backdated_at id received) (events.documents es)
  unfolding backdate_found
  backdate_found-backdated id received es v found own =
      let (front, back, stood, here) = events.found_some (λ w. w.id == id) es v found in
      let (before, after) =
        Pairwise-middle (λ a b. (a.id == b.id) ≡ false) front back v (subst HaveOwnIds stood own) in
      let all : All (λ w. written id received v w ≡ backdated_at id received w)
          (events.documents es) =
        subst (All (λ w. written id received v w ≡ backdated_at id received w)) (sym stood) (
          All-around {P = λ w. (w.id == v.id) ≡ false} front back v
            (λ w p. let other : (w.id == id) ≡ false = ground (arith, p, here) in rw other refl)
            (written-found id received v here) before
            (All-map back (λ w p. ground (arith, p)) after)) in
      events.documents-update_one id _ es ∙ map-same _ _ (events.documents es) all

  backdate_found-InStep :
      (config : RetentionConfig) (endpoints : List Endpoint) (id received : ℕ) (es : events.State)
      (o : Option Event)
      → events.find_one (λ w. w.id == id) es ≡ o
      → HaveOwnIds (events.documents es)
      → InStep config endpoints (events.documents es)
      → InStep config endpoints (events.documents (backdate_found events id received es o))
  unfolding backdate_found
  backdate_found-InStep config endpoints id received es none found own h = h
  backdate_found-InStep config endpoints id received es (some v) found own h =
      subst (InStep config endpoints) (sym (backdate_found-backdated id received es v found own))
        (backdated-InStep config endpoints (events.documents es) id received h)

  -- If the stored events have ids of their own and expire as their endpoints say, they do so after
  -- one of them is backdated.
  pub backdate-InStep :
      (config : RetentionConfig) (endpoints : List Endpoint) (now id minutes : ℕ)
      (es : events.State)
      → HaveOwnIds (events.documents es)
      → InStep config endpoints (events.documents es)
      → InStep config endpoints (events.documents (backdate events now id minutes es))
  unfolding backdate
  backdate-InStep config endpoints now id minutes es own h =
      backdate_found-InStep config endpoints id (now - minutes_long minutes) es
        (events.find_one (λ w. w.id == id) es) refl own h
