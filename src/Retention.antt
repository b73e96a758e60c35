-- ===== src/Retention.antt =====
-- app/retention.py: when an event expires, and what a changed endpoint does to its stored events.
-- Times are microseconds.
mod Tests
use webhook_inbox.Prelude.{
  ℕ, zero, suc, ◌+◌, ◌-◌, ◌*◌, ◌∙◌, ◌<◌, ◌≡◌, refl, ap, Bool, true, false, List, [], ◌∷◌, map,
  Option, none, some, ◌==◌, if◌then◌else◌, arith, ltb, Bool-cases, inl, inr,
}
use webhook_inbox.Mongo.{Collection}
use webhook_inbox.Event.{Event, event_id_of}
use webhook_inbox.Endpoint.{Endpoint}

pub record RetentionConfig : Type 0 where
  pub enabled : Bool
  pub default_days : ℕ

-- timedelta(days=n)
abbrev pub days_long : ℕ → ℕ
days_long n = n * 86_400_000_000

-- override if override else default
abbrev override_or : Option ℕ → ℕ → ℕ
override_or none default = default
override_or (some zero) default = default
override_or (some (suc n)) default = suc n

unfoldable pub retention_days : Endpoint → RetentionConfig → Option ℕ
retention_days endpoint config =
    if config.enabled then some (override_or endpoint.retention_days config.default_days) else none

abbrev after_days : ℕ → Option ℕ → Option ℕ
after_days received_at none = none
after_days received_at (some zero) = none
after_days received_at (some (suc n)) = some (received_at + days_long (suc n))

-- datetime.max, in microseconds since 1970
abbrev pub last_time : ℕ
last_time = 253_402_300_799_999_999

-- The time of expiry. Behind `last_time` the source raises an OverflowError instead: whoever calls
-- asks `overflows`.
unfoldable pub expires_at : Endpoint → RetentionConfig → ℕ → Option ℕ
unfolding retention_days
expires_at endpoint config received_at = after_days received_at (retention_days endpoint config)

abbrev pub overflows : Option ℕ → Bool
overflows none = false
overflows (some t) = ltb last_time t

-- The expiry at one time, moved to another.
abbrev pub moved : ℕ → ℕ → Option ℕ → Option ℕ
moved before after none = none
moved before after (some expires) = some (after + expires - before)

after_days-moved :
    (days : Option ℕ) (before after : ℕ)
    → moved before after (after_days before days) ≡ after_days after days
after_days-moved none before after = refl
after_days-moved (some zero) before after = refl
after_days-moved (some (suc n)) before after = ap some (omega arith)

pub expires_at-moved :
    (endpoint : Endpoint) (config : RetentionConfig) (before after : ℕ)
    → moved before after (expires_at endpoint config before) ≡ expires_at endpoint config after
unfolding expires_at
expires_at-moved endpoint config before after =
    after_days-moved (retention_days endpoint config) before after

-- The update of `reapply` on one document: `$unset`, or `$set` with `$dateAdd`.
unfoldable pub reapplied : Option ℕ → Event → Event
reapplied none event = record event { expires_at = none }
reapplied (some days) event = record event {
  expires_at = some (event.received_at + days_long days);
}

module _ (events : Collection Event event_id_of) where
  unfoldable pub reapply : Endpoint → RetentionConfig → events.State → events.State
  unfolding retention_days reapplied
  reapply endpoint config s =
      events.update_many (λ e. e.endpoint_id == endpoint.id)
        (reapplied (retention_days endpoint config)) s

-- The expiry that an event would get if it arrived now, in place of the one it has.
abbrev pub as_received : Endpoint → RetentionConfig → Event → Event
as_received endpoint config e =
    if e.endpoint_id == endpoint.id
    then record e { expires_at = expires_at endpoint config e.received_at }
    else e

pub reapplied-expires_at :
    (endpoint : Endpoint) (config : RetentionConfig) (e : Event)
    → 0 < config.default_days
    → reapplied (retention_days endpoint config) e
      ≡ record e { expires_at = expires_at endpoint config e.received_at }
unfolding reapplied expires_at retention_days
reapplied-expires_at endpoint config e h = elim (Bool-cases config.enabled) [
  | inl on ↦ ground (arith, on)
  | inr off ↦ ground (arith, off)
]

reapply_each :
    (endpoint : Endpoint) (config : RetentionConfig) (es : List Event)
    → 0 < config.default_days
    → map
        (λ e.
          if e.endpoint_id == endpoint.id then reapplied (retention_days endpoint config) e else e)
        es
      ≡ map (as_received endpoint config) es
reapply_each endpoint config [] h = refl
reapply_each endpoint config (e ∷ es) h =
    rw (reapplied-expires_at endpoint config e h)
      (ap (λ t. as_received endpoint config e ∷ t) (reapply_each endpoint config es h))

abbrev pub zero_days : RetentionConfig
zero_days = record { enabled = true; default_days = 0 }

module _ (events : Collection Event event_id_of) where
  -- If the default is at least a day, reapplying gives every stored event of the endpoint the expiry
  -- that it would get on arrival, and leaves all other events as they are.
  pub reapply-as_received :
      (endpoint : Endpoint) (config : RetentionConfig) (s : events.State)
      → 0 < config.default_days
      → events.documents (reapply events endpoint config s)
        ≡ map (as_received endpoint config) (events.documents s)
  unfolding reapply
  reapply-as_received endpoint config s h =
      events.documents-update_many (λ e. e.endpoint_id == endpoint.id)
        (reapplied (retention_days endpoint config)) s
      ∙ reapply_each endpoint config (events.documents s) h

  -- With a default of 0 days and no days of its own, an event is stored without an expiry, but
  -- reapplying sets the expiry of every stored event of the endpoint to the time of its arrival.
  pub reapply-zero_days :
      (endpoint : Endpoint) (e : Event) (s : events.State)
      → endpoint.retention_days ≡ none
      → events.documents s ≡ e ∷ []
      → e.endpoint_id ≡ endpoint.id
      → (expires_at endpoint zero_days e.received_at ≡ none)
        × (events.documents (reapply events endpoint zero_days s)
            ≡ (record e { expires_at = some e.received_at }) ∷ [])
  unfolding reapply expires_at reapplied retention_days
  reapply-zero_days endpoint e s own one same =
      let here : (e.endpoint_id == endpoint.id) ≡ true = ground arith in
      (
        rw own refl,
        events.documents-update_many (λ d. d.endpoint_id == endpoint.id)
              (reapplied (retention_days endpoint zero_days)) s
            ∙ rw (one, own, here) (ap (λ t. record e { expires_at = some t } ∷ []) (omega arith)),
      )
