-- ===== src/Log/Redaction.antt =====
-- What a redacted log entry can still show.
use webhook_inbox.Prelude.{◌≡◌, refl, ap, true, [], ◌∷◌, arith, if◌then◌else◌, ◌⊎◌, inl, inr}
use webhook_inbox.Prelude.Text.{Str, Unicode}
use webhook_inbox.Prelude.Dict.{Dict}
use webhook_inbox.Log.{
  redacted, LogValue, plain, nested, is_sensitive, redact_nested, redact_value, redact,
}

module _ (u : Unicode) where
  -- The same keys, and the same values but under sensitive keys.
  abbrev pub SameNested : Dict Str → Dict Str → Type 0
  SameNested [] [] = Unit
  SameNested ((j, v) ∷ d) ((k, w) ∷ e) =
      (j ≡ k) × ((is_sensitive u j ≡ true) ⊎ (v ≡ w)) × SameNested d e
  SameNested _ _ = ⊥

  abbrev pub SameValue : LogValue → LogValue → Type 0
  SameValue (plain s) (plain t) = s ≡ t
  SameValue (nested d) (nested e) = SameNested d e
  SameValue _ _ = ⊥

  abbrev pub SameEvent : Dict LogValue → Dict LogValue → Type 0
  SameEvent [] [] = Unit
  SameEvent ((j, v) ∷ d) ((k, w) ∷ e) =
      (j ≡ k) × ((is_sensitive u j ≡ true) ⊎ SameValue v w) × SameEvent d e
  SameEvent _ _ = ⊥

  redact_nested-same : (d e : Dict Str) → SameNested d e → redact_nested u d ≡ redact_nested u e
  unfolding redact_nested
  redact_nested-same [] [] h = refl
  redact_nested-same ((j, v) ∷ d) ((k, w) ∷ e) (p, q, h) = ground (arith, redact_nested-same d e h)
  redact_nested-same [] ((k, w) ∷ e) h = absurd h
  redact_nested-same ((j, v) ∷ d) [] h = absurd h

  redact_value-same : (v w : LogValue) → SameValue v w → redact_value u v ≡ redact_value u w
  unfolding redact_value
  redact_value-same (plain s) (plain t) h = ap plain h
  redact_value-same (nested d) (nested e) h = ap nested (redact_nested-same d e h)
  redact_value-same (plain s) (nested e) h = absurd h
  redact_value-same (nested d) (plain t) h = absurd h

  redact_entry :
      (j k : Str) (v w : LogValue)
      → j ≡ k
      → (is_sensitive u j ≡ true) ⊎ SameValue v w
      → (if is_sensitive u j then plain redacted else redact_value u v)
        ≡ (if is_sensitive u k then plain redacted else redact_value u w)
  redact_entry j k v w p (inl hidden) = ground arith
  redact_entry j k v w p (inr shown) = ground (arith, redact_value-same v w shown)

  -- Entries that agree but for values under sensitive keys, at the top level or in a dictionary one
  -- level down, are logged alike: a log shows nothing of such a value.
  pub redact-same : (d e : Dict LogValue) → SameEvent d e → redact u d ≡ redact u e
  unfolding redact
  redact-same [] [] h = refl
  redact-same ((j, v) ∷ d) ((k, w) ∷ e) (p, q, h) =
      cc (p, redact_entry j k v w p q, redact-same d e h)
  redact-same [] ((k, w) ∷ e) h = absurd h
  redact-same ((j, v) ∷ d) [] h = absurd h
