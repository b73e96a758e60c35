-- ===== src/Prelude/Dict.antt =====
-- Python's `dict` with text keys: an association list in insertion order.
use mathlib.Core.Path.{◌≡◌, refl, subst, ◌∙◌}
use mathlib.Core.Logic.{inl, inr}
use mathlib.Core.Bool.{Bool, false, ◌||◌}
use mathlib.Core.Option.{Option, none, some}
use mathlib.Core.List.{List, [], ◌∷◌, ◌++◌}
use native.Mathlib.Omega.{arith}
use webhook_inbox.Prelude.Tests.{if◌then◌else◌, Bool-cases}
use webhook_inbox.Prelude.Text.{Str, str_eq, str_eq_refl, str_eq_iff}

abbrev pub Dict {ℓ} : Type ℓ → Type ℓ
Dict V = List (Str × V)

module _ {ℓ} {V : Type ℓ} where
  -- d.get(k)
  unfoldable pub lookup : Str → Dict V → Option V
  lookup k [] = none
  lookup k ((j, v) ∷ d) = if str_eq j k then some v else lookup k d

  -- k in d
  unfoldable pub has_key : Str → Dict V → Bool
  has_key k [] = false
  has_key k ((j, v) ∷ d) = str_eq j k || has_key k d

  -- d[k] = v: a key that is there keeps its place, a new one goes to the end
  unfoldable pub insert : Str → V → Dict V → Dict V
  insert k v [] = (k, v) ∷ []
  insert k v ((j, w) ∷ d) = if str_eq j k then (j, v) ∷ d else (j, w) ∷ insert k v d

  -- {**d, **e} and d | e
  unfoldable pub merge : Dict V → Dict V → Dict V
  unfolding insert
  merge d [] = d
  merge d ((k, v) ∷ e) = merge (insert k v d) e

  pub lookup-insert :
      (k j : Str) (v : V) (d : Dict V)
      → lookup j (insert k v d) ≡ (if str_eq k j then some v else lookup j d)
  unfolding lookup insert
  lookup-insert k j v [] = refl
  lookup-insert k j v ((i, w) ∷ d) =
      ground (arith, str_eq_iff k j, str_eq_iff i k, str_eq_iff i j, lookup-insert k j v d)

  pub lookup-insert_self : (k : Str) (v : V) (d : Dict V) → lookup k (insert k v d) ≡ some v
  lookup-insert_self k v d = ground (arith, lookup-insert k k v d, str_eq_refl k)

  pub insert-append_fresh :
      (k : Str) (v : V) (d : Dict V) → has_key k d ≡ false → insert k v d ≡ d ++ (k, v) ∷ []
  unfolding insert has_key
  insert-append_fresh k v [] h = refl
  insert-append_fresh k v ((j, w) ∷ d) h = ground (arith, insert-append_fresh k v d)

  -- {k: v for k, v in d.items() if p(v)}
  unfoldable pub filter_values : (V → Bool) → Dict V → Dict V
  filter_values p [] = []
  filter_values p ((k, v) ∷ d) = if p v then (k, v) ∷ filter_values p d else filter_values p d

  -- No key stands twice, as in every `dict`.
  abbrev pub HasDistinctKeys : Dict V → Type 0
  HasDistinctKeys [] = Unit
  HasDistinctKeys ((k, v) ∷ d) = (has_key k d ≡ false) × HasDistinctKeys d

  pub has_key-insert :
      (k j : Str) (v : V) (d : Dict V) → has_key j (insert k v d) ≡ (str_eq k j || has_key j d)
  unfolding has_key insert
  has_key-insert k j v [] = refl
  has_key-insert k j v ((i, w) ∷ d) =
      ground (arith, str_eq_iff k j, str_eq_iff i k, str_eq_iff i j, has_key-insert k j v d)

  pub insert-HasDistinctKeys :
      (k : Str) (v : V) (d : Dict V) → HasDistinctKeys d → HasDistinctKeys (insert k v d)
  unfolding insert has_key
  insert-HasDistinctKeys k v [] h = (refl, tt)
  insert-HasDistinctKeys k v ((j, w) ∷ d) (fresh, h) = ground (
    arith,
    insert-HasDistinctKeys k v d h,
    has_key-insert k j v d,
    str_eq_iff k j,
    str_eq_iff j k,
  )

  pub lookup-none_of_has_key : (k : Str) (d : Dict V) → has_key k d ≡ false → lookup k d ≡ none
  unfolding has_key lookup
  lookup-none_of_has_key k [] h = refl
  lookup-none_of_has_key k ((j, w) ∷ d) h = ground (arith, lookup-none_of_has_key k d)

  pub has_key-filter_values :
      (p : V → Bool) (k : Str) (d : Dict V)
      → has_key k d ≡ false
      → has_key k (filter_values p d) ≡ false
  unfolding has_key filter_values
  has_key-filter_values p k [] h = refl
  has_key-filter_values p k ((j, w) ∷ d) h = ground (arith, has_key-filter_values p k d)

  pub filter_values-HasDistinctKeys :
      (p : V → Bool) (d : Dict V) → HasDistinctKeys d → HasDistinctKeys (filter_values p d)
  unfolding filter_values
  filter_values-HasDistinctKeys p [] h = tt
  filter_values-HasDistinctKeys p ((j, w) ∷ d) (fresh, h) =
      ground (arith, filter_values-HasDistinctKeys p d h, has_key-filter_values p j d fresh)

  abbrev pub keep_if : (V → Bool) → Option V → Option V
  keep_if p none = none
  keep_if p (some v) = if p v then some v else none

  pub lookup-filter_values :
      (p : V → Bool) (k : Str) (d : Dict V)
      → HasDistinctKeys d
      → lookup k (filter_values p d) ≡ keep_if p (lookup k d)
  unfolding lookup filter_values
  lookup-filter_values p k [] h = refl
  lookup-filter_values p k ((j, w) ∷ d) (fresh, h) =
      ground (arith, lookup-filter_values p k d h, str_eq_iff j k, lookup-none_of_has_key j d fresh)

  -- What holds of every value.
  abbrev pub AllValues {κ} : (V → Type κ) → Dict V → Type κ
  AllValues P [] = Unit
  AllValues P ((k, v) ∷ d) = P v × AllValues P d

module _ {ℓ κ} {V : Type ℓ} (P : V → Type κ) where
  pub AllValues-insert :
      (k : Str) (v : V) (d : Dict V) → P v → AllValues P d → AllValues P (insert k v d)
  unfolding insert
  AllValues-insert k v [] p h = (p, tt)
  AllValues-insert k v ((j, w) ∷ d) p (q, h) = elim (Bool-cases (str_eq j k)) [
    | inl same ↦ rw same (p, h)
    | inr other ↦ rw other (q, AllValues-insert k v d p h)
  ]

  pub AllValues-filter_values :
      (p : V → Bool) (d : Dict V) → AllValues P d → AllValues P (filter_values p d)
  unfolding filter_values
  AllValues-filter_values p [] h = tt
  AllValues-filter_values p ((j, w) ∷ d) (q, h) = elim (Bool-cases (p w)) [
    | inl keep ↦ rw keep (q, AllValues-filter_values p d h)
    | inr gone ↦ rw gone (AllValues-filter_values p d h)
  ]

  pub lookup-AllValues : (k : Str) (d : Dict V) {v : V} → AllValues P d → lookup k d ≡ some v → P v
  unfolding lookup
  lookup-AllValues k [] h e = cc
  lookup-AllValues k ((j, w) ∷ d) {v} (q, h) e = elim (Bool-cases (str_eq j k)) [
    | inl same ↦ let here : w ≡ v = ground arith in subst P here q
    | inr other ↦ lookup-AllValues k d h (rw other at e)
  ]

pub AllValues-map {ℓ κ μ} :
    {V : Type ℓ} {P : V → Type κ} {Q : V → Type μ} (d : Dict V)
    → ((v : V) → P v → Q v)
    → AllValues P d
    → AllValues Q d
AllValues-map [] f h = tt
AllValues-map ((k, v) ∷ d) f (p, h) = (f v p, AllValues-map d f h)

module _ {ℓ} {V : Type ℓ} where
  pub has_key-append : (k : Str) (d e : Dict V) → has_key k (d ++ e) ≡ (has_key k d || has_key k e)
  unfolding has_key
  has_key-append k [] e = refl
  has_key-append k ((j, w) ∷ d) e = ground (arith, has_key-append k d e)

  -- In a dictionary with distinct keys, none of an earlier part returns later.
  pub has_key_of_distinct :
      (k : Str) (v : V) (d e : Dict V) → HasDistinctKeys (d ++ (k, v) ∷ e) → has_key k d ≡ false
  unfolding has_key
  has_key_of_distinct k v [] e h = refl
  has_key_of_distinct k v ((j, w) ∷ d) e (fresh, h) = ground (
    arith,
    has_key_of_distinct k v d e h,
    has_key-append j d ((k, v) ∷ e),
    str_eq_iff j k,
    str_eq_iff k j,
  )

  -- The right side of a merge wins.
  pub lookup-merge :
      (k : Str) (d e : Dict V)
      → HasDistinctKeys e
      → lookup k (merge d e) ≡ (if has_key k e then lookup k e else lookup k d)
  unfolding lookup has_key merge
  lookup-merge k d [] h = refl
  lookup-merge k d ((j, v) ∷ e) (fresh, h) =
      lookup-merge k (insert j v d) e h
      ∙ ground (arith, lookup-insert j k v d, str_eq_iff j k, lookup-none_of_has_key j e fresh)
