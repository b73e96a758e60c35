-- ===== src/Mongo/Indexed/Kept.antt =====
-- What holds of all documents, and of what is written, holds behind the calls.
use webhook_inbox.Prelude.{
  ◌≡◌, refl, sym, ap, Bool, List, [], ◌∷◌, ◌++◌, Option, none, some, any, arith, Bool-cases, inl,
  inr, All, All-append, All-replace,
}
use mathlib.Core.Path.{subst}
use webhook_inbox.Mongo.Lists.{Place}
use webhook_inbox.Mongo.Indexed.{
  behind, first_place, remove_first, insert_unique, replace_unique, update_unique,
}

pub remove_first-All :
    {D : Type 0} (P : D → Type 0) (test : D → Bool) (ds : List D)
    → All P ds
    → All P (remove_first test ds)
unfolding remove_first
remove_first-All P test [] h = tt
remove_first-All P test (d ∷ ds) (p, h) = elim (Bool-cases (test d)) [
  | inl hit ↦ rw hit h
  | inr miss ↦ rw miss (p, remove_first-All P test ds h)
]

module _ {D : Type 0} where
  abbrev Splits : Option (Place D) → List D → Type 0
  Splits none ds = Unit
  Splits (some (front, d, back)) ds = front ++ d ∷ back ≡ ds

  behind-Splits :
      (d : D) (o : Option (Place D)) (ds : List D) → Splits o ds → Splits (behind d o) (d ∷ ds)
  unfolding behind
  behind-Splits d none ds h = tt
  behind-Splits d (some (front, e, back)) ds h = ap (λ t. d ∷ t) h

  first_place-Splits : (test : D → Bool) (ds : List D) → Splits (first_place test ds) ds
  unfolding first_place
  first_place-Splits test [] = tt
  first_place-Splits test (d ∷ ds) = elim (Bool-cases (test d)) [
    | inl hit ↦ rw hit refl
    | inr miss ↦ rw miss (behind-Splits d (first_place test ds) ds (first_place-Splits test ds))
  ]

  module _ (P : D → Type 0) (same : D → D → Bool) where
    pub insert_unique-All :
        (d : D) (ds after : List D)
        → insert_unique same d ds ≡ some after
        → P d
        → All P ds
        → All P after
    unfolding insert_unique
    insert_unique-All d ds after e p h = elim (Bool-cases (any (same d) ds)) [
      | inl taken ↦ absurd (ground (arith, e, taken))
      | inr fresh ↦
          let made : ds ++ d ∷ [] ≡ after = ground (arith, e, fresh) in
          subst (All P) made (All-append P ds (d ∷ []) h (p, tt))
    ]

    replace_unique-All :
        (x : D) (ds after : List D) (o : Option (Place D))
        → Splits o ds
        → replace_unique same (λ d. x) ds o ≡ some after
        → P x
        → All P ds
        → All P after
    unfolding replace_unique
    replace_unique-All x ds after none s e p h =
        let made : ds ≡ after = cc e in subst (All P) made h
    replace_unique-All x ds after (some (front, d, back)) s e p h =
        elim (Bool-cases (any (same x) (front ++ back))) [
          | inl taken ↦ absurd (ground (arith, e, taken))
          | inr fresh ↦
              let made : front ++ x ∷ back ≡ after = ground (arith, e, fresh) in
              subst (All P) made (All-replace P front d x back p (subst (All P) (sym s) h))
        ]

    pub update_unique-All :
        (test : D → Bool) (x : D) (ds after : List D)
        → update_unique same test (λ d. x) ds ≡ some after
        → P x
        → All P ds
        → All P after
    unfolding update_unique
    update_unique-All test x ds after e =
        replace_unique-All x ds after (first_place test ds) (first_place-Splits test ds) e
