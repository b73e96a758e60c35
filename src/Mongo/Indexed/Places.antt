-- ===== src/Mongo/Indexed/Places.antt =====
-- Where the documents stand that the calls find and write.
use mathlib.Core.Path.{subst}
use webhook_inbox.Prelude.{
  ◌≡◌, refl, sym, ap, ◌∙◌, Bool, true, false, List, [], ◌∷◌, ◌++◌, Option, none, some, any, arith,
  Bool-cases, inl, inr, All, All-middle,
}
use webhook_inbox.Mongo.Lists.{Place, find_first}
use webhook_inbox.Mongo.Indexed.{behind, first_place, insert_unique, replace_unique, update_unique}

-- One of the documents, which passes a test.
pub record IsAmong {D : Type 0} (test : D → Bool) (ds : List D) (d : D) : Type 0 where
  pub front : List D
  pub back : List D
  pub stood : ds ≡ front ++ d ∷ back
  pub matched : test d ≡ true

pub IsAmong-All :
    {D : Type 0} (P : D → Type 0) {test : D → Bool} {ds : List D} {d : D}
    → IsAmong test ds d
    → All P ds
    → P d
IsAmong-All P {d = d} found h =
    (All-middle P found.front d found.back (subst (All P) found.stood h)).1

module _ {D : Type 0} (test : D → Bool) where
  -- The first document that matches stands where it is found.
  pub find_first-first_place :
      (ds : List D) (d : D)
      → find_first test ds ≡ some d
      → (front : List D) × (back : List D) × (first_place test ds ≡ some (front, d, back))
        × (ds ≡ front ++ d ∷ back)
        × (test d ≡ true)
  unfolding find_first first_place behind
  find_first-first_place [] d h = absurd (ground (arith, h))
  find_first-first_place (e ∷ ds) d h = elim (Bool-cases (test e)) [
    | inl hit ↦
        let same : e ≡ d = ground (arith, h, hit) in
        ([], ds, rw hit (ap (λ t. some ([], t, ds)) same), ap (λ t. t ∷ ds) same, rw (← same) hit)
    | inr miss ↦
        let (front, back, place, stood, matched) =
          find_first-first_place ds d (ground (arith, h, miss)) in
        (e ∷ front, back, rw (miss, place) refl, ap (λ t. e ∷ t) stood, matched)
  ]

  pub find_first-IsAmong : (ds : List D) (d : D) → find_first test ds ≡ some d → IsAmong test ds d
  find_first-IsAmong ds d h =
      let (front, back, _, stood, matched) = find_first-first_place ds d h in
      record { front = front; back = back; stood = stood; matched = matched }

module _ {D : Type 0} (test : D → Bool) (x d : D) where
  behind-some :
      (e : D) (o : Option (Place D)) (front back : List D)
      → behind e o ≡ some (front, d, back)
      → (rest : List D) × (front ≡ e ∷ rest) × (o ≡ some (rest, d, back))
  unfolding behind
  behind-some e none front back h = absurd (ground (arith, h))
  behind-some e (some (rest, c, tail)) front back h = (rest, cc h, cc h)

  -- What takes the place of the first that matches is the first, if it matches.
  find_first-behind :
      (ds front back : List D)
      → first_place test ds ≡ some (front, d, back)
      → test x ≡ true
      → find_first test (front ++ x ∷ back) ≡ some x
  unfolding first_place find_first
  find_first-behind [] front back h matched = absurd (ground (arith, h))
  find_first-behind (e ∷ ds) front back h matched = elim (Bool-cases (test e)) [
    | inl hit ↦ let here : [] ≡ front = ground (arith, h, hit) in rw (← here, matched) refl
    | inr miss ↦
        let (rest, same, later) =
          behind-some e (first_place test ds) front back (rw (miss, first_place) at h) in
        rw (same, miss) (find_first-behind ds rest back later matched)
  ]

module _ {D : Type 0} (same : D → D → Bool) where
  -- A document that was inserted stands at the end, and had its key to itself.
  pub insert_unique-some :
      (d : D) (ds after : List D)
      → insert_unique same d ds ≡ some after
      → (after ≡ ds ++ d ∷ []) × (any (same d) ds ≡ false)
  unfolding insert_unique
  insert_unique-some d ds after h = elim (Bool-cases (any (same d) ds)) [
    | inl taken ↦ absurd (ground (arith, h, taken))
    | inr fresh ↦ (ground (arith, h, fresh), fresh)
  ]

  replace_unique-some :
      (x d : D) (ds front back after : List D)
      → replace_unique same (λ d. x) ds (some (front, d, back)) ≡ some after
      → (after ≡ front ++ x ∷ back) × (any (same x) (front ++ back) ≡ false)
  unfolding replace_unique
  replace_unique-some x d ds front back after h = elim (Bool-cases (any (same x) (front ++ back))) [
    | inl taken ↦ absurd (ground (arith, h, taken))
    | inr fresh ↦ (ground (arith, h, fresh), fresh)
  ]

  -- A document that is found and replaced gives its place to the new one.
  pub record IsReplaced (ds after : List D) (d x : D) : Type 0 where
    pub front : List D
    pub back : List D
    pub stood : ds ≡ front ++ d ∷ back
    pub stands : after ≡ front ++ x ∷ back
    pub unique : any (same x) (front ++ back) ≡ false

  pub update_unique-IsReplaced :
      (test : D → Bool) (x d : D) (ds after : List D)
      → find_first test ds ≡ some d
      → update_unique same test (λ d. x) ds ≡ some after
      → IsReplaced ds after d x
  unfolding update_unique
  update_unique-IsReplaced test x d ds after found h =
      let (front, back, place, stood, _) = find_first-first_place test ds d found in
      let (stands, unique) =
        replace_unique-some x d ds front back after
          (sym (ap (replace_unique same (λ e. x) ds) place) ∙ h) in
      record { front = front; back = back; stood = stood; stands = stands; unique = unique }

  replace_unique-found :
      (test : D → Bool) (x : D) (ds front back after : List D) (d : D)
      → first_place test ds ≡ some (front, d, back)
      → after ≡ front ++ x ∷ back
      → test x ≡ true
      → find_first test after ≡ some x
  replace_unique-found test x ds front back after d place stands matched =
      rw stands (find_first-behind test x d ds front back place matched)

  -- A document that is written is found again, if it still matches.
  pub update_unique-found :
      (test : D → Bool) (x d : D) (ds after : List D)
      → find_first test ds ≡ some d
      → update_unique same test (λ e. x) ds ≡ some after
      → test x ≡ true
      → find_first test after ≡ some x
  unfolding update_unique
  update_unique-found test x d ds after found h matched =
      let (front, back, place, stood, _) = find_first-first_place test ds d found in
      let (stands, unique) =
        replace_unique-some x d ds front back after
          (sym (ap (replace_unique same (λ e. x) ds) place) ∙ h) in
      replace_unique-found test x ds front back after d place stands matched
