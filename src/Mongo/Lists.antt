-- ===== src/Mongo/Lists.antt =====
-- A collection in memory: a list of documents meets the interface.
use webhook_inbox.Prelude.{
  ℕ, ◌≤◌, ◌≡◌, refl, ap, Bool, true, false, ◌&&◌, List, [], ◌∷◌, ◌++◌, map, Option, none, some,
  ◌==◌, leb, if◌then◌else◌, All, All-map, arith, Bool-cases, inl, inr,
}
use webhook_inbox.Mongo.{Updated, Collection}

-- A place in a list: what stands before, there, and behind.
abbrev pub Place : Type 0 → Type 0
Place D = List D × D × List D

module _ {D : Type 0} where
  unfoldable pub find_first : (D → Bool) → List D → Option D
  find_first test [] = none
  find_first test (d ∷ ds) = if test d then some d else find_first test ds

  pub find_first_found :
      (test : D → Bool) (ds : List D) (d : D)
      → find_first test ds ≡ some d
      → (front : List D) × (back : List D) × (ds ≡ front ++ d ∷ back) × (test d ≡ true)
  unfolding find_first
  find_first_found test [] d h = absurd (ground (arith, h))
  find_first_found test (e ∷ ds) d h = elim (Bool-cases (test e)) [
    | inl hit ↦
        let same : e ≡ d = ground (arith, h, hit) in
        ([], ds, ap (λ t. t ∷ ds) same, rw (← same) hit)
    | inr miss ↦
        let (front, back, stood, matched) = find_first_found test ds d (ground (arith, h, miss)) in
        (e ∷ front, back, ap (λ t. e ∷ t) stood, matched)
  ]

  -- The better of the head and the best place in the tail.
  better : (D → Bool) → (D → ℕ) → D → List D → Option (Place D) → Option (Place D)
  better test key d ds none = if test d then some ([], d, ds) else none
  better test key d ds (some (front, e, back)) =
      if test d && leb (key d) (key e) then some ([], d, ds) else some (d ∷ front, e, back)

  unfoldable pub least_place : (D → Bool) → (D → ℕ) → List D → Option (Place D)
  unfolding better
  least_place test key [] = none
  least_place test key (d ∷ ds) = better test key d ds (least_place test key ds)

  update_place : (D → D) → List D → Option (Place D) → Option D × List D
  update_place change ds none = (none, ds)
  update_place change ds (some (front, d, back)) = (some (change d), front ++ change d ∷ back)

  unfoldable pub update_least : (D → Bool) → (D → ℕ) → (D → D) → List D → Option D × List D
  unfolding update_place least_place
  update_least test key change ds = update_place change ds (least_place test key ds)

  -- What a place found means.
  record IsLeast (test : D → Bool) (key : D → ℕ) (ds front : List D) (d : D) (back : List D)
      : Type 0 where
    stood : ds ≡ front ++ d ∷ back
    matched : test d ≡ true
    least : All (λ e. test e ≡ true → key d ≤ key e) ds

  abbrev IsPlace : (D → Bool) → (D → ℕ) → List D → Option (Place D) → Type 0
  IsPlace test key ds none = All (λ d. test d ≡ false) ds
  IsPlace test key ds (some (front, d, back)) = IsLeast test key ds front d back

  better-IsPlace :
      (test : D → Bool) (key : D → ℕ) (d : D) (ds : List D) (o : Option (Place D))
      → IsPlace test key ds o
      → IsPlace test key (d ∷ ds) (better test key d ds o)
  unfolding better
  better-IsPlace test key d ds none h = elim (Bool-cases (test d)) [
    | inl fits ↦ rw fits (record {
      stood = refl;
      matched = fits;
      least = (λ _. omega arith, All-map ds (λ x out t. cc) h);
    })
    | inr not_it ↦ rw not_it (not_it, h)
  ]
  better-IsPlace test key d ds (some (front, e, back)) h =
      elim (Bool-cases (test d && leb (key d) (key e))) [
        | inl wins ↦
            let lower : key d ≤ key e = ground arith in
            let fits : test d ≡ true = ground arith in
            rw wins (record {
              stood = refl;
              matched = fits;
              least =
                  (λ _. omega arith, All-map ds (λ x low t. omega (arith, lower, low t)) h.least);
            })
        | inr loses ↦ rw loses (record {
          stood = ap (λ l. d ∷ l) h.stood;
          matched = h.matched;
          least = (λ t. ground arith, h.least);
        })
      ]

  least_place-IsPlace :
      (test : D → Bool) (key : D → ℕ) (ds : List D) → IsPlace test key ds (least_place test key ds)
  unfolding least_place
  least_place-IsPlace test key [] = tt
  least_place-IsPlace test key (d ∷ ds) =
      better-IsPlace test key d ds (least_place test key ds) (least_place-IsPlace test key ds)

  place-Updated :
      (test : D → Bool) (key : D → ℕ) (change : D → D) (ds after : List D) (new : D)
      (o : Option (Place D))
      → IsPlace test key ds o
      → update_place change ds o ≡ (some new, after)
      → Updated test key change ds after new
  unfolding update_place
  place-Updated test key change ds after new none h e = absurd (ground arith)
  place-Updated test key change ds after new (some (front, d, back)) h e =
      let changed : new ≡ change d = ground arith in
      let stands : after ≡ front ++ change d ∷ back = ground arith in
      record {
        old = d;
        front = front;
        back = back;
        stood = h.stood;
        matched = h.matched;
        changed = changed;
        stands = rw changed stands;
        least = h.least;
      }

  place-none :
      (test : D → Bool) (key : D → ℕ) (change : D → D) (ds after : List D) (o : Option (Place D))
      → IsPlace test key ds o
      → update_place change ds o ≡ (none, after)
      → (after ≡ ds) × All (λ d. test d ≡ false) ds
  unfolding update_place
  place-none test key change ds after none h e = (ground arith, h)
  place-none test key change ds after (some (front, d, back)) h e = absurd (ground arith)

  pub update_least-Updated :
      (test : D → Bool) (key : D → ℕ) (change : D → D) (ds after : List D) (new : D)
      → update_least test key change ds ≡ (some new, after)
      → Updated test key change ds after new
  unfolding update_least
  update_least-Updated test key change ds after new e =
      place-Updated test key change ds after new (least_place test key ds)
        (least_place-IsPlace test key ds) e

  pub update_least-none :
      (test : D → Bool) (key : D → ℕ) (change : D → D) (ds after : List D)
      → update_least test key change ds ≡ (none, after)
      → (after ≡ ds) × All (λ d. test d ≡ false) ds
  unfolding update_least
  update_least-none test key change ds after e =
      place-none test key change ds after (least_place test key ds)
        (least_place-IsPlace test key ds) e

-- The documents of a collection, in memory.
abbrev pub in_memory : (D : Type 0) (id_of : D → ℕ) → Collection D id_of
in_memory D id_of = record {
  State = List D;
  documents = λ s. s;
  takes = λ d. true;
  insert_one = λ d s. s ++ d ∷ [];
  find_one = find_first;
  update_many = λ test change s. map (λ d. if test d then change d else d) s;
  update_one = λ id change s. map (λ d. if id_of d == id then change d else d) s;
  find_one_and_update = update_least;
  documents-insert_one = λ d s. refl;
  found_some = find_first_found;
  documents-update_many = λ test change s. refl;
  documents-update_one = λ id change s. refl;
  updated_some = update_least-Updated;
  updated_none = update_least-none;
}
