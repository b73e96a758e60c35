-- ===== src/Mongo/Indexed/Lengths.antt =====
-- How many documents the calls leave.
use webhook_inbox.Prelude.{
  ℕ, suc, ◌+◌, ◌≤◌, ◌≡◌, Bool, List, [], ◌∷◌, Option, none, some, arith, Bool-cases, inl, inr,
  length, length-append,
}
use webhook_inbox.Mongo.Lists.{Place}
use webhook_inbox.Mongo.Indexed.{
  behind, first_place, remove_first, insert_unique, replace_unique, update_unique,
}

pub length-remove_first :
    {D : Type 0} (test : D → Bool) (ds : List D) → length ds ≤ suc (length (remove_first test ds))
unfolding remove_first
length-remove_first test [] = omega arith
length-remove_first test (d ∷ ds) = ground (arith, length-remove_first test ds)

-- A place that was found, with its parts together, is as long as the list.
abbrev PlaceLength : {D : Type 0} → Option (Place D) → ℕ → Type 0
PlaceLength none n = Unit
PlaceLength (some (front, d, back)) n = length front + suc (length back) ≡ n

behind-length :
    {D : Type 0} (d : D) (o : Option (Place D)) (n : ℕ)
    → PlaceLength o n
    → PlaceLength (behind d o) (suc n)
unfolding behind
behind-length d none n h = tt
behind-length d (some (front, e, back)) n h = omega (arith, h)

length-first_place :
    {D : Type 0} (test : D → Bool) (ds : List D) → PlaceLength (first_place test ds) (length ds)
unfolding first_place
length-first_place test [] = tt
length-first_place test (d ∷ ds) = elim (Bool-cases (test d)) [
  | inl hit ↦ rw hit (omega arith)
  | inr miss ↦
      rw miss (behind-length d (first_place test ds) (length ds) (length-first_place test ds))
]

pub length-insert_unique :
    {D : Type 0} (same : D → D → Bool) (d : D) (ds after : List D)
    → insert_unique same d ds ≡ some after
    → length ds ≤ length after
unfolding insert_unique
length-insert_unique same d ds after e = ground (arith, e, length-append ds (d ∷ []))

length-replace_unique :
    {D : Type 0} (same : D → D → Bool) (change : D → D) (ds after : List D) (o : Option (Place D))
    → PlaceLength o (length ds)
    → replace_unique same change ds o ≡ some after
    → length ds ≤ length after
unfolding replace_unique
length-replace_unique same change ds after none h e = ground (arith, e)
length-replace_unique same change ds after (some (front, d, back)) h e =
    ground (arith, e, h, length-append front (change d ∷ back))

pub length-update_unique :
    {D : Type 0} (same : D → D → Bool) (test : D → Bool) (change : D → D) (ds after : List D)
    → update_unique same test change ds ≡ some after
    → length ds ≤ length after
unfolding update_unique
length-update_unique same test change ds after e =
    length-replace_unique same change ds after (first_place test ds) (length-first_place test ds) e
