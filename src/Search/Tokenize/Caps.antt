-- ===== src/Search/Tokenize/Caps.antt =====
-- The caps on an event's terms.
use mathlib.Core.Path.{subst}
use webhook_inbox.Prelude.{
  sym, not, ◌&&◌, ℕ, ◌+◌, ◌≤◌, ◌<◌, ◌≡◌, refl, Bool, true, false, ◌||◌, List, [], ◌∷◌, ◌++◌, Option,
  arith, if◌then◌else◌, Bool-cases, inl, inr, length, length-append, length-take, take, leb, ltb,
  ◌⊎◌, All, All-append,
}
use webhook_inbox.Prelude.Text.{Str, Unicode, one_of, has_char, str_eq, str_eq_refl, str_eq_iff}
use webhook_inbox.Prelude.Dict.{Dict}
use webhook_inbox.Json.{Value}
use webhook_inbox.Search.Tokenize.{
  token_limit, trigram_limit, max_token_length, see, capped_from, capped, windows,
  min_trigram_length, chain, truncate_all, term_parts, normalize, split_terms, tokenize, trigrams,
  source_strings, build,
}

-- No text stands twice.
abbrev pub HasNoRepeats : List Str → Type 0
HasNoRepeats [] = Unit
HasNoRepeats (s ∷ ss) = (one_of s ss ≡ false) × HasNoRepeats ss

one_of-append : (s t : Str) (ss : List Str) → one_of s (ss ++ t ∷ []) ≡ (one_of s ss || str_eq s t)
unfolding one_of
one_of-append s t [] = ground arith
one_of-append s t (x ∷ ss) = ground (arith, one_of-append s t ss)

append-HasNoRepeats :
    (ss : List Str) (t : Str) → one_of t ss ≡ false → HasNoRepeats ss → HasNoRepeats (ss ++ t ∷ [])
unfolding one_of
append-HasNoRepeats [] t h n = (refl, tt)
append-HasNoRepeats (s ∷ ss) t h (p, n) =
    ground (arith, append-HasNoRepeats ss t, one_of-append s t ss, str_eq_iff s t, str_eq_iff t s)

see-HasNoRepeats :
    (seen : List Str) (value : Str)
    → HasNoRepeats seen
    → HasNoRepeats (see seen value) × (length (see seen value) ≤ length seen + 1)
unfolding see
see-HasNoRepeats seen value n = elim (Bool-cases (one_of value seen)) [
  | inl old ↦ rw old (n, omega arith)
  | inr new ↦
      rw new (append-HasNoRepeats seen value new n, omega (arith, length-append seen (value ∷ [])))
]

one_of-see : (seen : List Str) (value : Str) → one_of value (see seen value) ≡ true
unfolding see
one_of-see seen value = ground (arith, one_of-append value value seen, str_eq_refl value)

one_of-see_old :
    (seen : List Str) (value old : Str)
    → one_of old seen ≡ true
    → one_of old (see seen value) ≡ true
unfolding see
one_of-see_old seen value old h = ground (arith, one_of-append old value seen)

-- What the loop of `_capped` keeps.
record IsCapped (limit : ℕ) (kept : List Str) : Type 0 where
  short : length kept ≤ limit
  no_repeats : HasNoRepeats kept

capped_from-IsCapped :
    (seen values : List Str) (limit : ℕ)
    → length seen < limit
    → HasNoRepeats seen
    → IsCapped limit (capped_from seen values limit)
unfolding capped_from
capped_from-IsCapped seen [] limit h n = record { short = omega arith; no_repeats = n }
capped_from-IsCapped seen (value ∷ values) limit h n =
    let (n', longer) = see-HasNoRepeats seen value n in
    elim (Bool-cases (leb limit (length (see seen value)))) [
      | inl full ↦ rw full (record { short = omega (arith, longer); no_repeats = n' })
      | inr room ↦
          rw room (capped_from-IsCapped (see seen value) values limit (ground (arith, room)) n')
    ]

capped_from-seen :
    (seen values : List Str) (limit : ℕ) (old : Str)
    → one_of old seen ≡ true
    → one_of old (capped_from seen values limit) ≡ true
unfolding capped_from
capped_from-seen seen [] limit old h = h
capped_from-seen seen (value ∷ values) limit old h =
    ground
      (arith, one_of-see_old seen value old h, capped_from-seen (see seen value) values limit old)

capped_from_room :
    (seen values : List Str) (value : Str) (limit : ℕ)
    → leb limit (length (see seen value)) ≡ false
    → capped_from seen (value ∷ values) limit ≡ capped_from (see seen value) values limit
unfolding capped_from
capped_from_room seen values value limit room = rw room

capped_from_full :
    (seen values : List Str) (value : Str) (limit : ℕ)
    → leb limit (length (see seen value)) ≡ true
    → capped_from seen (value ∷ values) limit ≡ see seen value
unfolding capped_from
capped_from_full seen values value limit full = rw full

capped_from_complete :
    (seen values : List Str) (limit : ℕ)
    → length (capped_from seen values limit) < limit
    → All (λ v. one_of v (capped_from seen values limit) ≡ true) values
capped_from_complete seen [] limit h = tt
capped_from_complete seen (value ∷ values) limit h =
    elim (Bool-cases (leb limit (length (see seen value)))) [
      | inl full ↦ absurd (ground (arith, full, capped_from_full seen values value limit full))
      | inr room ↦
          let next = capped_from_room seen values value limit room in
          subst (λ kept. All (λ v. one_of v kept ≡ true) (value ∷ values)) (sym next)
            (
              capped_from-seen (see seen value) values limit value (one_of-see seen value),
              capped_from_complete (see seen value) values limit (rw next at h),
            )
    ]

-- `_capped` keeps at most `limit` texts, none twice; and if it keeps fewer, it has dropped none.
capped_lem :
    (values : List Str) (limit : ℕ)
    → 0 < limit
    → (length (capped values limit) ≤ limit)
      × HasNoRepeats (capped values limit)
      × ((length (capped values limit) ≡ limit)
          ⊎ All (λ v. one_of v (capped values limit) ≡ true) values)
unfolding capped
capped_lem values limit h =
    let c = capped_from-IsCapped [] values limit h tt in
    (
      c.short,
      c.no_repeats,
      elim (Bool-cases (ltb (length (capped_from [] values limit)) limit)) [
        | inl fewer ↦ inr (capped_from_complete [] values limit (ground (arith, fewer)))
        | inr most ↦ inl (ground (arith, c.short))
      ],
    )

module _ (P : Str → Type 0) where
  see-All : (seen : List Str) (value : Str) → P value → All P seen → All P (see seen value)
  unfolding see
  see-All seen value p h = elim (Bool-cases (one_of value seen)) [
    | inl old ↦ rw old h
    | inr new ↦ rw new (All-append P seen (value ∷ []) h (p, tt))
  ]

  capped_from-All :
      (seen values : List Str) (limit : ℕ)
      → All P seen
      → All P values
      → All P (capped_from seen values limit)
  unfolding capped_from
  capped_from-All seen [] limit h k = h
  capped_from-All seen (value ∷ values) limit h (p, k) =
      elim (Bool-cases (leb limit (length (see seen value)))) [
        | inl full ↦ rw full (see-All seen value p h)
        | inr room ↦
            rw room (capped_from-All (see seen value) values limit (see-All seen value p h) k)
      ]

  chain-All : (f : Str → List Str) (ss : List Str) → ((s : Str) → All P (f s)) → All P (chain f ss)
  chain-All f [] h = tt
  chain-All f (s ∷ ss) h = All-append P (f s) (chain f ss) (h s) (chain-All f ss h)

-- At most as long as a token may be.
abbrev pub IsShort : Str → Type 0
IsShort s = length s ≤ max_token_length

truncate_all-IsShort : (parts : List Str) → All IsShort (truncate_all parts)
truncate_all-IsShort [] = tt
truncate_all-IsShort (p ∷ parts) =
    (omega (arith, length-take max_token_length p), truncate_all-IsShort parts)

All-if :
    (P : Str → Type 0) (b : Bool) (xs ys : List Str)
    → All P xs
    → All P ys
    → All P (if b then xs else ys)
All-if P true xs ys h k = h
All-if P false xs ys h k = k

abbrev pub HasThree : Str → Type 0
HasThree s = length s ≡ 3

windows-HasThree : (s : Str) → All HasThree (windows s)
unfolding windows
windows-HasThree (a ∷ b ∷ c ∷ s) = (refl, windows-HasThree (b ∷ c ∷ s))
windows-HasThree (a ∷ b ∷ []) = tt
windows-HasThree (a ∷ []) = tt
windows-HasThree [] = tt

trigrams-HasThree : (s : Str) → All HasThree (trigrams s)
unfolding trigrams
trigrams-HasThree s = elim (Bool-cases (ltb (length s) min_trigram_length)) [
  | inl few ↦ rw few tt
  | inr enough ↦ rw enough (windows-HasThree (b' ' ∷ (s ++ b' ' ∷ [])))
]

module _ (u : Unicode) where
  split_terms-IsShort : (s : Str) → All IsShort (split_terms u s)
  unfolding split_terms
  split_terms-IsShort s = truncate_all-IsShort (term_parts (normalize u s))

  tokenize-IsShort : (s : Str) → All IsShort (tokenize u s)
  unfolding tokenize
  tokenize-IsShort s =
      let normalized = normalize u s in
      let parts = split_terms u normalized in
      let short = split_terms-IsShort normalized in
      All-if IsShort (ltb 1 (length parts) && not (has_char normalized b' '))
        (parts ++ take max_token_length normalized ∷ []) parts
        (All-append IsShort parts (take max_token_length normalized ∷ []) short
          (omega (arith, length-take max_token_length normalized), tt))
        short

  -- However large the event: it has at most 512 tokens of at most 64 characters and at most 2048
  -- trigrams of three, none of them twice.
  pub build-IsCapped :
      (endpoint_name : Str) (event_type : Option Str) (headers query : Dict Str) (body : Value)
      → (length (build u endpoint_name event_type headers query body).tokens ≤ 512)
        × (length (build u endpoint_name event_type headers query body).trigrams ≤ 2048)
        × HasNoRepeats (build u endpoint_name event_type headers query body).tokens
        × HasNoRepeats (build u endpoint_name event_type headers query body).trigrams
        × All IsShort (build u endpoint_name event_type headers query body).tokens
        × All HasThree (build u endpoint_name event_type headers query body).trigrams
  unfolding build capped
  build-IsCapped endpoint_name event_type headers query body =
      let sources = source_strings u endpoint_name event_type headers query body in
      let tokens = capped (chain (tokenize u) sources) token_limit in
      let c = capped_from-IsCapped [] (chain (tokenize u) sources) token_limit (omega arith) tt in
      let g = capped_from-IsCapped [] (chain trigrams tokens) trigram_limit (omega arith) tt in
      (
        c.short,
        g.short,
        c.no_repeats,
        g.no_repeats,
        capped_from-All IsShort [] (chain (tokenize u) sources) token_limit tt
            (chain-All IsShort (tokenize u) sources tokenize-IsShort),
        capped_from-All HasThree [] (chain trigrams tokens) trigram_limit tt
            (chain-All HasThree trigrams tokens trigrams-HasThree),
      )
