-- ===== src/JsonView/Tags.antt =====
-- app/web/json_view.py: the tags in the pieces of a page.
use mathlib.Core.List.{append_assoc}
use webhook_inbox.Prelude.{
  ℕ, ◌≡◌, refl, sym, ap, ◌∙◌, Bool, true, false, [], ◌∷◌, ◌++◌, if◌then◌else◌, ltb, ◌==◌, arith,
  Bool-cases, inl, inr,
}
use webhook_inbox.Prelude.Text.{Str, codes, has_char}
use webhook_inbox.JsonView.{Html, auto_open_depth, wrap}

-- The tags of a page, one behind the other, from within a tag or from outside.
abbrev pub tags : Bool → Str → Str
tags inside [] = []
tags false (a ∷ s) = if a == b'<' then a ∷ tags true s else tags false s
tags true (a ∷ s) = if a == b'>' then a ∷ tags false s else a ∷ tags true s

-- Whether the end of a text is within a tag.
abbrev pub after : Bool → Str → Bool
after inside [] = inside
after false (a ∷ s) = if a == b'<' then after true s else after false s
after true (a ∷ s) = if a == b'>' then after false s else after true s

-- Two texts print the same tags from one state and end in one state.
abbrev pub IsAlike : Bool → Bool → Str → Str → Type 0
IsAlike before behind s s' =
    (rest rest' : Str)
    → tags behind rest ≡ tags behind rest'
    → tags before (s ++ rest) ≡ tags before (s' ++ rest')

pub literal : (before : Bool) (s : Str) → IsAlike before (after before s) s s
literal before [] rest rest' e = e
literal false (a ∷ s) rest rest' e = elim (Bool-cases (a == b'<')) [
  | inl opens ↦ rw opens (ap (λ t. a ∷ t) (literal true s rest rest' (rw opens at e)))
  | inr text ↦ rw text (literal false s rest rest' (rw text at e))
]
literal true (a ∷ s) rest rest' e = elim (Bool-cases (a == b'>')) [
  | inl closes ↦ rw closes (ap (λ t. a ∷ t) (literal false s rest rest' (rw closes at e)))
  | inr text ↦ rw text (ap (λ t. a ∷ t) (literal true s rest rest' (rw text at e)))
]

pub IsAlike-append :
    (a b c : Bool) (s s' r r' : Str)
    → IsAlike a b s s'
    → IsAlike b c r r'
    → IsAlike a c (s ++ r) (s' ++ r')
IsAlike-append a b c s s' r r' h k rest rest' e =
    ap (tags a) (append_assoc s r rest)
    ∙ h (r ++ rest) (r' ++ rest') (k rest rest' e)
    ∙ sym (ap (tags a) (append_assoc s' r' rest'))

-- A literal text in front, and one behind.
pub behind_literal :
    (a c : Bool) (s r r' : Str) → IsAlike (after a s) c r r' → IsAlike a c (s ++ r) (s ++ r')
behind_literal a c s r r' h = IsAlike-append a (after a s) c s s r r' (literal a s) h

pub before_literal :
    (a b : Bool) (r r' s : Str) → IsAlike a b r r' → IsAlike a (after b s) (r ++ s) (r' ++ s)
before_literal a b r r' s h = IsAlike-append a b (after b s) r r' s s h (literal b s)

pub no_tags : (s rest : Str) → has_char s b'<' ≡ false → tags false (s ++ rest) ≡ tags false rest
no_tags [] rest h = refl
no_tags (a ∷ s) rest h =
    let text : (a == b'<') ≡ false = ground (arith, h) in
    rw text (no_tags s rest (ground (arith, h)))

module _ (t : Html) where
  pub escaped : (s s' : Str) → IsAlike false false (t.escape s) (t.escape s')
  escaped s s' rest rest' e =
      no_tags (t.escape s) rest (t.escape_opens s)
      ∙ e
      ∙ sym (no_tags (t.escape s') rest' (t.escape_opens s'))

  open_attribute : (depth : ℕ) → Str
  open_attribute depth = if ltb depth auto_open_depth then codes " open" else []

  attribute-IsAlike : (depth : ℕ) → IsAlike true true (open_attribute depth) (open_attribute depth)
  unfolding open_attribute
  attribute-IsAlike depth = elim (Bool-cases (ltb depth auto_open_depth)) [
    | inl shown ↦ rw shown (literal true (codes " open"))
    | inr shut ↦ rw shut (literal true [])
  ]

  pub wrap-IsAlike :
      (summary summary' rows rows' : Str) (depth : ℕ)
      → IsAlike false false rows rows'
      → IsAlike false false (wrap t summary rows depth) (wrap t summary' rows' depth)
  unfolding wrap open_attribute
  wrap-IsAlike summary summary' rows rows' depth h =
      let closing = codes "</div></details>" in
      let children = codes "</summary><div class=\"j-children\">" in
      let head = codes "><summary class=\"j-summary\">" in
      let inner : IsAlike false false (children ++ (rows ++ closing))
          (children ++ (rows' ++ closing)) =
        behind_literal false false children (rows ++ closing) (rows' ++ closing)
          (before_literal false false rows rows' closing h) in
      let summed =
        IsAlike-append false false false (t.escape summary) (t.escape summary')
          (children ++ (rows ++ closing)) (children ++ (rows' ++ closing))
          (escaped summary summary') inner in
      behind_literal false false (codes "<details class='j-node'")
        (open_attribute depth ++ (head ++ (t.escape summary ++ (children ++ (rows ++ closing)))))
        (open_attribute depth ++ (head ++ (t.escape summary' ++ (children ++ (rows' ++ closing)))))
        (IsAlike-append true true false (open_attribute depth) (open_attribute depth)
          (head ++ (t.escape summary ++ (children ++ (rows ++ closing))))
          (head ++ (t.escape summary' ++ (children ++ (rows' ++ closing))))
          (attribute-IsAlike depth)
          (behind_literal true false head (t.escape summary ++ (children ++ (rows ++ closing)))
            (t.escape summary' ++ (children ++ (rows' ++ closing))) summed))
