-- ===== src/Ingest/Depth/Rendering.antt =====
-- The depth of a written JSON document is that of its brackets, whatever its strings hold.
use mathlib.Core.List.{append_assoc}
use webhook_inbox.Prelude.{
  ℕ, suc, ◌+◌, ◌≤◌, ◌≡◌, refl, ap, ◌∙◌, Bool, true, false, ◌||◌, List, [], ◌∷◌, ◌++◌, max, arith,
  ◌==◌, all, not,
}
use webhook_inbox.Ingest.Depth.{pos, Scan, scan_all, nesting_depth}

-- A byte of the text inside the quotes of a JSON string, or a backslash with the byte that it escapes:
-- of \u and four digits, the digits are bytes that follow.
pub data Piece : Type 0 where
  byte : ℕ → Piece
  escape : ℕ → Piece

abbrev pub quoted : List Piece → List ℕ
quoted [] = []
quoted (byte c ∷ pieces) = c ∷ quoted pieces
quoted (escape c ∷ pieces) = 0x5c ∷ c ∷ quoted pieces

abbrev pub json_str : List Piece → List ℕ
json_str pieces = 0x22 ∷ (quoted pieces ++ 0x22 ∷ [])

mutual
  -- A JSON document as it is written, byte by byte: `plain` is null, true, false or a number, `spaced`
  -- has white space around it, and what stands in empty brackets, or behind the opening one, is white
  -- space.
  pub data Written : Type 0 where
    plain : List ℕ → Written
    text : List Piece → Written
    array : List ℕ → Elements → Written
    object : List ℕ → Members → Written
    spaced : List ℕ → Written → List ℕ → Written

  pub data Elements : Type 0 where
    no_elements : Elements
    element : Written → Elements → Elements

  -- A member has white space before and behind its key.
  pub data Members : Type 0 where
    no_members : Members
    member : List ℕ → List Piece → List ℕ → Written → Members → Members

abbrev mutual
  -- The bytes of a document, followed by more bytes.
  pub json : Written → List ℕ → List ℕ
  json (plain n) rest = n ++ rest
  json (text s) rest = json_str s ++ rest
  json (array space no_elements) rest = b'[' ∷ (space ++ b']' ∷ rest)
  json (array space (element v vs)) rest = b'[' ∷ (space ++ json v (json_elements vs (b']' ∷ rest)))
  json (object space no_members) rest = b'{' ∷ (space ++ b'}' ∷ rest)
  json (object space (member before k after v fs)) rest =
      b'{'
      ∷ (space
          ++ (before ++ (json_str k ++ (after ++ b':' ∷ json v (json_members fs (b'}' ∷ rest))))))
  json (spaced before v after) rest = before ++ json v (after ++ rest)

  -- The later elements, each behind its comma.
  pub json_elements : Elements → List ℕ → List ℕ
  json_elements no_elements rest = rest
  json_elements (element v vs) rest = b',' ∷ json v (json_elements vs rest)

  pub json_members : Members → List ℕ → List ℕ
  json_members no_members rest = rest
  json_members (member before k after v fs) rest =
      b',' ∷ (before ++ (json_str k ++ (after ++ b':' ∷ json v (json_members fs rest))))

abbrev mutual
  -- How deep arrays and objects are nested.
  pub depth_of : Written → ℕ
  depth_of (plain n) = 0
  depth_of (text s) = 0
  depth_of (array space xs) = suc (depth_elements xs)
  depth_of (object space fs) = suc (depth_members fs)
  depth_of (spaced before v after) = depth_of v

  pub depth_elements : Elements → ℕ
  depth_elements no_elements = 0
  depth_elements (element v vs) = max (depth_of v) (depth_elements vs)

  pub depth_members : Members → ℕ
  depth_members no_members = 0
  depth_members (member before k after v fs) = max (depth_of v) (depth_members fs)

-- A byte that is no quote and no bracket, as those of numbers and white space.
abbrev pub is_neutral : ℕ → Bool
is_neutral c = not ((c == 0x22) || (c == 0x7b) || (c == 0x5b) || (c == 0x7d) || (c == 0x5d))

-- Inside a string, quotes and backslashes are escaped.
abbrev pub AreEscaped : List Piece → Type 0
AreEscaped [] = Unit
AreEscaped (byte c ∷ pieces) = (((c == 0x22) || (c == 0x5c)) ≡ false) × AreEscaped pieces
AreEscaped (escape c ∷ pieces) = AreEscaped pieces

abbrev mutual
  -- Outside strings there is no quote and no bracket but those of the document.
  pub IsJson : Written → Type 0
  IsJson (plain n) = all is_neutral n ≡ true
  IsJson (text s) = AreEscaped s
  IsJson (array space xs) = (all is_neutral space ≡ true) × AreJsonElements xs
  IsJson (object space fs) = (all is_neutral space ≡ true) × AreJsonMembers fs
  IsJson (spaced before v after) =
      (all is_neutral before ≡ true) × (all is_neutral after ≡ true) × IsJson v

  pub AreJsonElements : Elements → Type 0
  AreJsonElements no_elements = Unit
  AreJsonElements (element v vs) = IsJson v × AreJsonElements vs

  pub AreJsonMembers : Members → Type 0
  AreJsonMembers no_members = Unit
  AreJsonMembers (member before k after v fs) =
      (all is_neutral before ≡ true)
      × AreEscaped k
      × (all is_neutral after ≡ true)
      × IsJson v
      × AreJsonMembers fs

-- Outside strings, `d` brackets deep, with the maximum `m` so far.
abbrev at : ℕ → ℕ → Scan
at d m = record { depth = pos d; maximum = m; in_string = false; escaped = false }

abbrev inside : ℕ → ℕ → Scan
inside d m = record { depth = pos d; maximum = m; in_string = true; escaped = false }

scan-quoted :
    (d m : ℕ) (s : List Piece) (rest : List ℕ)
    → AreEscaped s
    → scan_all (inside d m) (quoted s ++ 0x22 ∷ rest) ≡ scan_all (at d m) rest
unfolding scan_all
scan-quoted d m [] rest h = refl
scan-quoted d m (byte c ∷ s) rest (p, h) = ground (arith, p, scan-quoted d m s rest h)
scan-quoted d m (escape c ∷ s) rest h = scan-quoted d m s rest h

scan-json_str :
    (d m : ℕ) (s : List Piece) (rest : List ℕ)
    → AreEscaped s
    → scan_all (at d m) (json_str s ++ rest) ≡ scan_all (at d m) rest
unfolding scan_all
scan-json_str d m s rest h = rw append_assoc (scan-quoted d m s rest h)

scan-neutral :
    (d m : ℕ) (n : List ℕ) (rest : List ℕ)
    → all is_neutral n ≡ true
    → scan_all (at d m) (n ++ rest) ≡ scan_all (at d m) rest
unfolding scan_all
scan-neutral d m [] rest h = refl
scan-neutral d m (c ∷ n) rest h = ground (arith, scan-neutral d m n rest)

-- A key with its white space and the colon.
scan-key :
    (d m : ℕ) (before : List ℕ) (k : List Piece) (after rest : List ℕ)
    → all is_neutral before ≡ true
    → AreEscaped k
    → all is_neutral after ≡ true
    → scan_all (at d m) (before ++ (json_str k ++ (after ++ b':' ∷ rest))) ≡ scan_all (at d m) rest
unfolding scan_all
scan-key d m before k after rest p q r =
    scan-neutral d m before (json_str k ++ (after ++ b':' ∷ rest)) p
    ∙ scan-json_str d m k (after ++ b':' ∷ rest) q
    ∙ scan-neutral d m after (b':' ∷ rest) r

same_maximum :
    (d : ℕ) (rest : List ℕ) {m m' : ℕ} → m ≡ m' → scan_all (at d m) rest ≡ scan_all (at d m') rest
same_maximum d rest e = ap (λ m. scan_all (at d m) rest) e

mutual
  unfolding scan_all

  scan-json :
      (v : Written) (d m : ℕ) (rest : List ℕ)
      → IsJson v
      → d ≤ m
      → scan_all (at d m) (json v rest) ≡ scan_all (at d (max m (d + depth_of v))) rest
  scan-json (plain n) d m rest h le = scan-neutral d m n rest h ∙ same_maximum d rest (omega arith)
  scan-json (text s) d m rest h le = scan-json_str d m s rest h ∙ same_maximum d rest (omega arith)
  scan-json (spaced before v after) d m rest (p, q, h) le =
      scan-neutral d m before (json v (after ++ rest)) p
      ∙ scan-json v d m (after ++ rest) h le
      ∙ scan-neutral d (max m (d + depth_of v)) after rest q
  scan-json (array space no_elements) d m rest (p, h) le =
      scan-neutral (suc d) (max m (suc d)) space (b']' ∷ rest) p ∙ same_maximum d rest (omega arith)
  scan-json (array space (element v vs)) d m rest (p, h) le =
      scan-neutral (suc d) (max m (suc d)) space (json v (json_elements vs (b']' ∷ rest))) p
      ∙ scan-json v (suc d) (max m (suc d)) (json_elements vs (b']' ∷ rest)) h.0 (omega arith)
      ∙ scan-elements vs (suc d) (max (max m (suc d)) (suc d + depth_of v)) (b']' ∷ rest) h.1
          (omega arith)
      ∙ same_maximum d rest (omega arith)
  scan-json (object space no_members) d m rest (p, h) le =
      scan-neutral (suc d) (max m (suc d)) space (b'}' ∷ rest) p ∙ same_maximum d rest (omega arith)
  scan-json (object space (member before k after v fs)) d m rest (p, (q, r, t, h, hs)) le =
      let more = json v (json_members fs (b'}' ∷ rest)) in
      scan-neutral (suc d) (max m (suc d)) space (before ++ (json_str k ++ (after ++ b':' ∷ more)))
        p
      ∙ scan-key (suc d) (max m (suc d)) before k after more q r t
      ∙ scan-json v (suc d) (max m (suc d)) (json_members fs (b'}' ∷ rest)) h (omega arith)
      ∙ scan-members fs (suc d) (max (max m (suc d)) (suc d + depth_of v)) (b'}' ∷ rest) hs
          (omega arith)
      ∙ same_maximum d rest (omega arith)

  scan-elements :
      (vs : Elements) (d m : ℕ) (rest : List ℕ)
      → AreJsonElements vs
      → d ≤ m
      → scan_all (at d m) (json_elements vs rest)
        ≡ scan_all (at d (max m (d + depth_elements vs))) rest
  scan-elements no_elements d m rest h le = same_maximum d rest (omega arith)
  scan-elements (element v vs) d m rest (p, h) le =
      scan-json v d m (json_elements vs rest) p le
      ∙ scan-elements vs d (max m (d + depth_of v)) rest h (omega arith)
      ∙ same_maximum d rest (omega arith)

  scan-members :
      (fs : Members) (d m : ℕ) (rest : List ℕ)
      → AreJsonMembers fs
      → d ≤ m
      → scan_all (at d m) (json_members fs rest)
        ≡ scan_all (at d (max m (d + depth_members fs))) rest
  scan-members no_members d m rest h le = same_maximum d rest (omega arith)
  scan-members (member before k after v fs) d m rest (q, r, t, h, hs) le =
      scan-key d m before k after (json v (json_members fs rest)) q r t
      ∙ scan-json v d m (json_members fs rest) h le
      ∙ scan-members fs d (max m (d + depth_of v)) rest hs (omega arith)
      ∙ same_maximum d rest (omega arith)

-- The depth measured over the bytes of a JSON document in UTF-8, or in another encoding in which
-- quotes, backslashes and brackets are the bytes of ASCII and no other character has such a byte, is
-- the depth to which its arrays and objects are nested, wherever its white space stands and
-- whatever its strings hold: brackets and escaped quotes inside strings do not count.
pub nesting_depth-json : (v : Written) → IsJson v → nesting_depth (json v []) ≡ depth_of v
unfolding nesting_depth
nesting_depth-json v h =
    ap (λ (s : Scan). s.maximum) (scan-json v 0 0 [] h (omega arith)) ∙ omega arith
