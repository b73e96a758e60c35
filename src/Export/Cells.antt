-- ===== src/Export/Cells.antt =====
-- app/export.py: no cell of a row is taken for a formula.
use webhook_inbox.Prelude.{
  ◌≡◌, refl, false, List, [], ◌∷◌, map, All, ◌==◌, arith, Bool-cases, inl, inr, ◌⊎◌,
}
use webhook_inbox.Prelude.Text.{Str}
use webhook_inbox.Event.{Event}
use webhook_inbox.Search.Query.{Formats}
use webhook_inbox.Export.{Cell, text, number, absent, starts_formula, csv_safe, csv_row, cells_of}

-- The six characters at which a spreadsheet begins a formula: =, +, -, @, tab and carriage return.
abbrev pub formula_starts : Str
formula_starts = b'=' ∷ b'+' ∷ b'-' ∷ b'@' ∷ 9 ∷ 13 ∷ []

-- A cell that begins with none of them.
abbrev pub IsPlain : Cell → Type 0
IsPlain (text []) = Unit
IsPlain (text (c ∷ s)) = All (λ start. (c == start) ≡ false) formula_starts
IsPlain (number n) = Unit
IsPlain absent = Unit

-- The value that was put into the cell, of a cell in its place.
abbrev pub IsShown : Cell → Cell → Type 0
IsShown (text s) (text t) = (t ≡ s) ⊎ (t ≡ 0x27 ∷ s)
IsShown (number n) (number m) = m ≡ n
IsShown absent absent = Unit
IsShown (text s) _ = ⊥
IsShown (number n) _ = ⊥
IsShown absent _ = ⊥

no_formula-IsPlain : (s : Str) → starts_formula s ≡ false → IsPlain (text s)
no_formula-IsPlain [] h = tt
no_formula-IsPlain (c ∷ s) h = ground (arith, h)

csv_safe-IsPlain : (c : Cell) → IsPlain (csv_safe c) × IsShown c (csv_safe c)
unfolding csv_safe
csv_safe-IsPlain (text s) = elim (Bool-cases (starts_formula s)) [
  | inl formula ↦ rw formula ((refl, (refl, (refl, (refl, (refl, (refl, tt)))))), inr refl)
  | inr fine ↦ rw fine (no_formula-IsPlain s fine, inl refl)
]
csv_safe-IsPlain (number n) = (tt, refl)
csv_safe-IsPlain absent = (tt, tt)

safe_cells : (cells : List Cell) → All IsPlain (map csv_safe cells)
safe_cells [] = tt
safe_cells (c ∷ cells) = ((csv_safe-IsPlain c).0, safe_cells cells)

-- A row that shows the cells, each in its place.
abbrev pub ShowsRow : List Cell → List Cell → Type 0
ShowsRow [] [] = Unit
ShowsRow (c ∷ cells) (d ∷ row) = IsShown c d × ShowsRow cells row
ShowsRow [] (d ∷ row) = ⊥
ShowsRow (c ∷ cells) [] = ⊥

shown_cells : (cells : List Cell) → ShowsRow cells (map csv_safe cells)
shown_cells [] = tt
shown_cells (c ∷ cells) = ((csv_safe-IsPlain c).1, shown_cells cells)

-- No cell of a row, of whatever was sent, begins with =, +, -, @, a tab or a carriage return; and
-- each shows its value, as it is or behind a single quote.
pub csv_row-IsPlain :
    (f : Formats) (e : Event) → All IsPlain (csv_row f e) × ShowsRow (cells_of f e) (csv_row f e)
unfolding csv_row
csv_row-IsPlain f e = (safe_cells (cells_of f e), shown_cells (cells_of f e))
