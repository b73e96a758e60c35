-- ===== src/Export/Tests.antt =====
-- An export of an event whose status begins like a formula.
use webhook_inbox.Prelude.{ℕ, zero, suc, ◌≡◌, refl, List, [], ◌∷◌, All, false}
use webhook_inbox.Prelude.Text.{codes, ascii_case, has_char}
use webhook_inbox.Event.{Event}
use webhook_inbox.Search.Samples.{formats, ping, no_filters, ticks}
use webhook_inbox.Search.Ranking.{stream_events}
use webhook_inbox.Export.{Printers, cells_of, csv_row, csv_safe, text, documents_of}
use webhook_inbox.Export.Cells.{IsPlain, ShowsRow, csv_row-IsPlain}

quoted : csv_safe (text (codes "=1+1")) ≡ text (codes "'=1+1")
unfolding csv_safe
quoted = refl

ticks_one_line : (n : ℕ) → has_char (ticks n) 10 ≡ false
ticks_one_line zero = refl
ticks_one_line (suc n) = ticks_one_line n

abbrev printers : Printers
printers = record {
  dumps = λ p. ticks p.received_at;
  writerow = λ row. [];
  dumps_one_line = λ p. ticks_one_line p.received_at;
}

abbrev formula : Event
formula = record (ping 1) { status = codes "=1+1" }

csv_row-IsPlain_example :
    All IsPlain (csv_row formats formula)
    × ShowsRow (cells_of formats formula) (csv_row formats formula)
csv_row-IsPlain_example = csv_row-IsPlain formats formula

abbrev rows : List Event
rows = documents_of (stream_events ascii_case formats (formula ∷ []) [] no_filters)
