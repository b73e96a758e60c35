-- ===== src/Export/Lines.antt =====
-- app/export.py: what the pieces of the streams are together.
use webhook_inbox.Prelude.{◌≡◌, List, [], ◌∷◌, ◌++◌, map}
use webhook_inbox.Prelude.Text.{Str, codes, Unicode, split_on}
use webhook_inbox.Event.{Event}
use webhook_inbox.Search.Query.{Formats, Filters}
use webhook_inbox.Export.Everything.{IsEveryMatch}
use webhook_inbox.Export.{Printers, public, streamed, export_events}

abbrev pub joined : List Str → Str
joined [] = []
joined (piece ∷ pieces) = piece ++ joined pieces

-- separator.join(values)
abbrev pub join : Str → List Str → Str
join separator [] = []
join separator (v ∷ []) = v
join separator (v ∷ w ∷ values) = v ++ (separator ++ join separator (w ∷ values))

abbrev pub printed : Formats → Printers → Event → Str
printed f p e = p.dumps (public f e)

module _ (u : Unicode) (f : Formats) (p : Printers) (events : List Event) where
  -- The two exports of these events.
  pub record IsWrittenOut (query : Str) (filters : Filters) (rows : List Event) : Type 0 where
    pub every_match : IsEveryMatch u f events query filters rows
    pub lines : List Str
    pub as_lines : export_events u f p events query filters (codes "jsonl") ≡ streamed lines
    pub one_each : split_on 10 (joined lines) ≡ map (printed f p) rows ++ [] ∷ []
    pub pieces : List Str
    pub as_json : export_events u f p events query filters (codes "json") ≡ streamed pieces
    pub bracketed :
        joined pieces
        ≡ (b'[' ∷ 10 ∷ [])
          ++ (join (b',' ∷ 10 ∷ []) (map (printed f p) rows) ++ (10 ∷ b']' ∷ 10 ∷ []))
