-- ===== src/Json.antt =====
-- The parsed bodies: Python's None, bool, numbers, str, list and dict, as `json.loads`, `parse_qs` and
-- the database give them. A number is kept as the text that `str` prints of it, which is all that
-- the program reads of one.
use webhook_inbox.Prelude.{Bool, [], ◌∷◌, ◌≡◌, refl, ap}
use webhook_inbox.Prelude.Text.{Str}
use webhook_inbox.Prelude.Dict.{Dict}

mutual
  pub data Value : Type 0 where
    null : Value
    bool : Bool → Value
    num : Str → Value
    str : Str → Value
    list : Items → Value
    dict : Fields → Value

  pub data Items : Type 0 where
    nil : Items
    cons : Value → Items → Items

  pub data Fields : Type 0 where
    end : Fields
    field : Str → Value → Fields → Fields

-- value.items()
abbrev pub entries : Fields → Dict Value
entries end = []
entries (field k v fs) = (k, v) ∷ entries fs

abbrev pub of_entries : Dict Value → Fields
of_entries [] = end
of_entries ((k, v) ∷ d) = field k v (of_entries d)

pub of_entries-entries : (fs : Fields) → of_entries (entries fs) ≡ fs
of_entries-entries end = refl
of_entries-entries (field k v fs) = ap (field k v) (of_entries-entries fs)
