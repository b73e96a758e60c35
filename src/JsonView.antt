-- ===== src/JsonView.antt =====
-- app/web/json_view.py: a body as nested HTML. What markupsafe.escape and str of an int give is the
-- parameter `Html`.
pub mod Tags
pub mod Markup
mod Tests
use webhook_inbox.Prelude.{
  ℕ, suc, ◌+◌, ◌≡◌, Bool, true, false, List, [], ◌∷◌, ◌++◌, if◌then◌else◌, ltb,
}
use webhook_inbox.Prelude.Text.{Str, codes, has_char}
use webhook_inbox.Json.{
  Value, null, bool, num, str, list, dict, Items, nil, cons, Fields, end, field,
}

-- Neither an escaped text nor a number has the character that opens a tag.
pub record Html : Type 0 where
  pub escape : Str → Str
  pub decimal : ℕ → Str
  pub escape_opens : (s : Str) → has_char (escape s) b'<' ≡ false
  pub decimal_opens : (n : ℕ) → has_char (decimal n) b'<' ≡ false

abbrev pub auto_open_depth : ℕ
auto_open_depth = 2

abbrev pub bool_text : Bool → Str
bool_text true = codes "true"
bool_text false = codes "false"

abbrev pub length_items : Items → ℕ
length_items nil = 0
length_items (cons v vs) = suc (length_items vs)

abbrev pub length_fields : Fields → ℕ
length_fields end = 0
length_fields (field key v fs) = suc (length_fields fs)

module _ (t : Html) where
  unfoldable pub scalar_number : Str → Str
  scalar_number n = codes "<span class=\"j-num\">" ++ (t.escape n ++ codes "</span>")

  unfoldable pub scalar_text : Str → Str
  scalar_text s = codes "<span class=\"j-str\">\"" ++ (t.escape s ++ codes "\"</span>")

  unfoldable pub wrap : Str → Str → ℕ → Str
  wrap summary rows depth =
      codes "<details class='j-node'"
      ++ ((if ltb depth auto_open_depth then codes " open" else [])
          ++ (codes "><summary class=\"j-summary\">"
              ++ (t.escape summary
                  ++ (codes "</summary><div class=\"j-children\">"
                      ++ (rows ++ codes "</div></details>")))))

  unfoldable mutual
    pub render_value : Value → ℕ → Str
    render_value null depth = codes "<span class=\"j-null\">null</span>"
    render_value (bool b) depth =
        codes "<span class=\"j-bool\">" ++ (bool_text b ++ codes "</span>")
    render_value (num n) depth = scalar_number n
    render_value (str s) depth = scalar_text s
    render_value (list nil) depth = codes "<span class=\"j-punct\">[]</span>"
    render_value (list (cons v vs)) depth =
        wrap (codes "[" ++ (t.decimal (length_items (cons v vs)) ++ codes "]"))
          (render_items (cons v vs) 0 depth) depth
    render_value (dict end) depth = codes "<span class=\"j-punct\">{}</span>"
    render_value (dict (field key v fs)) depth =
        wrap (codes "{" ++ (t.decimal (length_fields (field key v fs)) ++ codes "}"))
          (render_fields (field key v fs) depth) depth

    pub render_items : Items → ℕ → ℕ → Str
    render_items nil index depth = []
    render_items (cons v vs) index depth =
        (codes "<div class=\"j-row\"><span class=\"j-index\">"
          ++ (t.decimal index
              ++ (codes "</span><span class=\"j-punct\">:</span> "
                  ++ (render_value v (suc depth) ++ codes "</div>"))))
        ++ render_items vs (suc index) depth

    pub render_fields : Fields → ℕ → Str
    render_fields end depth = []
    render_fields (field key v fs) depth =
        (codes "<div class=\"j-row\"><span class=\"j-key\">"
          ++ (t.escape key
              ++ (codes "</span><span class=\"j-punct\">:</span> "
                  ++ (render_value v (suc depth) ++ codes "</div>"))))
        ++ render_fields fs depth

  unfoldable pub render_json : Value → Str
  unfolding render_value
  render_json v = codes "<div class=\"json-view\">" ++ (render_value v 0 ++ codes "</div>")
