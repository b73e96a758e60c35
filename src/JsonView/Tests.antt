-- ===== src/JsonView/Tests.antt =====
-- A body that holds a tag.
use webhook_inbox.Prelude.{ℕ, ◌≡◌, refl, false, [], ◌∷◌, ◌++◌, if◌then◌else◌, ◌==◌, arith}
use webhook_inbox.Prelude.Text.{Str, codes, has_char}
use webhook_inbox.Json.{Value, str, dict, end, field}
use webhook_inbox.JsonView.{Html, render_json, scalar_text}
use webhook_inbox.JsonView.Tags.{tags}
use webhook_inbox.JsonView.Markup.{blank, render_json-blank}

abbrev escape_char : ℕ → Str
escape_char c =
    if c == b'&'
    then codes "&amp;"
    else if c == b'<'
    then codes "&lt;"
    else if c == b'>'
    then codes "&gt;"
    else if c == b'"'
    then codes "&#34;"
    else if c == 0x27
    then codes "&#39;"
    else c ∷ []

abbrev escape : Str → Str
escape [] = []
escape (c ∷ s) = escape_char c ++ escape s

escape_opens : (s : Str) → has_char (escape s) b'<' ≡ false
escape_opens [] = refl
escape_opens (c ∷ s) = ground (arith, escape_opens s)

abbrev html : Html
html = record {
  escape = escape;
  decimal = λ n. b'0' ∷ [];
  escape_opens = escape_opens;
  decimal_opens = λ n. refl;
}

abbrev body : Value
body = dict (field (codes "a") (str (codes "<b>")) end)

shown_escaped : scalar_text html (codes "<b>") ≡ codes "<span class=\"j-str\">\"&lt;b&gt;\"</span>"
unfolding scalar_text
shown_escaped = refl

render_json-blank_example :
    tags false (render_json html body) ≡ tags false (render_json html (blank body))
render_json-blank_example = render_json-blank html body
