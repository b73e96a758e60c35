-- ===== src/JsonView/Markup.antt =====
-- app/web/json_view.py: no text in a body becomes markup.
use mathlib.Core.Path.{subst}
use webhook_inbox.Prelude.{ℕ, suc, ◌≡◌, refl, sym, ap, ◌∙◌, true, false, [], ◌++◌}
use webhook_inbox.Prelude.Text.{Str, codes}
use webhook_inbox.Json.{
  Value, null, bool, num, str, list, dict, Items, nil, cons, Fields, end, field,
}
use webhook_inbox.JsonView.{
  Html, length_items, length_fields, scalar_number, scalar_text, render_value, render_items,
  render_fields, render_json,
}
use webhook_inbox.JsonView.Tags.{
  tags, after, IsAlike, literal, IsAlike-append, behind_literal, before_literal, no_tags, escaped,
  wrap-IsAlike,
}

-- The value with all its texts, keys and numbers emptied.
abbrev mutual
  pub blank : Value → Value
  blank null = null
  blank (bool b) = bool b
  blank (num n) = num []
  blank (str s) = str []
  blank (list vs) = list (blank_items vs)
  blank (dict fs) = dict (blank_fields fs)

  pub blank_items : Items → Items
  blank_items nil = nil
  blank_items (cons v vs) = cons (blank v) (blank_items vs)

  pub blank_fields : Fields → Fields
  blank_fields end = end
  blank_fields (field key v fs) = field [] (blank v) (blank_fields fs)

spanned :
    (t : Html) (opening closing s : Str)
    → after false opening ≡ false
    → after false closing ≡ false
    → IsAlike false false (opening ++ (t.escape s ++ closing)) (opening ++ (t.escape [] ++ closing))
spanned t opening closing s o c =
    let inner : IsAlike false false (t.escape s ++ closing) (t.escape [] ++ closing) =
      subst (λ b. IsAlike false b (t.escape s ++ closing) (t.escape [] ++ closing)) c
        (before_literal false false (t.escape s) (t.escape []) closing (escaped t s [])) in
    behind_literal false false opening (t.escape s ++ closing) (t.escape [] ++ closing)
      (subst (λ b. IsAlike b false (t.escape s ++ closing) (t.escape [] ++ closing)) (sym o) inner)

-- str of an int has no angle bracket
decimal-IsAlike : (t : Html) (n : ℕ) → IsAlike false false (t.decimal n) (t.decimal n)
decimal-IsAlike t n rest rest' e =
    no_tags (t.decimal n) rest (t.decimal_opens n)
    ∙ e
    ∙ sym (no_tags (t.decimal n) rest' (t.decimal_opens n))

-- A row: what is in front, the key, what is between, and the value.
row-IsAlike :
    (front key key' value value' rows rows' : Str)
    → after false front ≡ false
    → IsAlike false false key key'
    → IsAlike false false value value'
    → IsAlike false false rows rows'
    → IsAlike false false
        ((front
            ++ (key
                ++ (codes "</span><span class=\"j-punct\">:</span> " ++ (value ++ codes "</div>"))))
          ++ rows)
        ((front
            ++ (key'
                ++ (codes "</span><span class=\"j-punct\">:</span> "
                    ++ (value' ++ codes "</div>"))))
          ++ rows')
row-IsAlike front key key' value value' rows rows' outside k v r =
    let colon = codes "</span><span class=\"j-punct\">:</span> " in
    let closing = codes "</div>" in
    let behind_key =
      behind_literal false false colon (value ++ closing) (value' ++ closing)
        (before_literal false false value value' closing v) in
    let keyed =
      IsAlike-append false false false key key' (colon ++ (value ++ closing))
        (colon ++ (value' ++ closing)) k behind_key in
    IsAlike-append false false false (front ++ (key ++ (colon ++ (value ++ closing))))
      (front ++ (key' ++ (colon ++ (value' ++ closing)))) rows rows'
      (behind_literal false false front (key ++ (colon ++ (value ++ closing)))
        (key' ++ (colon ++ (value' ++ closing)))
        (subst
          (λ b.
            IsAlike b false (key ++ (colon ++ (value ++ closing)))
              (key' ++ (colon ++ (value' ++ closing))))
          (sym outside) keyed))
      r

mutual
  unfolding render_value scalar_number scalar_text

  value-IsAlike :
      (t : Html) (v : Value) (depth : ℕ)
      → IsAlike false false (render_value t v depth) (render_value t (blank v) depth)
  value-IsAlike t null depth = literal false (codes "<span class=\"j-null\">null</span>")
  value-IsAlike t (bool true) depth = literal false (codes "<span class=\"j-bool\">true</span>")
  value-IsAlike t (bool false) depth = literal false (codes "<span class=\"j-bool\">false</span>")
  value-IsAlike t (num n) depth =
      spanned t (codes "<span class=\"j-num\">") (codes "</span>") n refl refl
  value-IsAlike t (str s) depth =
      spanned t (codes "<span class=\"j-str\">\"") (codes "\"</span>") s refl refl
  value-IsAlike t (list nil) depth = literal false (codes "<span class=\"j-punct\">[]</span>")
  value-IsAlike t (list (cons v vs)) depth =
      wrap-IsAlike t (codes "[" ++ (t.decimal (length_items (cons v vs)) ++ codes "]"))
        (codes "[" ++ (t.decimal (length_items (blank_items (cons v vs))) ++ codes "]"))
        (render_items t (cons v vs) 0 depth) (render_items t (blank_items (cons v vs)) 0 depth)
        depth (items-IsAlike t (cons v vs) 0 depth)
  value-IsAlike t (dict end) depth = literal false (codes "<span class=\"j-punct\">{}</span>")
  value-IsAlike t (dict (field key v fs)) depth =
      wrap-IsAlike t (codes "{" ++ (t.decimal (length_fields (field key v fs)) ++ codes "}"))
        (codes "{" ++ (t.decimal (length_fields (blank_fields (field key v fs))) ++ codes "}"))
        (render_fields t (field key v fs) depth)
        (render_fields t (blank_fields (field key v fs)) depth) depth
        (fields-IsAlike t (field key v fs) depth)

  items-IsAlike :
      (t : Html) (vs : Items) (index depth : ℕ)
      → IsAlike false false
          (render_items t vs index depth)
          (render_items t (blank_items vs) index depth)
  items-IsAlike t nil index depth = literal false []
  items-IsAlike t (cons v vs) index depth =
      row-IsAlike (codes "<div class=\"j-row\"><span class=\"j-index\">") (t.decimal index)
        (t.decimal index) (render_value t v (suc depth)) (render_value t (blank v) (suc depth))
        (render_items t vs (suc index) depth) (render_items t (blank_items vs) (suc index) depth)
        refl (decimal-IsAlike t index) (value-IsAlike t v (suc depth))
        (items-IsAlike t vs (suc index) depth)

  fields-IsAlike :
      (t : Html) (fs : Fields) (depth : ℕ)
      → IsAlike false false (render_fields t fs depth) (render_fields t (blank_fields fs) depth)
  fields-IsAlike t end depth = literal false []
  fields-IsAlike t (field key v fs) depth =
      row-IsAlike (codes "<div class=\"j-row\"><span class=\"j-key\">") (t.escape key) (t.escape [])
        (render_value t v (suc depth)) (render_value t (blank v) (suc depth))
        (render_fields t fs depth) (render_fields t (blank_fields fs) depth) refl (escaped t key [])
        (value-IsAlike t v (suc depth)) (fields-IsAlike t fs depth)

-- No text in a body becomes markup: the tags of the page are those of the same body with all texts,
-- keys and numbers emptied.
pub render_json-blank :
    (t : Html) (v : Value) → tags false (render_json t v) ≡ tags false (render_json t (blank v))
unfolding render_json
render_json-blank t v =
    ap (λ s. codes "<div class=\"json-view\">" ++ s)
      (value-IsAlike t v 0 (codes "</div>") (codes "</div>") refl)
