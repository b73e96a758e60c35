-- ===== src/Search/Query/Cursors.antt =====
-- app/search/query.py: a cursor is read back from its text.
use webhook_inbox.Prelude.{ℕ, ◌≡◌, refl, ◌∙◌, ap, false, [], ◌∷◌, ◌++◌, none, some, is_empty}
use webhook_inbox.Prelude.Text.{Str, split_on, split_on-append, split_on_plain}
use webhook_inbox.Search.Query.{Formats, encode, decode, encode_with, of_parts, listed, ranked}

is_empty-append : (s : Str) (c : ℕ) (t : Str) → is_empty (s ++ c ∷ t) ≡ false
is_empty-append [] c t = refl
is_empty-append (a ∷ s) c t = refl

module _ (f : Formats) where
  decode_filled :
      (text : Str) → is_empty text ≡ false → decode f (some text) ≡ of_parts f (split_on b'|' text)
  unfolding decode
  decode_filled text h = rw (h, decode) refl

  pub decode-encode_listed :
      (t : ℕ)
      → decode f (some (encode f (record { received_at = t; score = none; event_id = none })))
        ≡ some (record { received_at = t; score = none; event_id = none })
  unfolding encode encode_with of_parts listed
  decode-encode_listed t =
      decode_filled (f.isoformat t) (f.isoformat_filled t)
      ∙ ap (of_parts f) (split_on_plain (f.isoformat t) b'|' (f.isoformat_plain t))
      ∙ ap (listed f) (f.fromisoformat-isoformat t)

  three :
      (s t id : ℕ)
      → split_on b'|' (f.score_text s ++ b'|' ∷ (f.isoformat t ++ b'|' ∷ f.hex id))
        ≡ f.score_text s ∷ f.isoformat t ∷ f.hex id ∷ []
  three s t id = cc (
    split_on-append (f.score_text s) (f.isoformat t ++ b'|' ∷ f.hex id) b'|' (f.score_text_plain s),
    split_on-append (f.isoformat t) (f.hex id) b'|' (f.isoformat_plain t),
    split_on_plain (f.hex id) b'|' (f.hex_plain id),
  )

  pub decode-encode_ranked :
      (s t id : ℕ)
      → decode f (some (encode f (record { received_at = t; score = some s; event_id = some id })))
        ≡ some (record { received_at = t; score = some s; event_id = some id })
  unfolding encode encode_with of_parts ranked
  decode-encode_ranked s t id =
      decode_filled (f.score_text s ++ b'|' ∷ (f.isoformat t ++ b'|' ∷ f.hex id))
        (is_empty-append (f.score_text s) b'|' (f.isoformat t ++ b'|' ∷ f.hex id))
      ∙ ap (of_parts f) (three s t id)
      ∙ cc (f.fromisoformat-isoformat t, f.float-score_text s, f.object_id-hex id)
