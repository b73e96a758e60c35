-- ===== src/Search/Tokenize/Secrets.antt =====
-- No value under a sensitive key becomes a search term.
use webhook_inbox.Prelude.{◌≡◌, refl, [], ◌∷◌, Option, arith, if◌then◌else◌}
use webhook_inbox.Prelude.Text.{Str, Unicode}
use webhook_inbox.Prelude.Dict.{Dict}
use webhook_inbox.Json.{
  Value, null, bool, num, str, list, dict, Items, nil, cons, Fields, end, field,
}
use webhook_inbox.Log.{is_sensitive}
use webhook_inbox.Search.Tokenize.{
  collect, collect_items, collect_fields, pair_strings, source_strings, build,
}

module _ (u : Unicode) where
  -- The pairs whose key is not sensitive.
  abbrev pub without_secrets : Dict Str → Dict Str
  without_secrets [] = []
  without_secrets ((k, v) ∷ d) =
      if is_sensitive u k then without_secrets d else (k, v) ∷ without_secrets d

  abbrev mutual
    -- The body without its sensitive fields, at every depth.
    pub cleaned : Value → Value
    cleaned (list xs) = list (cleaned_items xs)
    cleaned (dict fs) = dict (cleaned_fields fs)
    cleaned null = null
    cleaned (bool b) = bool b
    cleaned (num n) = num n
    cleaned (str s) = str s

    pub cleaned_items : Items → Items
    cleaned_items nil = nil
    cleaned_items (cons v vs) = cons (cleaned v) (cleaned_items vs)

    pub cleaned_fields : Fields → Fields
    cleaned_fields end = end
    cleaned_fields (field k v fs) =
        if is_sensitive u k then cleaned_fields fs else field k (cleaned v) (cleaned_fields fs)

  pair_strings-cleaned : (d : Dict Str) → pair_strings u (without_secrets d) ≡ pair_strings u d
  unfolding pair_strings
  pair_strings-cleaned [] = refl
  pair_strings-cleaned ((k, v) ∷ d) = ground (arith, pair_strings-cleaned d)

  mutual
    unfolding collect

    collect-cleaned : (v : Value) → collect u (cleaned v) ≡ collect u v
    collect-cleaned null = refl
    collect-cleaned (bool b) = refl
    collect-cleaned (num n) = refl
    collect-cleaned (str s) = refl
    collect-cleaned (list xs) = collect_items-cleaned xs
    collect-cleaned (dict fs) = collect_fields-cleaned fs

    collect_items-cleaned : (xs : Items) → collect_items u (cleaned_items xs) ≡ collect_items u xs
    collect_items-cleaned nil = refl
    collect_items-cleaned (cons v vs) = cc (collect-cleaned v, collect_items-cleaned vs)

    collect_fields-cleaned :
        (fs : Fields) → collect_fields u (cleaned_fields fs) ≡ collect_fields u fs
    collect_fields-cleaned end = refl
    collect_fields-cleaned (field k v fs) =
        ground (arith, collect-cleaned v, collect_fields-cleaned fs)

  -- The terms of an event are those of the event with every sensitive header, query parameter and
  -- body field left out: a secret under such a key cannot be found by searching.
  pub build-cleaned :
      (endpoint_name : Str) (event_type : Option Str) (headers query : Dict Str) (body : Value)
      → build u endpoint_name event_type headers query body
        ≡ build u endpoint_name event_type
            (without_secrets headers)
            (without_secrets query)
            (cleaned body)
  unfolding build source_strings
  build-cleaned endpoint_name event_type headers query body =
      rw (pair_strings-cleaned headers, pair_strings-cleaned query, collect-cleaned body)
