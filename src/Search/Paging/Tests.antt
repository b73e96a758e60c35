-- ===== src/Search/Paging/Tests.antt =====
-- Pages of a small inbox.
use webhook_inbox.Prelude.{ℕ, ◌≡◌, refl, List, [], ◌∷◌, none, some}
use webhook_inbox.Prelude.Sort.{sort_by}
use webhook_inbox.Prelude.Text.{codes, ascii_case, ascii_lower, strip}
use webhook_inbox.Search.Tokenize.{normalize, split_terms, term_parts, trigrams}
use webhook_inbox.Event.{Event}
use webhook_inbox.Search.Query.{encode, decode}
use webhook_inbox.Search.Samples.{formats, ping, no_filters}
use webhook_inbox.Search.Ranking.{Hit, search, list_events, after_hit, after_event}
use webhook_inbox.Search.Paging.Complete.{decode-encode_after}

abbrev two : List Event
two = ping 1 ∷ ping 2 ∷ []

abbrev hit : ℕ → Hit
hit n = record { event = ping n; score = 400 }

-- A search for the token ranks the newer event first.
two_found : search ascii_case formats two (codes "demo") no_filters none none ≡ hit 2 ∷ hit 1 ∷ []
unfolding search sort_by normalize strip ascii_lower split_terms term_parts trigrams
two_found = refl

two_listed : list_events ascii_case formats two no_filters none none ≡ ping 2 ∷ ping 1 ∷ []
unfolding list_events sort_by
two_listed = refl

decode-encode_after_example :
    (decode formats (some (encode formats (after_hit (hit 2)))) ≡ some (after_hit (hit 2)))
    × (decode formats (some (encode formats (after_event (ping 2)))) ≡ some (after_event (ping 2)))
decode-encode_after_example = decode-encode_after formats (hit 2) (ping 2)
