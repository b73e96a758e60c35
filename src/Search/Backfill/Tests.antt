-- ===== src/Search/Backfill/Tests.antt =====
-- A backfill of two events, one of which has its terms.
use webhook_inbox.Prelude.{◌≡◌, refl, true, false, not, ◌||◌, List, [], ◌∷◌, map, length, All}
use webhook_inbox.Prelude.Sort.{select}
use webhook_inbox.Prelude.Text.{ascii_case}
use webhook_inbox.Search.Samples.{ping}
use webhook_inbox.Search.Backfill.{Stored, operation, backfill, write_batches}
use webhook_inbox.Search.Backfill.Batches.{flattened, IsBatch, backfill-batches}

abbrev documents : List Stored
documents =
    record { event = ping 1; has_search = false }
    ∷ record { event = ping 2; has_search = true }
    ∷ []

one_written : (backfill ascii_case false documents).1 ≡ 1
unfolding backfill write_batches
one_written = refl

backfill-batches_example :
    (flattened (backfill ascii_case false documents).0
      ≡ map (operation ascii_case) (select (λ d. false || not d.has_search) documents))
    × All IsBatch (backfill ascii_case false documents).0
    × ((backfill ascii_case false documents).1
        ≡ length (select (λ d. false || not d.has_search) documents))
backfill-batches_example = backfill-batches ascii_case false documents
