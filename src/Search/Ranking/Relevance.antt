-- ===== src/Search/Ranking/Relevance.antt =====
-- What the index scan of a search leaves out: nothing that its score would admit.
use webhook_inbox.Event.{Event}
