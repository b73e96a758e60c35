-- ===== src/Search.antt =====
-- app/search: the terms under which events are found.
pub mod Tokenize
pub mod Query
pub mod Ranking
pub mod Paging
pub mod Params
pub mod Backfill
pub mod Samples
mod Tests
