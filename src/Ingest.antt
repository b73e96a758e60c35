-- ===== src/Ingest.antt =====
-- app/ingest: what happens to a webhook between the socket and the database.
pub mod Keys
pub mod Depth
pub mod Signature
pub mod Body
pub mod Incoming
pub mod Receiver
mod Tests
pub mod Samples
