-- ===== src/Replay.antt =====
-- app/replay: resending a stored event to a destination that a user names.
pub mod Headers
pub mod Address
pub mod Destination
pub mod Runner
mod Tests
pub mod Queue
pub mod Creation
