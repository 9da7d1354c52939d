-- ===== src/Bucket.antt =====
-- app/core/hydra/swamp/bucket: an index of a swamp's treasures by the value of one field.
pub mod Canon
pub mod Extract
pub mod Slots
pub mod State
pub mod Find
pub mod Index
pub mod Update
pub mod Replay
pub mod Among
pub mod Exact
pub mod Shared
pub mod Order
pub mod Synced
pub mod Notify
pub mod Drain
pub mod Steps
pub mod Lookups
pub mod Keys
pub mod Union
pub mod Tests
