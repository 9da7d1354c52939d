-- ===== src/Storage.antt =====
-- app/core/hydra/swamp/chronicler/v2: the append-only block file behind a swamp.
pub mod Errors
pub mod Header
pub mod BlockHeader
pub mod Entry
pub mod Checksum
pub mod Metadata
pub mod Block
pub mod OsFile
pub mod Writer
pub mod Reader
pub mod Sessions
pub mod Fragmentation
pub mod Compactor
pub mod Sample
pub mod Tests
pub mod TornTests
