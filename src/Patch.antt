-- ===== src/Patch.antt =====
-- app/core/hydra/swamp/treasure/msgpackpatch: changes of MessagePack data in place.
pub mod Codes
pub mod Errors
pub mod Msgpack
pub mod Skeleton
pub mod Parse
pub mod Fields
pub mod Path
pub mod Resolve
pub mod Numeric
pub mod Apply
pub mod Condition
pub mod Tests
