-- ===== src/Patch/Apply.antt =====
-- `Apply` of msgpackpatch/apply.go, with the operations of append.go, inc.go, merge.go and remove.go.
pub mod Create
pub mod Ops
pub mod Merge
pub mod Run
pub mod Update
pub mod Reads
pub mod Keeps
pub mod Frame
pub mod Inc
pub mod Merged
pub mod Delete
pub mod Append
pub mod Clone
