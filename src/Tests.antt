-- ===== src/Tests.antt =====
-- The theorems at concrete inputs, with the crates' types replaced by numbers in `World`.
pub mod World
pub mod Differ
pub mod Actor
pub mod Peering
pub mod Differing
pub mod Wires
pub mod Archiver
pub mod Uploading
pub mod Exporting
pub mod Pinging
pub mod Reaching
pub mod Registering
pub mod Opening
pub mod Scheduling
pub mod Limiting
pub mod Analyzing
pub mod Relaying
