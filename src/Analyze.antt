-- ===== src/Analyze.antt =====
-- gossip_analyze/src/main.rs: the commands of the tool that collects addresses of nodes.
pub mod Writer
pub mod Extract
pub mod Parsed
pub mod Sorted
pub mod Stable
