-- ===== src/Types.antt =====
-- observer_common/src/types.rs: the domain types that every crate of the workspace shares.
pub mod Peers
pub mod Gossip
pub mod Newest
pub mod Collector
