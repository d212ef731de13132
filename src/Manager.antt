-- ===== src/Manager.antt =====
-- observer_controller/src/collector_manager.rs: the actor that knows which collectors are alive,
-- which community each of them serves, and the graphs that they pushed. Its mailbox is the list of
-- messages that `run` takes, each with the time at which the actor handles it.
pub mod State
pub mod Handle
pub mod Registry
pub mod Uploads
pub mod Differ
pub mod Status
pub mod Assignment
