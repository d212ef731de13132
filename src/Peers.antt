-- ===== src/Peers.antt =====
-- gossip_collector/src/peer_conn_manager.rs: the actor that holds the peers a collector may connect
-- to and the connections that are pending, and the task that tries to connect to a peer.
pub mod State
pub mod Eligible
pub mod Rotation
pub mod Pending
pub mod Connect
pub mod Monitor
