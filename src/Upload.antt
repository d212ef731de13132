-- ===== src/Upload.antt =====
-- The two transfers that are cut into several requests: a collector's gossip graph to the controller
-- (`ControllerClient::send_gossip_graph` and its handler) and the eligible peers to a collector
-- (`CollectorClient::send_eligible_peers` and its handler).
pub mod Chunks
pub mod Graph
pub mod Received
pub mod Schedule
pub mod Delivered
pub mod Readable
pub mod Uploaded
pub mod EligiblePeers
