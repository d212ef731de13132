-- ===== src/Archive.antt =====
-- gossip_archiver: what a collector sent is decoded, split into one record per table, buffered, and
-- written in batches.
pub mod Records
pub mod Decode
pub mod Decoder
pub mod Ticker
pub mod Writer
pub mod Insert
pub mod Stored
