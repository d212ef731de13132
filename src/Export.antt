-- ===== src/Export.antt =====
-- gossip_collector/src/exporter.rs: the two tasks of `NATSExporter`. One adds the collector's name to
-- each gossip message and drops those of recently connected peers, the other publishes in batches.
pub mod Queue
pub mod Publish
