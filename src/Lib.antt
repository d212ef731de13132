-- ===== src/Lib.antt =====
-- gossip observer: collectors are Lightning nodes that listen to gossip, a controller assigns them
-- to communities and compares what they know, and an archiver stores what they heard.
--
-- What comes from the crates (public keys, socket addresses, on-chain addresses) is the parameter
-- `Extern`, with the round trips of its printers and parsers in `Codecs`; the answers of a service
-- (a gRPC peer, NATS, a database, a clock) are function arguments or events. A HashMap is an
-- association list without duplicate keys, whose order stands for the iteration order; a text is a
-- list of code points; an actor's mailbox is the list of messages that it handles; a loop over
-- `select!` is a function of the list of events that wake it.
--
-- A collector's node queues the gossip that it exports; the queue is published in batches (Export).
-- The archiver decodes the batches and writes them in batches of its own (Archive). The collector
-- reports to the controller (Ping), which hands out peers (Upload, Peers) and receives the
-- collector's graph in chunks (Upload, Wire); the actor of the controller keeps them (Manager) and
-- compares them (GraphDiff).
--
-- - Types: observer_common/src/types.rs. Types/Peers has the peer records and their order,
--   Types/Gossip the gossip records and their comparisons and merges, Types/Collector the records
--   about collectors.
-- - GraphDiff: `compute_graph_differences` of observer_controller/src/collector_manager.rs, in
--   GraphDiff/Combine (the combined view) and GraphDiff/Compare (each collector against it).
-- - Manager: the actor of the same file. Manager/Handle has `handle_msg` and the loop over the
--   mailbox, Manager/Status has `compute_status`, Manager/Assignment `handle_collector_info`, and
--   Manager/Differ the task that compares the graphs on a schedule.
-- - Peers: the actor of gossip_collector/src/peer_conn_manager.rs. Peers/State has its `handle_msg`,
--   Peers/Rotation the choice of the next peer, Peers/Connect one attempt to connect,
--   Peers/Monitor the watchdog that starts the attempts.
-- - Wire: the messages of observer_common/src/gen and their conversions in
--   observer_common/src/types.rs, with the text helpers of observer_common/src/util.rs.
-- - Archive: gossip_archiver/src/lib.rs and main.rs. Archive/Records and Archive/Decode have the
--   messages and their decoding, Archive/Decode/Numbers and Archive/Decode/Report a printer of the
--   format that it reads, Archive/Decoder, Archive/Ticker and Archive/Writer the tasks,
--   Archive/Insert the insertions into the database, Archive/Stored the way from the decoder to the
--   writer. The crates and services of this part are the parameter `Feed`,
--   and the crates that print for it the parameter `Printer`.
-- - Upload: observer_common/src/collector_client.rs and controller_client.rs with the handlers of
--   the two grpc_server.rs files that they call. Upload/Schedule has `upload_gossip_graph` of
--   gossip_collector/src/main.rs, which sends a graph at each time of a schedule; a request may be
--   lost, and so may its answer (`Fate`).
-- - Communities: what `async_main` of observer_controller/src/main.rs computes before it starts its
--   tasks. Communities/Sampling has the number of connections of each community; floating point
--   numbers are the parameter `Floats`.
-- - Register: the handlers of a collector's registration and status in
--   observer_controller/src/grpc_server.rs, with the conversion of
--   observer_controller/src/csv_reader.rs.
-- - Export: `queue_exported_msg` and `publish_msgs` of gossip_collector/src/exporter.rs.
-- - Channels: how the controller has a collector open and update channels, in the two grpc_server.rs
--   files and gossip_collector/src/node_manager.rs; ldk-node is the parameter `LdkNode`.
-- - Pipeline: the exporter and the archiver's decoder end to end, and with the archiver's writer in
--   Pipeline/Stored.
-- - RateLimit: observer_common/src/token_bucket.rs; tokio's semaphores are the parameter `Semaphore`.
-- - Ping: `ping_controller` of gossip_collector/src/main.rs.
-- - Reach: `maybe_reachable` of gossip_analyze/src/main.rs.
-- - Analyze: commands of the same file. Analyze/Extract sorts addresses by `maybe_reachable`,
--   Analyze/Writer writes a file of JSON values, where the file is the parameter `Output` whose
--   operations may fail, Analyze/Stable waits until the graph has stopped
--   growing.
--
-- Sums of `u32` wrap around as in a release build. Loops are structural recursion on a list or on
-- the list of events, but for two that run on fuel: the chunks of a list, where the length of the
-- list is enough because a chunk takes at least one element (Upload/Chunks), and the wait of
-- Analyze/Stable, where six checks more than the check from which the count stays the same are
-- enough.
--
-- Not modelled: the CSV, JSON, NATS, gRPC, Tor and Electrum input and output, configuration and
-- logging, the start of the tasks and servers, the rest of gossip_analyze and of the gRPC handlers,
-- and the analysis scripts, because they are input and output or calls of crates for the most part.
pub mod Prelude
pub mod Extern
pub mod Types
pub mod GraphDiff
pub mod Manager
pub mod Peers
pub mod Wire
pub mod Archive
pub mod Upload
pub mod Export
pub mod Ping
pub mod Tests
pub mod Reach
pub mod Channels
pub mod Communities
pub mod Register
pub mod Pipeline
pub mod RateLimit
pub mod Analyze
