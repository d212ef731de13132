-- ===== src/GraphDiff.antt =====
-- observer_controller/src/collector_manager.rs, the differ: the graphs that collectors pushed, the
-- view that combines them, and how far each collector is from it.
pub mod Combine
pub mod Compare
pub mod Counts
pub mod Covered
pub mod Totals
use gossip_observer.Extern.{Extern}
use gossip_observer.Prelude.{ℕ, List}
use gossip_observer.Prelude.Text.{Text}
use gossip_observer.Types.Gossip.{GossipNodeInfo, GossipChannelInfo}

pub record CollectorGossipGraph (x : Extern) : Type 0 where
  pub nodes : List (GossipNodeInfo x)
  pub channels : List (GossipChannelInfo x)

-- Each field is a `u32`.
pub record GraphDiff : Type 0 where
  pub known_nodes : ℕ
  pub missing_nodes : ℕ
  pub matching_node_info : ℕ
  pub missing_node_info : ℕ
  pub stale_node_info : ℕ
  pub known_channels : ℕ
  pub missing_channels : ℕ
  pub matching_channel_direction : ℕ
  pub missing_channel_direction : ℕ
  pub stale_channel_direction : ℕ

pub record FullGraphDiff (x : Extern) : Type 0 where
  pub diffs : List (Text × GraphDiff)
  pub graphs : List (Text × CollectorGossipGraph x)
  pub controller_graph : CollectorGossipGraph x
