-- ===== src/Manager/State.antt =====
-- The state of `CollectorManager`, its messages, and what it answers.
use gossip_observer.Extern.{Extern}
use gossip_observer.GraphDiff.{CollectorGossipGraph}
use gossip_observer.Prelude.{ℕ, List, [], Option}
use gossip_observer.Prelude.Map.{keys}
use gossip_observer.Prelude.Text.{Text}
use gossip_observer.Types.Collector.{CollectorInfo, CollectorHeartbeat}
use gossip_observer.Types.Gossip.{GossipNodeInfo, GossipChannelInfo}

-- observer_controller/src/csv_reader.rs
pub record NodeAnnotatedRecord : Type 0 where
  pub pubkey : Text
  pub net_type : Option Text
  pub sockets : Option Text
  pub alias : Option Text

-- observer_controller/src/lib.rs
pub record CommunityStats (x : Extern) : Type 0 where
  pub size : ℕ
  pub proportion : x.F64
  pub expected : x.F64
  pub stddev : x.F64
  pub connection_count : ℕ

pub record CollectionConfig (x : Extern) : Type 0 where
  pub collector_mapping : List (Text × ℕ)
  pub community_members : List (ℕ × List NodeAnnotatedRecord)
  pub community_stats : List (ℕ × CommunityStats x)

pub data CollectorState : Type 0 where
  new_collector active : CollectorState

-- A response channel in the source is a `Reply` here. `sweep_heartbeats` carries nanoseconds.
pub data CollectorManagerMsg (x : Extern) : Type 0 where
  add_collector : CollectorInfo x → CollectorManagerMsg x
  sweep_heartbeats : ℕ → CollectorManagerMsg x
  get_registered_collectors : CollectorManagerMsg x
  get_expected_collectors : CollectorManagerMsg x
  get_collector_assignment : Text → CollectorManagerMsg x
  get_collector_by_uuid : Text → CollectorManagerMsg x
  get_community_stats : ℕ → CollectorManagerMsg x
  get_all_community_stats : CollectorManagerMsg x
  get_community_members : ℕ → CollectorManagerMsg x
  push_gossip_nodes : Text → List (GossipNodeInfo x) → CollectorManagerMsg x
  push_gossip_channels : Text → List (GossipChannelInfo x) → CollectorManagerMsg x
  dump_collector_graphs : CollectorManagerMsg x

pub data Reply (x : Extern) : Type 0 where
  no_reply : Reply x
  state : CollectorState → Reply x
  heartbeats : List (CollectorHeartbeat x) → Reply x
  expected : List Text → Reply x
  assignment : Option ℕ → Reply x
  collector : Option (CollectorHeartbeat x) → Reply x
  stats : Option (CommunityStats x) → Reply x
  all_stats : List (CommunityStats x) → Reply x
  members : Option (List NodeAnnotatedRecord) → Reply x
  graphs : List (Text × CollectorGossipGraph x) → Reply x

pub record CollectorManager (x : Extern) : Type 0 where
  pub registered_collectors : List (Text × List (CollectorHeartbeat x))
  pub expected_collectors : List Text
  pub collection_cfg : CollectionConfig x
  pub gossip_graphs : List (Text × CollectorGossipGraph x)

unfoldable pub new : (x : Extern) → CollectionConfig x → CollectorManager x
new x cfg = record {
  registered_collectors = [];
  expected_collectors = keys cfg.collector_mapping;
  collection_cfg = cfg;
  gossip_graphs = [];
}
