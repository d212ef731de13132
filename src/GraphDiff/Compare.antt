-- ===== src/GraphDiff/Compare.antt =====
-- The second pass of `compute_graph_differences`: each collector's graph against the combined view.
use gossip_observer.Extern.{Extern}
use gossip_observer.GraphDiff.{CollectorGossipGraph, GraphDiff, FullGraphDiff}
use gossip_observer.GraphDiff.Combine.{Combined, combine}
use gossip_observer.Prelude.{
  ℕ, ◌+◌, ◌%◌, ◌^◌, true, false, List, [], ◌∷◌, Option, none, some, ℕ_discrete,
}
use gossip_observer.Prelude.Map.{lookup, insert, values}
use gossip_observer.Prelude.Text.{Text, Text-discrete}
use gossip_observer.Types.Gossip.{
  NodeAnnouncementInfo, GossipNodeInfo, GossipChannelDirectionInfo, GossipChannelInfo,
}
use gossip_observer.Types.Gossip.Node
use gossip_observer.Types.Gossip.Direction

-- `+= 1` on a `u32`.
abbrev pub bump : ℕ → ℕ
bump n = (n + 1) % 2 ^ 32

-- `GraphDiff::default()`.
abbrev pub no_diff : GraphDiff
no_diff = record {
  known_nodes = 0;
  missing_nodes = 0;
  matching_node_info = 0;
  missing_node_info = 0;
  stale_node_info = 0;
  known_channels = 0;
  missing_channels = 0;
  matching_channel_direction = 0;
  missing_channel_direction = 0;
  stale_channel_direction = 0;
}

module _ (x : Extern) where
  -- The collector's own nodes by key; of two with one key the later stays.
  unfoldable pub collector_nodes :
      List (x.PublicKey × Option (NodeAnnouncementInfo x))
      → List (GossipNodeInfo x)
      → List (x.PublicKey × Option (NodeAnnouncementInfo x))
  collector_nodes m [] = m
  collector_nodes m (n ∷ ns) = collector_nodes (insert x.pubkey_discrete n.pubkey n.info m) ns

  unfoldable pub collector_channels :
      List (ℕ × GossipChannelInfo x) → List (GossipChannelInfo x) → List (ℕ × GossipChannelInfo x)
  collector_channels m [] = m
  collector_channels m (c ∷ cs) = collector_channels (insert ℕ_discrete c.scid c m) cs

  abbrev pub compare_known : GraphDiff → NodeAnnouncementInfo x → NodeAnnouncementInfo x → GraphDiff
  compare_known d combined collector = elim (Node.same_info x combined collector) [
    | true ↦ record d { matching_node_info = bump d.matching_node_info }
    | false ↦ record d { stale_node_info = bump d.stale_node_info }
  ]

  -- What the combined view and the collector know of one node.
  unfoldable pub compare_node :
      GraphDiff
      → Option (NodeAnnouncementInfo x)
      → Option (Option (NodeAnnouncementInfo x))
      → GraphDiff
  compare_node d combined none = record d {
    missing_nodes = bump d.missing_nodes;
    missing_node_info = bump d.missing_node_info;
  }
  compare_node d none (some none) = record d {
    known_nodes = bump d.known_nodes;
    matching_node_info = bump d.matching_node_info;
  }
  compare_node d none (some (some collector)) = record d { known_nodes = bump d.known_nodes }
  compare_node d (some combined) (some (some collector)) =
      compare_known (record d { known_nodes = bump d.known_nodes }) combined collector
  compare_node d (some combined) (some none) = record d {
    known_nodes = bump d.known_nodes;
    missing_node_info = bump d.missing_node_info;
  }

  unfoldable pub compare_nodes :
      GraphDiff
      → List (x.PublicKey × Option (NodeAnnouncementInfo x))
      → List (x.PublicKey × GossipNodeInfo x)
      → GraphDiff
  compare_nodes d own [] = d
  compare_nodes d own ((key, combined) ∷ rest) =
      compare_nodes (compare_node d combined.info (lookup x.pubkey_discrete key own)) own rest

unfoldable pub compare_direction :
    GraphDiff → Option GossipChannelDirectionInfo → Option GossipChannelDirectionInfo → GraphDiff
compare_direction d none none = record d {
  matching_channel_direction = bump d.matching_channel_direction;
}
compare_direction d none (some collector) = d
compare_direction d (some combined) none = record d {
  missing_channel_direction = bump d.missing_channel_direction;
}
compare_direction d (some combined) (some collector) =
    elim (Direction.same_info combined collector) [
      | true ↦ record d { matching_channel_direction = bump d.matching_channel_direction }
      | false ↦ record d { stale_channel_direction = bump d.stale_channel_direction }
    ]

module _ (x : Extern) where
  unfoldable pub compare_channel :
      GraphDiff → GossipChannelInfo x → Option (GossipChannelInfo x) → GraphDiff
  compare_channel d combined none = record d { missing_channels = bump d.missing_channels }
  compare_channel d combined (some info) =
      compare_direction
        (compare_direction (record d { known_channels = bump d.known_channels }) combined.one_to_two
          info.one_to_two)
        combined.two_to_one info.two_to_one

  unfoldable pub compare_channels :
      GraphDiff → List (ℕ × GossipChannelInfo x) → List (ℕ × GossipChannelInfo x) → GraphDiff
  compare_channels d own [] = d
  compare_channels d own ((scid, combined) ∷ rest) =
      compare_channels (compare_channel d combined (lookup ℕ_discrete scid own)) own rest

  -- One round of the loop over `collector_graphs.iter()`.
  unfoldable pub compare_graph : Combined x → CollectorGossipGraph x → GraphDiff
  compare_graph combined graph =
      compare_channels (compare_nodes x no_diff (collector_nodes x [] graph.nodes) combined.nodes)
        (collector_channels x [] graph.channels) combined.channels

  unfoldable pub compare_graphs :
      Combined x
      → List (Text × GraphDiff)
      → List (Text × CollectorGossipGraph x)
      → List (Text × GraphDiff)
  compare_graphs combined diffs [] = diffs
  compare_graphs combined diffs ((uuid, graph) ∷ graphs) =
      compare_graphs combined (insert Text-discrete uuid (compare_graph combined graph) diffs)
        graphs

  -- With no graph all maps stay empty.
  unfoldable pub compute_graph_differences : List (Text × CollectorGossipGraph x) → FullGraphDiff x
  compute_graph_differences [] = record {
    diffs = [];
    graphs = [];
    controller_graph = record { nodes = []; channels = [] };
  }
  compute_graph_differences (g ∷ gs) =
      let combined = combine x (values (g ∷ gs)) in
      record {
        diffs = compare_graphs combined [] (g ∷ gs);
        graphs = g ∷ gs;
        controller_graph = record {
          nodes = values combined.nodes;
          channels = values combined.channels;
        };
      }
