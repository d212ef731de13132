-- ===== src/Tests/Differ.antt =====
-- Three collectors' graphs, their combined view and their differences.
use gossip_observer.GraphDiff.{CollectorGossipGraph, GraphDiff}
use gossip_observer.GraphDiff.Combine.{combine}
use gossip_observer.GraphDiff.Combine.Nodes.{IsNewestNode, node_reports, combine-IsNewestNode}
use gossip_observer.GraphDiff.Combine.Channels.{
  IsNewestChannel, channel_reports, combine-IsNewestChannel,
}
use gossip_observer.GraphDiff.Compare.{compute_graph_differences}
use gossip_observer.GraphDiff.Totals.{Accounts, compute_graph_differences-Accounts}
use gossip_observer.Prelude.{
  ℕ, ◌≡◌, refl, List, [], ◌∷◌, Option, none, some, ℕ_discrete, arith, length,
}
use gossip_observer.Prelude.Map.{lookup, values, IsMap}
use gossip_observer.Prelude.Text.{Text, Text-discrete, codes}
use gossip_observer.Tests.World.{world}
use gossip_observer.Types.Gossip.{
  GossipNodeInfo, NodeAnnouncementInfo, GossipChannelInfo, GossipChannelDirectionInfo,
}

abbrev node : ℕ → ℕ → GossipNodeInfo world
node key stamp = record {
  pubkey = key;
  info = some (record { last_update = stamp; alias = codes "n"; addresses = [] });
}

abbrev direction : ℕ → GossipChannelDirectionInfo
direction stamp = record {
  htlc_min_msat = 1;
  htlc_max_msat = 1000;
  fees_base_msat = stamp;
  fees_proportional_millionths = 2;
  cltv_expiry_delta = 40;
  last_update = stamp;
}

abbrev channel :
    ℕ
    → Option GossipChannelDirectionInfo
    → Option GossipChannelDirectionInfo
    → GossipChannelInfo world
channel scid one two = record {
  scid = scid;
  node_one = 1;
  node_two = 4;
  last_update = some 5;
  capacity_sats = none;
  one_to_two = one;
  two_to_one = two;
}

abbrev graph_a : CollectorGossipGraph world
graph_a = record {
  nodes = node 1 10 ∷ node 4 20 ∷ [];
  channels = channel 7 (some (direction 3)) none ∷ [];
}

abbrev graph_b : CollectorGossipGraph world
graph_b = record {
  nodes = record { pubkey = 1; info = none } ∷ node 4 21 ∷ [];
  channels = channel 7 (some (direction 2)) (some (direction 9)) ∷ channel 8 none none ∷ [];
}

abbrev graphs : List (Text × CollectorGossipGraph world)
graphs = (codes "a", graph_a) ∷ (codes "b", graph_b) ∷ []

combined_nodes_test : lookup ℕ_discrete 4 (combine world (values graphs)).nodes ≡ some (node 4 21)
unfolding combine lookup gossip_observer.GraphDiff.Combine.combine_graphs
    gossip_observer.GraphDiff.Combine.combine_nodes gossip_observer.GraphDiff.Combine.combine_node
    gossip_observer.Prelude.Map.insert ℕ_discrete gossip_observer.Types.Gossip.Node.is_newer
combined_nodes_test = refl

combined_channels_test :
    lookup ℕ_discrete 7 (combine world (values graphs)).channels
    ≡ some (channel 7 (some (direction 3)) (some (direction 9)))
unfolding combine lookup gossip_observer.GraphDiff.Combine.combine_graphs
    gossip_observer.GraphDiff.Combine.combine_channels
    gossip_observer.GraphDiff.Combine.combine_channel gossip_observer.Prelude.Map.insert ℕ_discrete
    gossip_observer.Types.Gossip.Channel.merge_to_newest
    gossip_observer.Types.Gossip.Direction.merge_to_newest
combined_channels_test = refl

combine-IsNewestNode_example :
    IsNewestNode world 4
      (node_reports world (values graphs))
      (lookup ℕ_discrete 4 (combine world (values graphs)).nodes)
combine-IsNewestNode_example = combine-IsNewestNode world (values graphs) 4

combine-IsNewestChannel_example :
    IsNewestChannel world 7
      (channel_reports world (values graphs))
      (lookup ℕ_discrete 7 (combine world (values graphs)).channels)
combine-IsNewestChannel_example = combine-IsNewestChannel world (values graphs) 7

graphs-IsMap : IsMap Text-discrete graphs
unfolding lookup Text-discrete
graphs-IsMap = (refl, (refl, tt))

lookup_b : lookup Text-discrete (codes "b") graphs ≡ some graph_b
unfolding lookup Text-discrete
lookup_b = refl

two_nodes : length (compute_graph_differences world graphs).controller_graph.nodes ≡ 2
unfolding compute_graph_differences combine gossip_observer.GraphDiff.Combine.combine_graphs
    gossip_observer.GraphDiff.Combine.combine_nodes gossip_observer.GraphDiff.Combine.combine_node
    lookup gossip_observer.Prelude.Map.insert ℕ_discrete gossip_observer.Types.Gossip.Node.is_newer
two_nodes = refl

two_channels : length (compute_graph_differences world graphs).controller_graph.channels ≡ 2
unfolding compute_graph_differences combine gossip_observer.GraphDiff.Combine.combine_graphs
    gossip_observer.GraphDiff.Combine.combine_channels
    gossip_observer.GraphDiff.Combine.combine_channel lookup gossip_observer.Prelude.Map.insert
    ℕ_discrete
two_channels = refl

compute_graph_differences-Accounts_example :
    let full = compute_graph_differences world graphs in
    (d : GraphDiff) × (lookup Text-discrete (codes "b") full.diffs ≡ some d)
    × Accounts d (length full.controller_graph.nodes) (length full.controller_graph.channels)
compute_graph_differences-Accounts_example =
    compute_graph_differences-Accounts world graphs (codes "b") graph_b graphs-IsMap lookup_b
      (omega (arith, two_nodes)) (omega (arith, two_channels))
