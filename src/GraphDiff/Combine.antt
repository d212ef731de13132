-- ===== src/GraphDiff/Combine.antt =====
-- The first pass of `compute_graph_differences`: all collector views in one, the latest messages
-- taken as the most accurate.
pub mod Nodes
pub mod Channels
use gossip_observer.Extern.{Extern}
use gossip_observer.GraphDiff.{CollectorGossipGraph}
use gossip_observer.Prelude.{ℕ, List, [], ◌∷◌, true, false, none, some, ℕ_discrete}
use gossip_observer.Prelude.Map.{lookup, insert}
use gossip_observer.Types.Gossip.{GossipNodeInfo, GossipChannelInfo}
use gossip_observer.Types.Gossip.Node
use gossip_observer.Types.Gossip.Channel

abbrev pub NodeMap : Extern → Type 0
NodeMap x = List (x.PublicKey × GossipNodeInfo x)

abbrev pub ChannelMap : Extern → Type 0
ChannelMap x = List (ℕ × GossipChannelInfo x)

module _ (x : Extern) where
  unfoldable pub combine_node : NodeMap x → GossipNodeInfo x → NodeMap x
  combine_node m node = elim (lookup x.pubkey_discrete node.pubkey m) [
    | some current ↦ elim (Node.is_newer x node current) [
      | true ↦ insert x.pubkey_discrete node.pubkey node m
      | false ↦ m
    ]
    | none ↦ insert x.pubkey_discrete node.pubkey node m
  ]

  unfoldable pub combine_channel : ChannelMap x → GossipChannelInfo x → ChannelMap x
  combine_channel m channel = elim (lookup ℕ_discrete channel.scid m) [
    | some current ↦ insert ℕ_discrete channel.scid (Channel.merge_to_newest x current channel) m
    | none ↦ insert ℕ_discrete channel.scid channel m
  ]

  unfoldable pub combine_nodes : NodeMap x → List (GossipNodeInfo x) → NodeMap x
  combine_nodes m [] = m
  combine_nodes m (node ∷ nodes) = combine_nodes (combine_node m node) nodes

  unfoldable pub combine_channels : ChannelMap x → List (GossipChannelInfo x) → ChannelMap x
  combine_channels m [] = m
  combine_channels m (channel ∷ channels) = combine_channels (combine_channel m channel) channels

-- `combined_nodes` and `combined_channels`.
pub record Combined (x : Extern) : Type 0 where
  pub nodes : NodeMap x
  pub channels : ChannelMap x

module _ (x : Extern) where
  -- The loop over `collector_graphs.values()`.
  unfoldable pub combine_graphs : Combined x → List (CollectorGossipGraph x) → Combined x
  combine_graphs c [] = c
  combine_graphs c (graph ∷ graphs) =
      combine_graphs
        (record {
          nodes = combine_nodes x c.nodes graph.nodes;
          channels = combine_channels x c.channels graph.channels;
        })
        graphs

  unfoldable pub combine : List (CollectorGossipGraph x) → Combined x
  combine = combine_graphs (record { nodes = []; channels = [] })
