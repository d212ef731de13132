-- ===== src/Tests/Uploading.antt =====
-- A small graph sent to a controller, and a short list of peers sent to a collector.
use gossip_observer.Manager.State.{CollectorManager}
use gossip_observer.Peers.State.{new_manager, run}
use gossip_observer.Prelude.{◌≡◌, refl, List, [], ◌∷◌, none, some, ok, map, arith}
use gossip_observer.Prelude.Text.{codes}
use gossip_observer.Tests.World.{world, world_codecs}
use gossip_observer.Types.Gossip.{GossipNodeInfo, GossipChannelInfo}
use gossip_observer.Types.Peers.{PeerConnectionInfo}
use gossip_observer.Upload.EligiblePeers.{
  add_all, post_eligible_peers, send_eligible_peers, send_eligible_peers_adds,
}
use gossip_observer.Upload.Graph.{post_gossip_graph_chunk, send_gossip_graph}
use gossip_observer.Upload.Received.{Reaches, clean, send_gossip_graph_received}

abbrev controller : CollectorManager world
controller = record {
  registered_collectors = [];
  expected_collectors = [];
  collection_cfg = record { collector_mapping = []; community_members = []; community_stats = [] };
  gossip_graphs = [];
}

abbrev nodes : List (GossipNodeInfo world)
nodes =
    record {
      pubkey = 1;
      info = some (record { last_update = 5; alias = codes "n"; addresses = 2 ∷ 10 ∷ [] });
    }
    ∷ record { pubkey = 2; info = none }
    ∷ []

abbrev channels : List (GossipChannelInfo world)
channels =
    record {
      scid = 9;
      node_one = 1;
      node_two = 2;
      last_update = some 8;
      capacity_sats = none;
      one_to_two = some (record {
        htlc_min_msat = 1;
        htlc_max_msat = 2;
        fees_base_msat = 3;
        fees_proportional_millionths = 4;
        cltv_expiry_delta = 144;
        last_update = 8;
      });
      two_to_one = none;
    }
    ∷ []

abbrev peers : List (PeerConnectionInfo world)
peers = record { pubkey = 7; addrs = 3 ∷ 10 ∷ [] } ∷ record { pubkey = 8; addrs = 11 ∷ [] } ∷ []

send_gossip_graph_received_example :
    Reaches world world_codecs 5
      (codes "a")
      controller
      (send_gossip_graph world
        (post_gossip_graph_chunk world 5)
        (codes "a")
        nodes
        channels
        controller)
      (map (clean world world_codecs 5 (codes "a")) nodes)
      channels
send_gossip_graph_received_example =
    send_gossip_graph_received world world_codecs 5 (codes "a") nodes channels controller
      ((omega arith, tt), tt)

send_eligible_peers_adds_example :
    send_eligible_peers world (post_eligible_peers world 5) peers (new_manager world)
    ≡ ok (run world (new_manager world) (add_all world 5 peers))
send_eligible_peers_adds_example =
    send_eligible_peers_adds world world_codecs 5 peers (new_manager world)
      ((refl, (refl, tt)), ((refl, tt), tt))
