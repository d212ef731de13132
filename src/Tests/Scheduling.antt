-- ===== src/Tests/Scheduling.antt =====
-- A collector that uploads a small graph twice.
use gossip_observer.Manager.Handle.{run}
use gossip_observer.Manager.State.{CollectorManager, CollectorManagerMsg}
use gossip_observer.Prelude.{
  ℕ, ◌≡◌, true, false, List, [], ◌∷◌, none, some, map, arith, ◌==◌, if◌then◌else◌,
}
use gossip_observer.Prelude.Text.{codes}
use gossip_observer.Tests.World.{world, world_codecs}
use gossip_observer.Upload.Readable.{read_nodes, read_channels}
use gossip_observer.Upload.Received.{clean}
use gossip_observer.Upload.Schedule.{
  NetworkGraph, Outcome, Fate, Wake, UploadEnd, upload_gossip_graph,
}
use gossip_observer.Upload.Uploaded.{
  IsU16Channel, mailbox, node_pushes, channel_pushes, pushed_nodes, pushed_channels,
  upload_gossip_graph_received,
}
use gossip_observer.Wire.Convert.Gossip.{LdkChannelInfo}

abbrev channel : LdkChannelInfo world
channel = record {
  node_one = 1;
  node_two = 2;
  capacity_sats = none;
  one_to_two = some (record {
    htlc_minimum_msat = 1;
    htlc_maximum_msat = 2;
    base_msat = 3;
    proportional_millionths = 4;
    cltv_expiry_delta = 144;
    last_update = 8;
  });
  two_to_one = none;
}

-- The node 500 has no valid key.
abbrev graph : NetworkGraph world
graph = record {
  list_nodes = 1 ∷ 500 ∷ 2 ∷ [];
  list_channels = 9 ∷ [];
  announcement = λ n. none;
  channel = λ scid. some channel;
}

abbrev fate : Outcome → Fate world
fate o = record { others = []; outcome = o; now = 5 }

-- The second turn loses its second request, the one of the channel.
abbrev second : ℕ → Fate world
second n = if n == 0 then fate Outcome.answered else fate Outcome.lost

abbrev wakes : List (Wake world)
wakes =
    Wake.woken [] graph true (λ n. fate Outcome.answered)
    ∷ Wake.woken ((7, CollectorManagerMsg.get_expected_collectors) ∷ []) graph false
        (λ n. fate Outcome.answered)
    ∷ Wake.woken [] graph true second
    ∷ []

abbrev controller : CollectorManager world
controller = record {
  registered_collectors = [];
  expected_collectors = [];
  collection_cfg = record { collector_mapping = []; community_members = []; community_stats = [] };
  gossip_graphs = [];
}

graph-IsU16Graph : (scid : ℕ) → IsU16Channel world (graph.channel scid)
graph-IsU16Graph scid = (omega arith, tt)

upload_gossip_graph_received_example :
    (upload_gossip_graph world (codes "a") controller wakes
      ≡ (run world controller (mailbox world world_codecs (codes "a") wakes), UploadEnd.waiting))
    × (pushed_nodes world world_codecs
          (codes "a")
          (node_pushes world world_codecs (codes "a") graph)
        ≡ map (clean world world_codecs 0 (codes "a")) (read_nodes world graph))
    × (pushed_channels world world_codecs
          (codes "a")
          (channel_pushes world world_codecs (codes "a") graph)
        ≡ read_channels world graph)
upload_gossip_graph_received_example =
    upload_gossip_graph_received world world_codecs (codes "a") controller wakes graph
      (graph-IsU16Graph, (graph-IsU16Graph, (graph-IsU16Graph, tt)))
