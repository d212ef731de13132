-- ===== src/Manager/Uploads.antt =====
-- The graphs that collectors push between two runs of the differ.
use gossip_observer.Extern.{Extern}
use gossip_observer.GraphDiff.{CollectorGossipGraph}
use gossip_observer.Manager.State.{
  CollectorManager, CollectorManagerMsg, CollectionConfig, Reply, new,
}
use gossip_observer.Manager.Handle.{
  Graphs, or_default, push_nodes, push_channels, handle_msg, sweep_heartbeats, run,
}
use gossip_observer.Prelude.{ℕ, ◌≡◌, refl, ap, ◌∙◌, List, [], ◌∷◌, ◌++◌, ite, arith}
use gossip_observer.Prelude.Map.{lookup, lookup-insert}
use gossip_observer.Prelude.Text.{Text, Text-discrete}
use gossip_observer.Types.Gossip.{GossipNodeInfo, GossipChannelInfo}

module _ (x : Extern) where
  abbrev pub graph_of : Text → Graphs x → CollectorGossipGraph x
  graph_of uuid m = or_default x (lookup Text-discrete uuid m)

  -- What one message adds to, or takes from, the graph of `uuid`.
  abbrev pub graph_step :
      Text → CollectorGossipGraph x → CollectorManagerMsg x → CollectorGossipGraph x
  graph_step uuid g (CollectorManagerMsg.push_gossip_nodes u nodes) =
      ite (Text-discrete u uuid) (record g { nodes = g.nodes ++ nodes }) g
  graph_step uuid g (CollectorManagerMsg.push_gossip_channels u channels) =
      ite (Text-discrete u uuid) (record g { channels = g.channels ++ channels }) g
  graph_step uuid g CollectorManagerMsg.dump_collector_graphs = record { nodes = []; channels = [] }
  graph_step uuid g _ = g

  abbrev pub graph_run :
      Text → CollectorGossipGraph x → List (ℕ × CollectorManagerMsg x) → CollectorGossipGraph x
  graph_run uuid g [] = g
  graph_run uuid g ((now, msg) ∷ msgs) = graph_run uuid (graph_step uuid g msg) msgs

  push_nodes-graph_of :
      (uuid u : Text) (nodes : List (GossipNodeInfo x)) (m : Graphs x)
      → graph_of uuid (push_nodes x u nodes m)
        ≡ graph_step uuid (graph_of uuid m) (CollectorManagerMsg.push_gossip_nodes u nodes)
  unfolding push_nodes
  push_nodes-graph_of uuid u nodes m =
      let g = graph_of u m in
      ground (arith, lookup-insert Text-discrete uuid u (record g { nodes = g.nodes ++ nodes }) m)

  push_channels-graph_of :
      (uuid u : Text) (channels : List (GossipChannelInfo x)) (m : Graphs x)
      → graph_of uuid (push_channels x u channels m)
        ≡ graph_step uuid (graph_of uuid m) (CollectorManagerMsg.push_gossip_channels u channels)
  unfolding push_channels
  push_channels-graph_of uuid u channels m =
      let g = graph_of u m in
      ground (
        arith,
        lookup-insert Text-discrete uuid u (record g { channels = g.channels ++ channels }) m,
      )

  pub handle_msg-graph_of :
      (uuid : Text) (now : ℕ) (mgr : CollectorManager x) (msg : CollectorManagerMsg x)
      → graph_of uuid (handle_msg x now mgr msg).0.gossip_graphs
        ≡ graph_step uuid (graph_of uuid mgr.gossip_graphs) msg
  unfolding handle_msg sweep_heartbeats lookup
  handle_msg-graph_of uuid now mgr (CollectorManagerMsg.push_gossip_nodes u nodes) =
      push_nodes-graph_of uuid u nodes mgr.gossip_graphs
  handle_msg-graph_of uuid now mgr (CollectorManagerMsg.push_gossip_channels u channels) =
      push_channels-graph_of uuid u channels mgr.gossip_graphs
  handle_msg-graph_of uuid now mgr _ = refl

  pub run-graph_of :
      (uuid : Text) (msgs : List (ℕ × CollectorManagerMsg x)) (mgr : CollectorManager x)
      → graph_of uuid (run x mgr msgs).gossip_graphs
        ≡ graph_run uuid (graph_of uuid mgr.gossip_graphs) msgs
  unfolding run
  run-graph_of uuid [] mgr = refl
  run-graph_of uuid ((now, msg) ∷ msgs) mgr =
      run-graph_of uuid msgs (handle_msg x now mgr msg).0
      ∙ ap (λ g. graph_run uuid g msgs) (handle_msg-graph_of uuid now mgr msg)

  -- After any history a dump answers with graphs in which each collector has exactly the nodes and
  -- channels that it pushed since the last dump, in the order of the pushes, and it leaves nothing
  -- behind: a second dump answers with no graph.
  pub dump_returns_pushes :
      (cfg : CollectionConfig x) (msgs : List (ℕ × CollectorManagerMsg x)) (now later : ℕ)
      → let dump = CollectorManagerMsg.dump_collector_graphs in
        let (mgr, reply) = handle_msg x now (run x (new x cfg) msgs) dump in
        (gs : Graphs x) × (reply ≡ Reply.graphs gs)
        × ((uuid : Text)
            → graph_of uuid gs ≡ graph_run uuid (record { nodes = []; channels = [] }) msgs)
        × ((handle_msg x later mgr dump).1 ≡ Reply.graphs [])
  unfolding handle_msg
  dump_returns_pushes cfg msgs now later = (
    (run x (new x cfg) msgs).gossip_graphs,
    refl,
    (λ uuid. unfold new lookup in run-graph_of uuid msgs (new x cfg)),
    refl,
  )
