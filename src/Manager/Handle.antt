-- ===== src/Manager/Handle.antt =====
-- `CollectorManager::handle_msg`, and the loop `run_collector_manager`.
use gossip_observer.Extern.{Extern}
use gossip_observer.GraphDiff.{CollectorGossipGraph}
use gossip_observer.Manager.State.{
  CollectorManager, CollectorManagerMsg, CollectorState, Reply, new_collector, active,
}
use gossip_observer.Prelude.{
  ℕ, ◌+◌, Bool, true, false, List, [], ◌∷◌, ◌++◌, Option, none, some, filter, dec_lt, last?,
  ℕ_discrete,
}
use gossip_observer.Prelude.Map.{lookup, insert, retain, update_all, remove, values}
use gossip_observer.Prelude.Text.{Text, Text-discrete}
use gossip_observer.Types.Collector.{CollectorInfo, CollectorHeartbeat}
use gossip_observer.Types.Gossip.{GossipNodeInfo, GossipChannelInfo}

module _ {ℓ} {A : Type ℓ} where
  abbrev pub is_empty : List A → Bool
  is_empty [] = true
  is_empty (a ∷ as') = false

  abbrev pub is_kept : List A → Bool
  is_kept [] = false
  is_kept (a ∷ as') = true

  abbrev pub or_empty : Option (List A) → List A
  or_empty none = []
  or_empty (some as') = as'

module _ (x : Extern) where
  abbrev pub Registered : Type 0
  Registered = List (Text × List (CollectorHeartbeat x))

  abbrev pub Graphs : Type 0
  Graphs = List (Text × CollectorGossipGraph x)

  -- `now - hb.timestamp < heartbeat_expiry`, a comparison of signed durations.
  abbrev pub fresh : ℕ → ℕ → List (CollectorHeartbeat x) → List (CollectorHeartbeat x)
  fresh now expiry = filter (λ hb. dec_lt now (hb.timestamp + expiry))

  unfoldable pub add_collector : ℕ → CollectorInfo x → Registered → Registered × CollectorState
  add_collector now info m =
      let hb : CollectorHeartbeat x = record { info = info; timestamp = now } in
      elim (lookup Text-discrete info.uuid m) [
        | some hbs ↦ (insert Text-discrete info.uuid (hbs ++ hb ∷ []) m, active)
        | none ↦ (insert Text-discrete info.uuid (hb ∷ []) m, new_collector)
      ]

  -- The second loop of the sweep: a collector with no heartbeat left is not expected any more.
  unfoldable pub remove_inactive : Registered → List Text → List Text
  remove_inactive [] expected = expected
  remove_inactive ((uuid, hbs) ∷ m) expected =
      remove_inactive m (elim hbs [ [] ↦ remove Text-discrete uuid expected | _ ∷ _ ↦ expected ])

  -- The last heartbeat of each collector.
  unfoldable pub latest : List (List (CollectorHeartbeat x)) → List (CollectorHeartbeat x)
  latest [] = []
  latest (hbs ∷ m) = elim (last? hbs) [ some hb ↦ hb ∷ latest m | none ↦ latest m ]

  abbrev pub or_default : Option (CollectorGossipGraph x) → CollectorGossipGraph x
  or_default none = record { nodes = []; channels = [] }
  or_default (some g) = g

  unfoldable pub push_nodes : Text → List (GossipNodeInfo x) → Graphs → Graphs
  push_nodes uuid nodes m =
      let g = or_default (lookup Text-discrete uuid m) in
      insert Text-discrete uuid (record g { nodes = g.nodes ++ nodes }) m

  unfoldable pub push_channels : Text → List (GossipChannelInfo x) → Graphs → Graphs
  push_channels uuid channels m =
      let g = or_default (lookup Text-discrete uuid m) in
      insert Text-discrete uuid (record g { channels = g.channels ++ channels }) m

  unfoldable pub sweep_heartbeats : ℕ → ℕ → CollectorManager x → CollectorManager x
  sweep_heartbeats now expiry mgr =
      let swept = update_all (fresh now expiry) mgr.registered_collectors in
      record mgr {
        registered_collectors = retain is_kept swept;
        expected_collectors = remove_inactive swept mgr.expected_collectors;
      }

  unfoldable pub handle_msg :
      ℕ → CollectorManager x → CollectorManagerMsg x → CollectorManager x × Reply x
  handle_msg now mgr (CollectorManagerMsg.add_collector info) =
      let r = add_collector now info mgr.registered_collectors in
      (record mgr { registered_collectors = r.0 }, Reply.state r.1)
  handle_msg now mgr (CollectorManagerMsg.sweep_heartbeats expiry) =
      (sweep_heartbeats now expiry mgr, Reply.no_reply)
  handle_msg now mgr CollectorManagerMsg.get_registered_collectors =
      (mgr, Reply.heartbeats (latest (values mgr.registered_collectors)))
  handle_msg now mgr CollectorManagerMsg.get_expected_collectors =
      (mgr, Reply.expected mgr.expected_collectors)
  handle_msg now mgr (CollectorManagerMsg.get_collector_assignment uuid) =
      (mgr, Reply.assignment (lookup Text-discrete uuid mgr.collection_cfg.collector_mapping))
  handle_msg now mgr (CollectorManagerMsg.get_collector_by_uuid uuid) = (
    mgr,
    Reply.collector (last? (or_empty (lookup Text-discrete uuid mgr.registered_collectors))),
  )
  handle_msg now mgr (CollectorManagerMsg.get_community_stats id) =
      (mgr, Reply.stats (lookup ℕ_discrete id mgr.collection_cfg.community_stats))
  handle_msg now mgr CollectorManagerMsg.get_all_community_stats =
      (mgr, Reply.all_stats (values mgr.collection_cfg.community_stats))
  handle_msg now mgr (CollectorManagerMsg.get_community_members id) =
      (mgr, Reply.members (lookup ℕ_discrete id mgr.collection_cfg.community_members))
  handle_msg now mgr (CollectorManagerMsg.push_gossip_nodes uuid nodes) =
      (record mgr { gossip_graphs = push_nodes uuid nodes mgr.gossip_graphs }, Reply.no_reply)
  handle_msg now mgr (CollectorManagerMsg.push_gossip_channels uuid channels) =
      (record mgr { gossip_graphs = push_channels uuid channels mgr.gossip_graphs }, Reply.no_reply)
  handle_msg now mgr CollectorManagerMsg.dump_collector_graphs =
      (record mgr { gossip_graphs = [] }, Reply.graphs mgr.gossip_graphs)

  -- The messages that the actor receives, each with its time.
  unfoldable pub run : CollectorManager x → List (ℕ × CollectorManagerMsg x) → CollectorManager x
  run mgr [] = mgr
  run mgr ((now, msg) ∷ msgs) = run (handle_msg now mgr msg).0 msgs
