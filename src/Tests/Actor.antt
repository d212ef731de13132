-- ===== src/Tests/Actor.antt =====
-- Short histories of the collector manager.
use gossip_observer.Manager.State.{
  CollectorManager, CollectorManagerMsg, CollectionConfig, NodeAnnotatedRecord, Reply, new,
}
use gossip_observer.Manager.Handle.{Graphs, handle_msg, run, fresh}
use gossip_observer.Manager.Registry.{log, log_run, state_of, run-refines_log}
use gossip_observer.Manager.Uploads.{graph_of, graph_run, dump_returns_pushes}
use gossip_observer.Manager.Status.{compute_status, ids}
use gossip_observer.Manager.Status.Online.{is_some, compute_status_online}
use gossip_observer.Manager.Status.Expired.{expired_never_offline}
use gossip_observer.Prelude.{
  ℕ, ◌≡◌, refl, Bool, false, ◌&&◌, not, List, [], ◌∷◌, Option, none, some, last?, arith,
}
use gossip_observer.Prelude.Map.{lookup, contains}
use gossip_observer.Prelude.Text.{Text, Text-discrete, codes}
use gossip_observer.Tests.World.{world}
use gossip_observer.Types.Collector.{CollectorInfo}

abbrev pub collector : Text → CollectorInfo world
collector uuid = record {
  uuid = uuid;
  pubkey = 1;
  listen_addrs = [];
  onchain_addr = 1;
  balances = record { total_onchain = 0; spendable_onchain = 0; total_lightning_balance = 0 };
  peer_count = 3;
  target_count = 10;
  eligible_peers = 5;
  grpc_socket = codes "s";
}

abbrev pub members : List NodeAnnotatedRecord
members = record { pubkey = codes "k"; net_type = none; sockets = none; alias = none } ∷ []

abbrev pub config : CollectionConfig world
config = record {
  collector_mapping = (codes "a", 1) ∷ (codes "b", 2) ∷ [];
  community_members = (1, members) ∷ [];
  community_stats =
      (1, record { size = 1; proportion = 1; expected = 1; stddev = 0; connection_count = 4 }) ∷ [];
}

abbrev pub history : List (ℕ × CollectorManagerMsg world)
history =
    (5, CollectorManagerMsg.add_collector (collector (codes "a")))
    ∷ (
      6,
      CollectorManagerMsg.push_gossip_nodes (codes "a") (record { pubkey = 4; info = none } ∷ []),
    )
    ∷ (9, CollectorManagerMsg.add_collector (collector (codes "a")))
    ∷ (12, CollectorManagerMsg.sweep_heartbeats 4)
    ∷ []

abbrev manager : CollectorManager world
manager = run world (new world config) history

run-refines_log_example :
    (log world manager (codes "a") ≡ log_run world (codes "a") [] history)
    × ((handle_msg world 13 manager (CollectorManagerMsg.add_collector (collector (codes "a")))).1
        ≡ Reply.state (state_of world (log_run world (codes "a") [] history)))
    × ((handle_msg world 13 manager (CollectorManagerMsg.get_collector_by_uuid (codes "a"))).1
        ≡ Reply.collector (last? (log_run world (codes "a") [] history)))
run-refines_log_example = run-refines_log world config history 13 (collector (codes "a"))

dump_returns_pushes_example :
    let dump = CollectorManagerMsg.dump_collector_graphs in
    let (mgr, reply) = handle_msg world 20 manager dump in
    (gs : Graphs world) × (reply ≡ Reply.graphs gs)
    × ((uuid : Text)
        → graph_of world uuid gs
          ≡ graph_run world uuid (record { nodes = []; channels = [] }) history)
    × ((handle_msg world 30 mgr dump).1 ≡ Reply.graphs [])
dump_returns_pushes_example = dump_returns_pushes world config history 20 30

compute_status_online_example :
    let second = run world manager [] in
    let status = compute_status world manager second (run world second []) in
    let is_online = is_some (lookup Text-discrete (codes "b") manager.registered_collectors) in
    (contains Text-discrete (codes "b") (ids world status.statuses) ≡ is_online)
    × (contains Text-discrete (codes "b") status.offline_collectors
        ≡ (contains Text-discrete (codes "b") second.expected_collectors && not is_online))
compute_status_online_example = compute_status_online world config history [] [] (codes "b")

expired_never_offline_example :
    let swept = (handle_msg world 20 manager (CollectorManagerMsg.sweep_heartbeats 4)).0 in
    let first = run world swept [] in
    let second = run world first [] in
    let status = compute_status world first second (run world second []) in
    (contains Text-discrete (codes "a") swept.expected_collectors ≡ false)
    × (contains Text-discrete (codes "a") first.expected_collectors ≡ false)
    × (contains Text-discrete (codes "a") second.expected_collectors ≡ false)
    × (contains Text-discrete (codes "a") status.offline_collectors ≡ false)
    × (contains Text-discrete (codes "b") status.offline_collectors ≡ (
        contains Text-discrete (codes "b") second.expected_collectors
        && not (contains Text-discrete (codes "b") (ids world status.statuses))))
unfolding run handle_msg lookup gossip_observer.Manager.Handle.sweep_heartbeats
    gossip_observer.Prelude.Map.retain gossip_observer.Prelude.Map.update_all
    gossip_observer.Manager.Handle.add_collector new gossip_observer.Prelude.Map.insert
    Text-discrete gossip_observer.Prelude.dec_lt
expired_never_offline_example =
    expired_never_offline world manager (codes "a") (codes "b")
      (record { info = collector (codes "a"); timestamp = 9 } ∷ []) 20 4 [] [] [] refl
      (omega arith, tt)
