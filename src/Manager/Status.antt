-- ===== src/Manager/Status.antt =====
-- `compute_status`: which collectors are online, which are missing, and how many peers they have.
pub mod Online
pub mod Expired
use gossip_observer.Extern.{Extern}
use gossip_observer.Manager.State.{CollectorManager, CommunityStats}
use gossip_observer.Manager.Handle.{latest, sweep_heartbeats, remove_inactive, fresh, Registered}
use gossip_observer.Prelude.{
  ℕ, ◌+◌, ◌%◌, ◌^◌, ◌≡◌, refl, Bool, true, false, List, [], ◌∷◌, Option, none, some, length, map,
  not,
}
use gossip_observer.Prelude.Map.{contains, add, values, lookup}
use gossip_observer.Prelude.Text.{Text, Text-discrete, text_leb}
use gossip_observer.Types.Collector.{CollectorHeartbeat, ManagerStatus}

-- `as u32`, and `+` on `u32`.
abbrev pub u32 : ℕ → ℕ
u32 n = n % 2 ^ 32

-- `HashSet::difference`.
unfoldable pub difference : List Text → List Text → List Text
difference [] other = []
difference (t ∷ s) other = elim (contains Text-discrete t other) [
  | true ↦ difference s other
  | false ↦ t ∷ difference s other
]

module _ (x : Extern) where
  unfoldable pub sum_peers : ℕ → List (CollectorHeartbeat x) → ℕ
  sum_peers acc [] = acc
  sum_peers acc (hb ∷ hbs) = sum_peers (u32 (acc + hb.info.peer_count)) hbs

  unfoldable pub sum_targets : ℕ → List (CommunityStats x) → ℕ
  sum_targets acc [] = acc
  sum_targets acc (s ∷ ss) = sum_targets (u32 (acc + s.connection_count)) ss

  -- The ids of the online collectors, as a set.
  unfoldable pub ids : List (CollectorHeartbeat x) → List Text
  ids [] = []
  ids (hb ∷ hbs) = add Text-discrete hb.info.uuid (ids hbs)

  -- `sort_unstable_by` on the uuids, which are distinct.
  unfoldable pub insert_by_uuid :
      CollectorHeartbeat x → List (CollectorHeartbeat x) → List (CollectorHeartbeat x)
  insert_by_uuid hb [] = hb ∷ []
  insert_by_uuid hb (h ∷ hs) = elim (text_leb hb.info.uuid h.info.uuid) [
    | true ↦ hb ∷ h ∷ hs
    | false ↦ h ∷ insert_by_uuid hb hs
  ]

  unfoldable pub sort_by_uuid : List (CollectorHeartbeat x) → List (CollectorHeartbeat x)
  unfolding insert_by_uuid
  sort_by_uuid [] = []
  sort_by_uuid (hb ∷ hbs) = insert_by_uuid hb (sort_by_uuid hbs)

  -- The three requests are answered from the states that the actor is in when it handles them.
  unfoldable pub compute_status :
      CollectorManager x → CollectorManager x → CollectorManager x → ManagerStatus x
  compute_status m1 m2 m3 =
      let online = sort_by_uuid (latest x (values m1.registered_collectors)) in
      let offline = difference m2.expected_collectors (ids online) in
      record {
        total_target_peer_count = sum_targets 0 (values m3.collection_cfg.community_stats);
        current_peer_count = sum_peers 0 online;
        online_collector_count = u32 (length online);
        offline_collector_count = u32 (length offline);
        offline_collectors = offline;
        statuses = online;
      }
