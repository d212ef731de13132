-- ===== src/Manager/Assignment.antt =====
-- `handle_collector_info`: what a collector that reports in is told about its community. It asks the
-- actor four times, and the actor may handle other tasks' messages before each later request.
use gossip_observer.Extern.{Extern}
use gossip_observer.Manager.State.{
  CollectorManager, CollectorManagerMsg, CollectorState, CollectionConfig, CommunityStats,
  NodeAnnotatedRecord, Reply, new_collector, active,
}
use gossip_observer.Manager.Handle.{add_collector, sweep_heartbeats, handle_msg, run}
use gossip_observer.Prelude.{
  ℕ, ◌≡◌, refl, ◌∙◌, Bool, true, false, ◌&&◌, not, List, [], ◌∷◌, Option, none, some, Result, ok,
  err, ◌>>=◌, if◌then◌else◌, ℕ_discrete,
}
use gossip_observer.Prelude.Map.{lookup}
use gossip_observer.Prelude.Text.{Text, Text-discrete}
use gossip_observer.Types.Collector.{CollectorInfo}
use mathlib.Core.Option

-- `oneshot::RecvError`: the actor dropped the request.
pub data RecvError : Type 0 where
  recv_error : RecvError

module _ (x : Extern) where
  abbrev pub Msgs : Type 0
  Msgs = List (ℕ × CollectorManagerMsg x)

  -- The answers as the handle's methods read them.
  abbrev pub expect_state : Reply x → Result CollectorState RecvError
  expect_state (Reply.state s) = ok s
  expect_state _ = err recv_error

  abbrev pub expect_assignment : Reply x → Result (Option ℕ) RecvError
  expect_assignment (Reply.assignment a) = ok a
  expect_assignment _ = err recv_error

  abbrev pub expect_stats : Reply x → Result (Option (CommunityStats x)) RecvError
  expect_stats (Reply.stats s) = ok s
  expect_stats _ = err recv_error

  abbrev pub expect_members : Reply x → Result (Option (List NodeAnnotatedRecord)) RecvError
  expect_members (Reply.members m) = ok m
  expect_members _ = err recv_error

  abbrev pub Served : Type 0
  Served = Result (Option (CommunityStats x × List NodeAnnotatedRecord)) RecvError

  -- `shuffle` is `SliceRandom::shuffle` with the generator that the call seeds.
  module _ (shuffle : List NodeAnnotatedRecord → List NodeAnnotatedRecord) (now : ℕ) where
    unfoldable pub serve_members : CollectorManager x → ℕ → CommunityStats x → Served
    serve_members mgr community stats = do
      found ←
          expect_members
            (handle_msg x now mgr (CollectorManagerMsg.get_community_members community)).1
      elim found [ some ms ↦ ok (some (stats, shuffle ms)) | none ↦ ok none ]

    unfoldable pub serve_stats : CollectorManager x → ℕ → Msgs → Served
    serve_stats mgr community b3 = do
      found ←
          expect_stats (handle_msg x now mgr (CollectorManagerMsg.get_community_stats community)).1
      elim found [ some stats ↦ serve_members (run x mgr b3) community stats | none ↦ ok none ]

    unfoldable pub serve_assignment : CollectorManager x → Text → Msgs → Msgs → Served
    serve_assignment mgr uuid b2 b3 = do
      found ←
          expect_assignment
            (handle_msg x now mgr (CollectorManagerMsg.get_collector_assignment uuid)).1
      elim found [ some community ↦ serve_stats (run x mgr b2) community b3 | none ↦ ok none ]

    abbrev pub is_active : CollectorState → Bool
    is_active active = true
    is_active new_collector = false

    unfoldable pub handle_collector_info :
        CollectorManager x → CollectorInfo x → Bool → Msgs → Msgs → Msgs → Served
    handle_collector_info mgr info provide_info b1 b2 b3 = do
      let first = handle_msg x now mgr (CollectorManagerMsg.add_collector info)
      state ← expect_state first.1
      if is_active state && not provide_info
          then ok none
          else serve_assignment (run x first.0 b1) info.uuid b2 b3

    -- The community that a configuration assigns, by the three tables alone.
    abbrev pub members_of :
        CollectionConfig x
        → ℕ
        → CommunityStats x
        → Option (CommunityStats x × List NodeAnnotatedRecord)
    members_of cfg community stats =
        Option.map (λ ms. (stats, shuffle ms)) (lookup ℕ_discrete community cfg.community_members)

    abbrev pub stats_of :
        CollectionConfig x → ℕ → Option (CommunityStats x × List NodeAnnotatedRecord)
    stats_of cfg community = elim (lookup ℕ_discrete community cfg.community_stats) [
      | none ↦ none
      | some stats ↦ members_of cfg community stats
    ]

    abbrev pub community_of :
        CollectionConfig x → Text → Option (CommunityStats x × List NodeAnnotatedRecord)
    community_of cfg uuid = elim (lookup Text-discrete uuid cfg.collector_mapping) [
      | none ↦ none
      | some community ↦ stats_of cfg community
    ]

    handle_msg-cfg :
        (t : ℕ) (mgr : CollectorManager x) (msg : CollectorManagerMsg x)
        → (handle_msg x t mgr msg).0.collection_cfg ≡ mgr.collection_cfg
    unfolding handle_msg sweep_heartbeats
    handle_msg-cfg t mgr (CollectorManagerMsg.add_collector info) = refl
    handle_msg-cfg t mgr _ = refl

    pub run-cfg :
        (msgs : Msgs) (mgr : CollectorManager x)
        → (run x mgr msgs).collection_cfg ≡ mgr.collection_cfg
    unfolding run
    run-cfg [] mgr = refl
    run-cfg ((t, msg) ∷ msgs) mgr =
        run-cfg msgs (handle_msg x t mgr msg).0 ∙ handle_msg-cfg t mgr msg
