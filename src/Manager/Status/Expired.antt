-- ===== src/Manager/Status/Expired.antt =====
-- What the sweep does to the list of expected collectors.
use gossip_observer.Extern.{Extern}
use gossip_observer.Manager.State.{CollectorManager, CollectorManagerMsg}
use gossip_observer.Manager.Handle.{
  Registered, sweep_heartbeats, remove_inactive, fresh, handle_msg, run,
}
use gossip_observer.Manager.Status.{compute_status, ids}
use gossip_observer.Manager.Status.Online.{contains-difference}
use gossip_observer.Prelude.{
  ℕ, ◌≡◌, ap, ◌∙◌, Bool, false, ◌&&◌, not, ◌+◌, ◌≤◌, refl, All, dec_lt, List, [], ◌∷◌, some, arith,
}
use gossip_observer.Prelude.Map.{
  contains, contains-remove, remove, lookup, update_all, lookup-update_all,
}
use gossip_observer.Prelude.Text.{Text, Text-discrete}
use gossip_observer.Types.Collector.{CollectorHeartbeat}
use mathlib.Core.Option

false_and : (a b : Bool) → a ≡ false → (a && b) ≡ false
false_and a b h = ground arith

module _ (x : Extern) where
  -- Nothing comes back into the expected collectors.
  remove_inactive_mono :
      (u : Text) (m : Registered x) (expected : List Text)
      → contains Text-discrete u expected ≡ false
      → contains Text-discrete u (remove_inactive x m expected) ≡ false
  unfolding remove_inactive
  remove_inactive_mono u [] expected h = h
  remove_inactive_mono u ((k, []) ∷ m) expected h =
      remove_inactive_mono u m (remove Text-discrete k expected)
        (ground (arith, contains-remove Text-discrete u k expected))
  remove_inactive_mono u ((k, hb ∷ hbs) ∷ m) expected h = remove_inactive_mono u m expected h

  remove_inactive_empty :
      (u : Text) (m : Registered x) (expected : List Text)
      → lookup Text-discrete u m ≡ some []
      → contains Text-discrete u (remove_inactive x m expected) ≡ false
  unfolding remove_inactive lookup
  remove_inactive_empty u [] expected e = cc
  remove_inactive_empty u ((k, []) ∷ m) expected e = elim (Text-discrete k u) [
    | yes p ↦
        remove_inactive_mono u m (remove Text-discrete k expected)
          (ground (arith, contains-remove Text-discrete u k expected))
    | no p ↦ remove_inactive_empty u m (remove Text-discrete k expected) (ground arith)
  ]
  remove_inactive_empty u ((k, hb ∷ hbs) ∷ m) expected e =
      remove_inactive_empty u m expected (ground arith)

  run-unexpected :
      (u : Text) (msgs : List (ℕ × CollectorManagerMsg x)) (mgr : CollectorManager x)
      → contains Text-discrete u mgr.expected_collectors ≡ false
      → contains Text-discrete u (run x mgr msgs).expected_collectors ≡ false
  unfolding run
  run-unexpected u [] mgr h = h
  run-unexpected u ((now, msg) ∷ msgs) mgr h =
      run-unexpected u msgs (handle_msg x now mgr msg).0 (step msg)
    where
      step :
          (msg : CollectorManagerMsg x)
          → contains Text-discrete u (handle_msg x now mgr msg).0.expected_collectors ≡ false
      step (CollectorManagerMsg.sweep_heartbeats expiry) =
          unfold handle_msg sweep_heartbeats in remove_inactive_mono u _ mgr.expected_collectors h
      step (CollectorManagerMsg.add_collector info) = unfold handle_msg in h
      step _ = unfold handle_msg in h

  none_fresh :
      (now expiry : ℕ) (hbs : List (CollectorHeartbeat x))
      → All (λ hb. hb.timestamp + expiry ≤ now) hbs
      → fresh x now expiry hbs ≡ []
  unfolding dec_lt
  none_fresh now expiry [] old = refl
  none_fresh now expiry (hb ∷ hbs) (old, olds) = ground (arith, none_fresh now expiry hbs olds)

  -- A registered collector whose heartbeats have all reached the expiry age is dropped from the
  -- expected collectors by the next sweep, and no later message puts it back. So from then on no
  -- status lists it as offline, however long it stays silent and whatever happens meanwhile. The
  -- same status lists a collector as offline exactly if it is expected and not online.
  pub expired_never_offline :
      (mgr : CollectorManager x) (uuid other : Text) (hbs : List (CollectorHeartbeat x))
      (now expiry : ℕ) (later more last : List (ℕ × CollectorManagerMsg x))
      → lookup Text-discrete uuid mgr.registered_collectors ≡ some hbs
      → All (λ hb. hb.timestamp + expiry ≤ now) hbs
      → let swept = (handle_msg x now mgr (CollectorManagerMsg.sweep_heartbeats expiry)).0 in
        let first = run x swept later in
        let second = run x first more in
        let status = compute_status x first second (run x second last) in
        (contains Text-discrete uuid swept.expected_collectors ≡ false)
        × (contains Text-discrete uuid first.expected_collectors ≡ false)
        × (contains Text-discrete uuid second.expected_collectors ≡ false)
        × (contains Text-discrete uuid status.offline_collectors ≡ false)
        × (contains Text-discrete other status.offline_collectors ≡ (
            contains Text-discrete other second.expected_collectors
            && not (contains Text-discrete other (ids x status.statuses))))
  unfolding handle_msg sweep_heartbeats compute_status
  expired_never_offline mgr uuid other hbs now expiry later more last e old =
      let m = update_all (fresh x now expiry) mgr.registered_collectors in
      let swept = (handle_msg x now mgr (CollectorManagerMsg.sweep_heartbeats expiry)).0 in
      let gone = remove_inactive_empty uuid m mgr.expected_collectors (
        lookup-update_all Text-discrete uuid (fresh x now expiry) mgr.registered_collectors
        ∙ ap (Option.map (fresh x now expiry)) e
        ∙ ap some (none_fresh now expiry hbs old)) in
      let at_first = run-unexpected uuid later swept gone in
      let at_second = run-unexpected uuid more (run x swept later) at_first in
      (
        gone,
        at_first,
        at_second,
        contains-difference uuid _ _ ∙ false_and _ _ at_second,
        contains-difference other _ _,
      )
