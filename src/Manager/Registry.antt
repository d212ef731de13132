-- ===== src/Manager/Registry.antt =====
-- The registry of collectors against a log of heartbeats for each of them.
use gossip_observer.Extern.{Extern}
use gossip_observer.Manager.State.{
  CollectorManager, CollectorManagerMsg, CollectorState, CollectionConfig, Reply, new_collector,
  active, new,
}
use gossip_observer.Manager.Handle.{
  Registered, add_collector, sweep_heartbeats, fresh, is_kept, or_empty, handle_msg, run,
}
use gossip_observer.Prelude.{
  ℕ, ◌≡◌, ◌≢◌, refl, sym, ap, ◌∙◌, List, [], ◌∷◌, ◌++◌, Option, none, some, last?, arith, ite,
  Option-cases, inl, inr,
}
use gossip_observer.Prelude.Map.{
  lookup, retain, update_all, IsMap, lookup-insert, insert-IsMap, lookup-update_all,
  update_all-IsMap, lookup-retain, retain-IsMap, keep_if,
}
use gossip_observer.Prelude.Text.{Text, Text-discrete}
use mathlib.Core.List.{concat-ne-nil}
use mathlib.Core.Option
use mathlib.Core.Option.{none-ne-some}
use gossip_observer.Types.Collector.{CollectorInfo, CollectorHeartbeat}

module _ (x : Extern) where
  -- No uuid stands twice, and a registered collector has a heartbeat.
  pub record IsRegistry (m : Registered x) : Type 0 where
    pub distinct : IsMap Text-discrete m
    pub alive :
        (uuid : Text) (hbs : List (CollectorHeartbeat x))
        → lookup Text-discrete uuid m ≡ some hbs
        → hbs ≢ []

  -- The specification: the heartbeats of one collector, oldest first.
  abbrev pub Log : Type 0
  Log = List (CollectorHeartbeat x)

  abbrev pub log : CollectorManager x → Text → Log
  log mgr uuid = or_empty (lookup Text-discrete uuid mgr.registered_collectors)

  abbrev pub log_step : Text → ℕ → Log → CollectorManagerMsg x → Log
  log_step uuid now l (CollectorManagerMsg.add_collector info) =
      ite (Text-discrete info.uuid uuid) (l ++ record { info = info; timestamp = now } ∷ []) l
  log_step uuid now l (CollectorManagerMsg.sweep_heartbeats expiry) = fresh x now expiry l
  log_step uuid now l _ = l

  abbrev pub log_run : Text → Log → List (ℕ × CollectorManagerMsg x) → Log
  log_run uuid l [] = l
  log_run uuid l ((now, msg) ∷ msgs) = log_run uuid (log_step uuid now l msg) msgs

  add_collector-lookup :
      (uuid : Text) (now : ℕ) (info : CollectorInfo x) (m : Registered x)
      → or_empty (lookup Text-discrete uuid (add_collector x now info m).0)
        ≡ log_step uuid now
            (or_empty (lookup Text-discrete uuid m))
            (CollectorManagerMsg.add_collector info)
  unfolding add_collector
  add_collector-lookup uuid now info m =
      let hb : CollectorHeartbeat x = record { info = info; timestamp = now } in
      elim (Option-cases (lookup Text-discrete info.uuid m)) [
        | inl e ↦
            rw (e, add_collector)
              (ground (arith, lookup-insert Text-discrete uuid info.uuid (hb ∷ []) m))
        | inr (hbs, e) ↦
            rw (e, add_collector)
              (ground (arith, lookup-insert Text-discrete uuid info.uuid (hbs ++ hb ∷ []) m))
      ]

  add_collector-IsRegistry :
      (now : ℕ) (info : CollectorInfo x) (m : Registered x)
      → IsRegistry m
      → IsRegistry (add_collector x now info m).0
  unfolding add_collector
  add_collector-IsRegistry now info m r =
      let hb : CollectorHeartbeat x = record { info = info; timestamp = now } in
      elim (Option-cases (lookup Text-discrete info.uuid m)) [
        | inl e ↦
            rw (e, add_collector)
              (record {
                distinct = insert-IsMap Text-discrete info.uuid (hb ∷ []) m r.distinct;
                alive = λ uuid hbs f none_left. ground (
                  arith,
                  lookup-insert Text-discrete uuid info.uuid (hb ∷ []) m,
                  r.alive uuid hbs,
                );
              })
        | inr (old, e) ↦
            rw (e, add_collector)
              (record {
                distinct = insert-IsMap Text-discrete info.uuid (old ++ hb ∷ []) m r.distinct;
                alive = λ uuid hbs f none_left. ground (
                  arith,
                  lookup-insert Text-discrete uuid info.uuid (old ++ hb ∷ []) m,
                  r.alive uuid hbs,
                  concat-ne-nil hb old,
                );
              })
      ]

  or_empty-keep_if : (l : Log) → or_empty (keep_if is_kept (some l)) ≡ l
  or_empty-keep_if [] = refl
  or_empty-keep_if (hb ∷ l) = refl

  module _ (now expiry : ℕ) (m : Registered x) (r : IsRegistry m) where
    swept_lookup :
        (uuid : Text)
        → lookup Text-discrete uuid (retain is_kept (update_all (fresh x now expiry) m))
          ≡ keep_if is_kept (Option.map (fresh x now expiry) (lookup Text-discrete uuid m))
    swept_lookup uuid =
        lookup-retain Text-discrete uuid is_kept _
          (update_all-IsMap Text-discrete (fresh x now expiry) m r.distinct)
        ∙ ap (keep_if is_kept) (lookup-update_all Text-discrete uuid (fresh x now expiry) m)

    sweep-lookup :
        (uuid : Text)
        → or_empty (lookup Text-discrete uuid (retain is_kept (update_all (fresh x now expiry) m)))
          ≡ fresh x now expiry (or_empty (lookup Text-discrete uuid m))
    sweep-lookup uuid = rw (swept_lookup uuid) (cases (lookup Text-discrete uuid m))
      where
        cases :
            (o : Option Log)
            → or_empty (keep_if is_kept (Option.map (fresh x now expiry) o))
              ≡ fresh x now expiry (or_empty o)
        cases none = refl
        cases (some l) = or_empty-keep_if (fresh x now expiry l)

    kept_alive : (o : Option Log) (hbs : Log) → keep_if is_kept o ≡ some hbs → hbs ≢ []
    kept_alive none hbs e = cc
    kept_alive (some []) hbs e = cc
    kept_alive (some (h ∷ hs)) hbs e = λ n. ground arith

    sweep-IsRegistry : IsRegistry (retain is_kept (update_all (fresh x now expiry) m))
    sweep-IsRegistry = record {
      distinct =
          retain-IsMap Text-discrete is_kept _
            (update_all-IsMap Text-discrete (fresh x now expiry) m r.distinct);
      alive = λ uuid hbs e. kept_alive _ hbs (sym (swept_lookup uuid) ∙ e);
    }

  pub handle_msg-IsRegistry :
      (now : ℕ) (mgr : CollectorManager x) (msg : CollectorManagerMsg x)
      → IsRegistry mgr.registered_collectors
      → IsRegistry (handle_msg x now mgr msg).0.registered_collectors
  unfolding handle_msg sweep_heartbeats
  handle_msg-IsRegistry now mgr (CollectorManagerMsg.add_collector info) r =
      add_collector-IsRegistry now info mgr.registered_collectors r
  handle_msg-IsRegistry now mgr (CollectorManagerMsg.sweep_heartbeats expiry) r =
      sweep-IsRegistry now expiry mgr.registered_collectors r
  handle_msg-IsRegistry now mgr _ r = r

  pub handle_msg-log :
      (uuid : Text) (now : ℕ) (mgr : CollectorManager x) (msg : CollectorManagerMsg x)
      → IsRegistry mgr.registered_collectors
      → log (handle_msg x now mgr msg).0 uuid ≡ log_step uuid now (log mgr uuid) msg
  unfolding handle_msg sweep_heartbeats
  handle_msg-log uuid now mgr (CollectorManagerMsg.add_collector info) r =
      add_collector-lookup uuid now info mgr.registered_collectors
  handle_msg-log uuid now mgr (CollectorManagerMsg.sweep_heartbeats expiry) r =
      sweep-lookup now expiry mgr.registered_collectors r uuid
  handle_msg-log uuid now mgr _ r = refl

  pub run-log :
      (uuid : Text) (mgr : CollectorManager x) (msgs : List (ℕ × CollectorManagerMsg x))
      → IsRegistry mgr.registered_collectors
      → IsRegistry (run x mgr msgs).registered_collectors
        × (log (run x mgr msgs) uuid ≡ log_run uuid (log mgr uuid) msgs)
  unfolding run
  run-log uuid mgr [] r = (r, refl)
  run-log uuid mgr ((now, msg) ∷ msgs) r =
      let (r', e) =
        run-log uuid (handle_msg x now mgr msg).0 msgs (handle_msg-IsRegistry now mgr msg r) in
      (r', e ∙ ap (λ l. log_run uuid l msgs) (handle_msg-log uuid now mgr msg r))

  pub log-new : (cfg : CollectionConfig x) (uuid : Text) → log (new x cfg) uuid ≡ []
  unfolding new lookup
  log-new cfg uuid = refl

  pub new-IsRegistry : (cfg : CollectionConfig x) → IsRegistry (new x cfg).registered_collectors
  unfolding new lookup
  new-IsRegistry cfg = record { distinct = tt; alive = λ uuid hbs e. absurd (none-ne-some hbs e) }

  abbrev pub state_of : Log → CollectorState
  state_of [] = new_collector
  state_of (hb ∷ l) = active

  add_collector-state :
      (now : ℕ) (info : CollectorInfo x) (m : Registered x)
      → IsRegistry m
      → (add_collector x now info m).1 ≡ state_of (or_empty (lookup Text-discrete info.uuid m))
  unfolding add_collector
  add_collector-state now info m r = cases (lookup Text-discrete info.uuid m) refl
    where
      cases :
          (o : Option Log)
          → lookup Text-discrete info.uuid m ≡ o
          → (add_collector x now info m).1 ≡ state_of (or_empty o)
      cases none e = rw (e, add_collector)
      cases (some []) e = absurd (r.alive info.uuid [] e refl)
      cases (some (hb ∷ l)) e = rw (e, add_collector)

  -- After any history of messages the actor knows of a collector exactly the heartbeats in a log
  -- that appends each of its heartbeats with the time of its handling, and at each sweep drops those
  -- that have reached the expiry age. A heartbeat is answered `New` when that log is empty and
  -- `Active` otherwise, and a query by uuid returns the last heartbeat of the log, if there is one.
  pub run-refines_log :
      (cfg : CollectionConfig x) (msgs : List (ℕ × CollectorManagerMsg x)) (now : ℕ)
      (info : CollectorInfo x)
      → let mgr = run x (new x cfg) msgs in
        let l = log_run info.uuid [] msgs in
        (log mgr info.uuid ≡ l)
        × ((handle_msg x now mgr (CollectorManagerMsg.add_collector info)).1
            ≡ Reply.state (state_of l))
        × ((handle_msg x now mgr (CollectorManagerMsg.get_collector_by_uuid info.uuid)).1
            ≡ Reply.collector (last? l))
  unfolding handle_msg
  run-refines_log cfg msgs now info =
      let (r, from_new) = run-log info.uuid (new x cfg) msgs (new-IsRegistry cfg) in
      let e = from_new ∙ ap (λ l. log_run info.uuid l msgs) (log-new cfg info.uuid) in
      (
        e,
        ap Reply.state (add_collector-state now info _ r ∙ ap state_of e),
        ap (λ l. Reply.collector (last? l)) e,
      )
