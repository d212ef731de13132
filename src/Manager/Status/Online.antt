-- ===== src/Manager/Status/Online.antt =====
-- The status tells the registered collectors from the expected ones that are not registered.
use gossip_observer.Extern.{Extern}
use gossip_observer.Manager.State.{CollectorManager, CollectorManagerMsg, CollectionConfig, new}
use gossip_observer.Manager.Handle.{
  latest, Registered, add_collector, sweep_heartbeats, fresh, is_kept, handle_msg, run,
}
use gossip_observer.Manager.Registry.{new-IsRegistry, run-log}
use gossip_observer.Manager.Status.{compute_status, difference, ids, insert_by_uuid, sort_by_uuid}
use gossip_observer.Prelude.{
  ℕ, ◌+◌, ◌≡◌, ◌≢◌, refl, ap, ◌∙◌, sym, Bool, true, false, ◌&&◌, not, List, [], ◌∷◌, ◌++◌, Option,
  none, some, arith, All, All-append, All-filter, last?-All, Option-cases, inl, inr, dec_lt, ite,
}
use gossip_observer.Prelude.Map.{
  contains, contains-add, lookup, values, All-of_lookup, insert-All, update_all-All, retain-All,
  All-lookup, update_all,
}
use gossip_observer.Prelude.Text.{Text, Text-discrete}
use gossip_observer.Types.Collector.{CollectorInfo, CollectorHeartbeat}

abbrev pub is_some {ℓ} : {A : Type ℓ} → Option A → Bool
is_some none = false
is_some (some a) = true

pub contains-difference :
    (u : Text) (s t : List Text)
    → contains Text-discrete u (difference s t)
      ≡ (contains Text-discrete u s && not (contains Text-discrete u t))
unfolding difference contains
contains-difference u [] t = refl
contains-difference u (v ∷ s) t = elim (Text-discrete v u) [
  | yes p ↦ ground (arith, contains-difference u s t, ap (λ w. contains Text-discrete w t) p)
  | no p ↦ ground (arith, contains-difference u s t)
]

module _ (x : Extern) where
  ids-insert_by_uuid :
      (u : Text) (hb : CollectorHeartbeat x) (hbs : List (CollectorHeartbeat x))
      → contains Text-discrete u (ids x (insert_by_uuid x hb hbs))
        ≡ contains Text-discrete u (ids x (hb ∷ hbs))
  unfolding ids insert_by_uuid
  ids-insert_by_uuid u hb [] = refl
  ids-insert_by_uuid u hb (h ∷ hs) = ground (
    arith,
    ids-insert_by_uuid u hb hs,
    contains-add Text-discrete u h.info.uuid (ids x (insert_by_uuid x hb hs)),
    contains-add Text-discrete u h.info.uuid (ids x hs),
    contains-add Text-discrete u hb.info.uuid (ids x hs),
    contains-add Text-discrete u hb.info.uuid (ids x (h ∷ hs)),
  )

  ids-sort_by_uuid :
      (u : Text) (hbs : List (CollectorHeartbeat x))
      → contains Text-discrete u (ids x (sort_by_uuid x hbs)) ≡ contains Text-discrete u (ids x hbs)
  unfolding ids sort_by_uuid
  ids-sort_by_uuid u [] = refl
  ids-sort_by_uuid u (hb ∷ hbs) =
      ids-insert_by_uuid u hb (sort_by_uuid x hbs)
      ∙ contains-add Text-discrete u hb.info.uuid (ids x (sort_by_uuid x hbs))
      ∙ ap (ite (Text-discrete hb.info.uuid u) true) (ids-sort_by_uuid u hbs)
      ∙ sym (contains-add Text-discrete u hb.info.uuid (ids x hbs))

  -- A heartbeat is kept under the uuid that it carries.
  abbrev pub IsNamed : Registered x → Type 0
  IsNamed = All (λ e. All (λ hb. hb.info.uuid ≡ e.0) e.1)

  contains-latest :
      (u : Text) (m : Registered x)
      → All (λ e. e.1 ≢ []) m
      → IsNamed m
      → contains Text-discrete u (ids x (latest x (values m))) ≡ is_some (lookup Text-discrete u m)
  unfolding latest ids lookup contains
  contains-latest u [] a n = refl
  contains-latest u ((k, hbs) ∷ m) (a, as') (n, ns) =
      let (hb, e, named) = last?-All _ hbs a n in
      rw (e, latest)
        (ground (
          arith,
          contains-latest u m as' ns,
          contains-add Text-discrete u hb.info.uuid (ids x (latest x (values m))),
        ))

  add_collector-IsNamed :
      (now : ℕ) (info : CollectorInfo x) (m : Registered x)
      → IsNamed m
      → IsNamed (add_collector x now info m).0
  unfolding add_collector
  add_collector-IsNamed now info m n =
      let hb : CollectorHeartbeat x = record { info = info; timestamp = now } in
      elim (Option-cases (lookup Text-discrete info.uuid m)) [
        | inl e ↦
            rw (e, add_collector) (insert-All _ Text-discrete info.uuid (hb ∷ []) m (refl, tt) n)
        | inr (old, e) ↦
            rw (e, add_collector)
              (insert-All _ Text-discrete info.uuid (old ++ hb ∷ []) m
                (All-append _ old (hb ∷ []) (All-lookup _ Text-discrete info.uuid old m e n)
                  (refl, tt))
                n)
      ]

  handle_msg-IsNamed :
      (now : ℕ) (mgr : CollectorManager x) (msg : CollectorManagerMsg x)
      → IsNamed mgr.registered_collectors
      → IsNamed (handle_msg x now mgr msg).0.registered_collectors
  unfolding handle_msg sweep_heartbeats
  handle_msg-IsNamed now mgr (CollectorManagerMsg.add_collector info) n =
      add_collector-IsNamed now info mgr.registered_collectors n
  handle_msg-IsNamed now mgr (CollectorManagerMsg.sweep_heartbeats expiry) n =
      retain-All _ is_kept (update_all (fresh x now expiry) mgr.registered_collectors) (
        update_all-All _ (fresh x now expiry) mgr.registered_collectors
          (λ k hbs h. All-filter _ (λ hb. dec_lt now (hb.timestamp + expiry)) hbs h) n)
  handle_msg-IsNamed now mgr _ n = n

  run-IsNamed :
      (msgs : List (ℕ × CollectorManagerMsg x)) (mgr : CollectorManager x)
      → IsNamed mgr.registered_collectors
      → IsNamed (run x mgr msgs).registered_collectors
  unfolding run
  run-IsNamed [] mgr n = n
  run-IsNamed ((now, msg) ∷ msgs) mgr n =
      run-IsNamed msgs (handle_msg x now mgr msg).0 (handle_msg-IsNamed now mgr msg n)

  -- In a status that is computed after any history of messages, and while more messages arrive
  -- between its requests to the actor, exactly the collectors that were registered at the first
  -- request are online. Exactly the collectors that were expected at the second request and were
  -- not registered at the first are offline.
  pub compute_status_online :
      (cfg : CollectionConfig x) (before between m3 : List (ℕ × CollectorManagerMsg x))
      (uuid : Text)
      → let first = run x (new x cfg) before in
        let second = run x first between in
        let status = compute_status x first second (run x second m3) in
        let is_online = is_some (lookup Text-discrete uuid first.registered_collectors) in
        (contains Text-discrete uuid (ids x status.statuses) ≡ is_online)
        × (contains Text-discrete uuid status.offline_collectors
            ≡ (contains Text-discrete uuid second.expected_collectors && not is_online))
  unfolding compute_status
  compute_status_online cfg before between m3 uuid =
      let first = run x (new x cfg) before in
      let second = run x first between in
      let m = first.registered_collectors in
      let (r, _) = run-log x uuid (new x cfg) before (new-IsRegistry x cfg) in
      let alive = All-of_lookup Text-discrete (λ e. e.1 ≢ []) m r.distinct r.alive in
      let online =
        ids-sort_by_uuid uuid (latest x (values m))
        ∙ contains-latest uuid m alive (run-IsNamed before (new x cfg) (unfold new in tt)) in
      (
        online,
        contains-difference uuid second.expected_collectors
              (ids x (sort_by_uuid x (latest x (values m))))
            ∙ ap (λ b. contains Text-discrete uuid second.expected_collectors && not b) online,
      )
