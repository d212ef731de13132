-- ===== src/Peers/Eligible.antt =====
-- The eligible peers: no key twice, the key set in step with the queue, the first information kept.
use gossip_observer.Extern.{Extern}
use gossip_observer.Peers.State.{
  PeerConnManager, ConnManagerMsg, ConnMsgs, new_manager, build_pending_filter, add_peer,
  rotate_left, handle_msg, run,
}
use gossip_observer.Prelude.{
  ℕ, ◌≡◌, refl, sym, ap, ◌∙◌, Bool, true, false, List, [], ◌∷◌, ◌++◌, Option, none, some, map,
  map-append, ite, arith, Bool-cases, inl, inr, if_neg, subst,
}
use gossip_observer.Prelude.Map.{
  lookup, contains, contains-add, IsMap, lookup-append, snoc-IsMap, or_else,
}
use gossip_observer.Types.Peers.{PeerConnectionInfo}
use mathlib.Core.Bool.{false≢true}

abbrev pub is_found {ℓ} : {A : Type ℓ} → Option A → Bool
is_found none = false
is_found (some a) = true

module _ (x : Extern) where
  abbrev pub Entry : Type 0
  Entry = x.PublicKey × PeerConnectionInfo x

  abbrev pub entry : PeerConnectionInfo x → Entry
  entry p = (p.pubkey, p)

  -- What the queue holds for a key.
  abbrev pub find_peer : x.PublicKey → List (PeerConnectionInfo x) → Option (PeerConnectionInfo x)
  find_peer k ps = lookup x.pubkey_discrete k (map entry ps)

  pub record IsWellFormed (mgr : PeerConnManager x) : Type 0 where
    pub distinct : IsMap x.pubkey_discrete (map entry mgr.eligible_peers)
    pub in_step :
        (k : x.PublicKey)
        → contains x.pubkey_discrete k mgr.eligible_peer_pubkeys
          ≡ is_found (find_peer k mgr.eligible_peers)
    pub notified : mgr.pending_notifier ≡ build_pending_filter x mgr.pending_conns

  -- The specification: what a history leaves for one key. The first information wins until the
  -- queue is emptied.
  abbrev pub first_step :
      x.PublicKey → Option (PeerConnectionInfo x) → ConnManagerMsg x → Option (PeerConnectionInfo x)
  first_step k o (ConnManagerMsg.add_eligible_peer p) =
      or_else o (ite (x.pubkey_discrete p.pubkey k) (some p) none)
  first_step k o ConnManagerMsg.empty_eligible_peers = none
  first_step k o _ = o

  abbrev pub first_run :
      x.PublicKey → Option (PeerConnectionInfo x) → ConnMsgs x → Option (PeerConnectionInfo x)
  first_run k o [] = o
  first_run k o ((now, msg) ∷ msgs) = first_run k (first_step k o msg) msgs

  find_peer-snoc :
      (k : x.PublicKey) (ps : List (PeerConnectionInfo x)) (p : PeerConnectionInfo x)
      → find_peer k (ps ++ p ∷ [])
        ≡ or_else (find_peer k ps) (ite (x.pubkey_discrete p.pubkey k) (some p) none)
  unfolding lookup
  find_peer-snoc k ps p =
      rw (map-append entry ps (p ∷ [])) (lookup-append x.pubkey_discrete k (map entry ps) _)

  snoc-distinct :
      (ps : List (PeerConnectionInfo x)) (p : PeerConnectionInfo x)
      → find_peer p.pubkey ps ≡ none
      → IsMap x.pubkey_discrete (map entry ps)
      → IsMap x.pubkey_discrete (map entry (ps ++ p ∷ []))
  snoc-distinct ps p e h =
      rw (map-append entry ps (p ∷ [])) (snoc-IsMap x.pubkey_discrete p.pubkey p (map entry ps) e h)

  not_found : {A : Type 0} (o : Option A) → is_found o ≡ false → o ≡ none
  not_found none e = refl
  not_found (some a) e = cc

  found : {A : Type 0} (o : Option A) → is_found o ≡ true → (a : A) × (o ≡ some a)
  found none e = cc
  found (some a) e = (a, refl)

  keep_known :
      (k : x.PublicKey) (o : Option (PeerConnectionInfo x)) (p : PeerConnectionInfo x)
      → (p.pubkey ≡ k → is_found o ≡ true)
      → o ≡ first_step k o (ConnManagerMsg.add_eligible_peer p)
  keep_known k (some q) p h = refl
  keep_known k none p h = elim (x.pubkey_discrete p.pubkey k) [
    | yes e ↦ absurd (false≢true (h e))
    | no e ↦ rw (if_neg (x.pubkey_discrete p.pubkey k) e) refl
  ]

  is_found-or_else :
      (k : x.PublicKey) (b : Bool) (o : Option (PeerConnectionInfo x)) (p : PeerConnectionInfo x)
      → b ≡ is_found o
      → ite (x.pubkey_discrete p.pubkey k) true b
        ≡ is_found (first_step k o (ConnManagerMsg.add_eligible_peer p))
  is_found-or_else k b o p e = ground arith

  add_peer-IsWellFormed :
      (mgr : PeerConnManager x) (p : PeerConnectionInfo x)
      → IsWellFormed mgr
      → IsWellFormed (add_peer x mgr p)
        × ((k : x.PublicKey)
            → find_peer k (add_peer x mgr p).eligible_peers
              ≡ first_step k (find_peer k mgr.eligible_peers) (ConnManagerMsg.add_eligible_peer p))
  unfolding add_peer
  add_peer-IsWellFormed mgr p h =
      elim (Bool-cases (contains x.pubkey_discrete p.pubkey mgr.eligible_peer_pubkeys)) [
        | inl e ↦
            rw (e, add_peer)
              (
                h,
                λ k. keep_known k (find_peer k mgr.eligible_peers) p (λ q.
                    subst (λ j. is_found (find_peer j mgr.eligible_peers) ≡ true) q
                      (sym (h.in_step p.pubkey) ∙ e)),
              )
        | inr e ↦
            rw (e, add_peer)
              (
                record {
                  distinct =
                      snoc-distinct mgr.eligible_peers p
                        (not_found (find_peer p.pubkey mgr.eligible_peers)
                          (sym (h.in_step p.pubkey) ∙ e))
                        h.distinct;
                  in_step = λ k.
                      contains-add x.pubkey_discrete k p.pubkey mgr.eligible_peer_pubkeys
                      ∙ is_found-or_else k _ _ p (h.in_step k)
                      ∙ ap is_found (sym (find_peer-snoc k mgr.eligible_peers p));
                  notified = h.notified;
                },
                λ k. find_peer-snoc k mgr.eligible_peers p,
              )
      ]

  find_peer-rotate :
      (k : x.PublicKey) (ps : List (PeerConnectionInfo x))
      → IsMap x.pubkey_discrete (map entry ps)
      → find_peer k (rotate_left x ps) ≡ find_peer k ps
  unfolding rotate_left lookup
  find_peer-rotate k [] h = refl
  find_peer-rotate k (p ∷ ps) (fresh, rest) = ground (arith, find_peer-snoc k ps p)

  rotate-distinct :
      (ps : List (PeerConnectionInfo x))
      → IsMap x.pubkey_discrete (map entry ps)
      → IsMap x.pubkey_discrete (map entry (rotate_left x ps))
  unfolding rotate_left
  rotate-distinct [] h = h
  rotate-distinct (p ∷ ps) (fresh, rest) = snoc-distinct ps p fresh rest

  handle_msg-IsWellFormed :
      (now : ℕ) (mgr : PeerConnManager x) (msg : ConnManagerMsg x)
      → IsWellFormed mgr
      → IsWellFormed (handle_msg x now mgr msg).0
        × ((k : x.PublicKey)
            → find_peer k (handle_msg x now mgr msg).0.eligible_peers
              ≡ first_step k (find_peer k mgr.eligible_peers) msg)
  unfolding handle_msg
  handle_msg-IsWellFormed now mgr (ConnManagerMsg.add_eligible_peer p) h =
      add_peer-IsWellFormed mgr p h
  handle_msg-IsWellFormed now mgr ConnManagerMsg.rotate_eligible_peers h = (
    record {
      distinct = rotate-distinct mgr.eligible_peers h.distinct;
      in_step =
          λ k. h.in_step k ∙ ap is_found (sym (find_peer-rotate k mgr.eligible_peers h.distinct));
      notified = h.notified;
    },
    λ k. find_peer-rotate k mgr.eligible_peers h.distinct,
  )
  handle_msg-IsWellFormed now mgr ConnManagerMsg.empty_eligible_peers h = (
    record { distinct = tt; in_step = λ k. unfold contains lookup in refl; notified = h.notified },
    λ k. unfold lookup in refl,
  )
  handle_msg-IsWellFormed now mgr (ConnManagerMsg.add_pending_conn p) h =
      (record { distinct = h.distinct; in_step = h.in_step; notified = refl }, λ k. refl)
  handle_msg-IsWellFormed now mgr (ConnManagerMsg.remove_pending_conn s) h =
      (record { distinct = h.distinct; in_step = h.in_step; notified = refl }, λ k. refl)
  handle_msg-IsWellFormed now mgr (ConnManagerMsg.sweep_pending_connections d) h =
      (record { distinct = h.distinct; in_step = h.in_step; notified = refl }, λ k. refl)
  handle_msg-IsWellFormed now mgr _ h = (h, λ k. refl)

  pub run-IsWellFormed :
      (mgr : PeerConnManager x) (msgs : ConnMsgs x)
      → IsWellFormed mgr
      → IsWellFormed (run x mgr msgs)
        × ((k : x.PublicKey)
            → find_peer k (run x mgr msgs).eligible_peers
              ≡ first_run k (find_peer k mgr.eligible_peers) msgs)
  unfolding run
  run-IsWellFormed mgr [] h = (h, λ k. refl)
  run-IsWellFormed mgr ((now, msg) ∷ msgs) h =
      let (w, f) = handle_msg-IsWellFormed now mgr msg h in
      let (w', f') = run-IsWellFormed (handle_msg x now mgr msg).0 msgs w in
      (w', λ k. f' k ∙ ap (λ o. first_run k o msgs) (f k))

  pub new_manager-IsWellFormed : IsWellFormed (new_manager x)
  unfolding contains lookup build_pending_filter
  new_manager-IsWellFormed = record { distinct = tt; in_step = λ k. refl; notified = refl }

  -- After any history of messages no key stands twice in the queue of eligible peers, the set of
  -- their keys holds exactly the keys in the queue, and the watch channel holds the filter of the
  -- connections that are pending. For each key the queue holds the first information that was added
  -- since it was last emptied, if any was.
  pub run-eligible :
      (msgs : ConnMsgs x)
      → let mgr = run x (new_manager x) msgs in
        IsWellFormed mgr
        × ((k : x.PublicKey) → find_peer k mgr.eligible_peers ≡ first_run k none msgs)
  run-eligible msgs =
      let (w, f) = run-IsWellFormed (new_manager x) msgs new_manager-IsWellFormed in
      (w, λ k. unfold lookup in f k)
