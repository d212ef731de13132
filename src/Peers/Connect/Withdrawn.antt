-- ===== src/Peers/Connect/Withdrawn.antt =====
-- What an attempt announces to the actor, and what a failed one leaves there.
use gossip_observer.Extern.{Extern}
use gossip_observer.Peers.Connect.{Clock, try_add_peer, sort_specs, adds, removes}
use gossip_observer.Peers.Connect.Order.{
  only_clearnet, only_tor, sort_specs-clearnet_first, sort_specs-Any,
}
use gossip_observer.Peers.Pending.{pending_times, times_step, times_run, run-times}
use gossip_observer.Peers.State.{
  PeerConnManager, ConnManagerMsg, ConnMsgs, PeerSpecifier-discrete, run,
}
use gossip_observer.Prelude.{
  ℕ, ◌≡◌, ◌≢◌, refl, ap, ◌∙◌, false, List, [], ◌∷◌, ◌++◌, arith, inl, inr, Result, All, All-append,
  Any, Any-append_left, Any-append_right, if_pos, if_neg, filter, dec_lt, suc, ◌+◌, ◌<◌, length,
  subst, sym,
}
use gossip_observer.Prelude.Text.{Text}
use mathlib.Core.Logic.{dite}
use gossip_observer.Types.Peers.{PeerSpecifier, PeerConnectionInfo, split}

module _ (x : Extern) where
  -- The mailbox when other tasks send their messages before each message of this task.
  abbrev pub weave : List (ConnMsgs x) → ConnMsgs x → ConnMsgs x
  weave others [] = []
  weave [] (m ∷ ms) = m ∷ weave [] ms
  weave (o ∷ os) (m ∷ ms) = o ++ m ∷ weave os ms

  module _ (P : ℕ × ConnManagerMsg x → Type 0) where
    weave-All :
        (os : List (ConnMsgs x)) (ms : ConnMsgs x) → All (All P) os → All P ms → All P (weave os ms)
    weave-All os [] h k = tt
    weave-All [] (m ∷ ms) h (k, ks) = (k, weave-All [] ms h ks)
    weave-All (o ∷ os) (m ∷ ms) (h, hs) (k, ks) =
        All-append P o (m ∷ weave os ms) h (k, weave-All os ms hs ks)

    weave-Any : (os : List (ConnMsgs x)) (ms : ConnMsgs x) → Any P ms → Any P (weave os ms)
    weave-Any os [] h = absurd h
    weave-Any [] (m ∷ ms) (inl h) = inl h
    weave-Any [] (m ∷ ms) (inr h) = inr (weave-Any [] ms h)
    weave-Any (o ∷ os) (m ∷ ms) (inl h) = Any-append_right P o (m ∷ weave os ms) (inl h)
    weave-Any (o ∷ os) (m ∷ ms) (inr h) =
        Any-append_right P o (m ∷ weave os ms) (inr (weave-Any os ms h))

  module _ (s : PeerSpecifier x) where
    -- The message adds no attempt on `s`.
    abbrev pub NotAdding : ℕ × ConnManagerMsg x → Type 0
    NotAdding (now, ConnManagerMsg.add_pending_conn p) = p.peer ≢ s
    NotAdding (now, _) = Unit

    -- The message takes no attempt on `s` of the time `t` away.
    abbrev pub NotTaking : ℕ → ℕ × ConnManagerMsg x → Type 0
    NotTaking t (now, ConnManagerMsg.remove_pending_conn r) = r ≢ s
    NotTaking t (now, ConnManagerMsg.sweep_pending_connections delay) = now < t + delay
    NotTaking t (now, _) = Unit

    abbrev IsRemoval : ℕ × ConnManagerMsg x → Type 0
    IsRemoval (now, ConnManagerMsg.remove_pending_conn r) = r ≡ s
    IsRemoval (now, _) = ⊥

    abbrev IsAddition : ℕ → ℕ × ConnManagerMsg x → Type 0
    IsAddition t (now, ConnManagerMsg.add_pending_conn p) = (p.peer ≡ s) × (p.conn_time ≡ t)
    IsAddition t (now, _) = ⊥

    step_empty :
        (now : ℕ) (msg : ConnManagerMsg x) → NotAdding (now, msg) → times_step x s now [] msg ≡ []
    step_empty now (ConnManagerMsg.add_pending_conn p) h =
        if_neg (PeerSpecifier-discrete x p.peer s) h _ _
    step_empty now (ConnManagerMsg.remove_pending_conn r) h = ground arith
    step_empty now (ConnManagerMsg.sweep_pending_connections delay) h = refl
    step_empty now _ h = refl

    stay_empty : (msgs : ConnMsgs x) → All NotAdding msgs → times_run x s [] msgs ≡ []
    stay_empty [] h = refl
    stay_empty ((now, msg) ∷ msgs) (h, hs) =
        ap (λ ts. times_run x s ts msgs) (step_empty now msg h) ∙ stay_empty msgs hs

    become_empty :
        (ts : List ℕ) (msgs : ConnMsgs x)
        → All NotAdding msgs
        → Any IsRemoval msgs
        → times_run x s ts msgs ≡ []
    become_empty ts [] h r = absurd r
    become_empty ts ((now, ConnManagerMsg.remove_pending_conn r) ∷ msgs) (h, hs) (inl e) =
        ap (λ l. times_run x s l msgs) (if_pos (PeerSpecifier-discrete x r s) e _ _)
        ∙ stay_empty msgs hs
    become_empty ts ((now, msg) ∷ msgs) (h, hs) (inr r) =
        become_empty (times_step x s now ts msg) msgs hs r
    become_empty ts ((now, _) ∷ msgs) (h, hs) (inl e) = absurd e

    filter_keeps :
        (t now delay : ℕ) (ts : List ℕ)
        → now < t + delay
        → Any (λ u. u ≡ t) ts
        → Any (λ u. u ≡ t) (filter (λ u. dec_lt now (u + delay)) ts)
    filter_keeps t now delay [] h a = absurd a
    filter_keeps t now delay (u ∷ ts) h a =
        at_decision (dec_lt now (u + delay)) (filter_keeps t now delay ts h) a
      where
        at_decision :
            (d : Dec (now < u + delay))
            → (Any (λ v. v ≡ t) ts → Any (λ v. v ≡ t) (filter (λ v. dec_lt now (v + delay)) ts))
            → Any (λ v. v ≡ t) (u ∷ ts)
            → Any
                (λ v. v ≡ t)
                (dite d
                  (λ _. u ∷ filter (λ v. dec_lt now (v + delay)) ts)
                  (λ _. filter (λ v. dec_lt now (v + delay)) ts))
        at_decision (yes p) ih (inl e) = inl e
        at_decision (yes p) ih (inr b) = inr (ih b)
        at_decision (no p) ih (inl e) = absurd (p (omega (arith, e, h)))
        at_decision (no p) ih (inr b) = ih b

    step_keeps :
        (t now : ℕ) (ts : List ℕ) (msg : ConnManagerMsg x)
        → NotTaking t (now, msg)
        → Any (λ u. u ≡ t) ts
        → Any (λ u. u ≡ t) (times_step x s now ts msg)
    step_keeps t now ts (ConnManagerMsg.add_pending_conn p) h a =
        elim (PeerSpecifier-discrete x p.peer s) [
          | yes e ↦
              rw (if_pos (PeerSpecifier-discrete x p.peer s) e)
                (Any-append_left (λ u. u ≡ t) ts _ a)
          | no e ↦ rw (if_neg (PeerSpecifier-discrete x p.peer s) e) a
        ]
    step_keeps t now ts (ConnManagerMsg.remove_pending_conn r) h a =
        rw (if_neg (PeerSpecifier-discrete x r s) h) a
    step_keeps t now ts (ConnManagerMsg.sweep_pending_connections delay) h a =
        filter_keeps t now delay ts h a
    step_keeps t now ts _ h a = a

    run_keeps :
        (t : ℕ) (ts : List ℕ) (msgs : ConnMsgs x)
        → All (NotTaking t) msgs
        → Any (λ u. u ≡ t) ts
        → Any (λ u. u ≡ t) (times_run x s ts msgs)
    run_keeps t ts [] h a = a
    run_keeps t ts ((now, msg) ∷ msgs) (h, hs) a =
        run_keeps t (times_step x s now ts msg) msgs hs (step_keeps t now ts msg h a)

    run_adds :
        (t : ℕ) (ts : List ℕ) (msgs : ConnMsgs x)
        → All (NotTaking t) msgs
        → Any (IsAddition t) msgs
        → Any (λ u. u ≡ t) (times_run x s ts msgs)
    run_adds t ts [] h a = absurd a
    run_adds t ts ((now, ConnManagerMsg.add_pending_conn p) ∷ msgs) (h, hs) (inl (e, e')) =
        run_keeps t _ msgs hs (
          rw (if_pos (PeerSpecifier-discrete x p.peer s) e)
            (Any-append_right (λ u. u ≡ t) ts (p.conn_time ∷ []) (inl e')))
    run_adds t ts ((now, msg) ∷ msgs) (h, hs) (inr a) =
        run_adds t (times_step x s now ts msg) msgs hs a
    run_adds t ts ((now, _) ∷ msgs) (h, hs) (inl a) = absurd a

    removes-NotAdding :
        (clock : Clock x) (n : ℕ) (ss : List (PeerSpecifier x))
        → All NotAdding (removes x clock n ss)
    removes-NotAdding clock n [] = tt
    removes-NotAdding clock n (r ∷ ss) = (tt, removes-NotAdding clock (suc n) ss)

    adds-NotTaking :
        (t : ℕ) (clock : Clock x) (n : ℕ) (ss : List (PeerSpecifier x))
        → All (NotTaking t) (adds x clock n ss)
    adds-NotTaking t clock n [] = tt
    adds-NotTaking t clock n (r ∷ ss) = (tt, adds-NotTaking t clock (suc n) ss)

    removes-Any :
        (clock : Clock x) (n : ℕ) (ss : List (PeerSpecifier x))
        → Any (λ r. r ≡ s) ss
        → Any IsRemoval (removes x clock n ss)
    removes-Any clock n [] h = absurd h
    removes-Any clock n (r ∷ ss) (inl h) = inl h
    removes-Any clock n (r ∷ ss) (inr h) = inr (removes-Any clock (suc n) ss h)

    adds-Any :
        (clock : Clock x) (n : ℕ) (before after : List (PeerSpecifier x))
        → Any
            (IsAddition (clock.announced (length before + n)))
            (adds x clock n (before ++ s ∷ after))
    adds-Any clock n [] after = inl (refl, ap clock.announced (omega arith))
    adds-Any clock n (r ∷ before) after = inr (
        subst
          (λ k. Any (IsAddition (clock.announced k)) (adds x clock (suc n) (before ++ s ∷ after)))
          (omega arith) (adds-Any clock (suc n) before after))

  sent_after-failed :
      (node : ℕ → PeerSpecifier x → Result (Unit {0}) Text) (clock : Clock x)
      (peer : PeerConnectionInfo x)
      → (try_add_peer x node clock peer).connected ≡ false
      → (try_add_peer x node clock peer).sent_after
        ≡ removes x clock 0 (sort_specs x (split x peer))
  unfolding try_add_peer
  sent_after-failed node clock peer e = rw (e, try_add_peer) refl

  -- If no address of a peer answers, then none of its addresses is left in the pending connections
  -- when the actor has handled the removals, whatever state it was in and whatever other tasks send
  -- meanwhile, as long as they announce no attempt on that address themselves.
  pub try_add_peer_withdrawn :
      (node : ℕ → PeerSpecifier x → Result (Unit {0}) Text) (clock : Clock x)
      (peer : PeerConnectionInfo x) (mgr : PeerConnManager x) (others : List (ConnMsgs x))
      (s : PeerSpecifier x)
      → (try_add_peer x node clock peer).connected ≡ false
      → Any (λ r. r ≡ s) (split x peer)
      → All (All (NotAdding s)) others
      → let sent = (try_add_peer x node clock peer).sent_after in
        pending_times x s (run x mgr (weave others sent)).pending_conns ≡ []
  try_add_peer_withdrawn node clock peer mgr others s e h q =
      let msgs = removes x clock 0 (sort_specs x (split x peer)) in
      let specs = sort_specs x (split x peer) in
      ap (λ sent. pending_times x s (run x mgr (weave others sent)).pending_conns)
        (sent_after-failed node clock peer e)
      ∙ run-times x s (weave others msgs) mgr
      ∙ become_empty s _ (weave others msgs)
          (weave-All (NotAdding s) others msgs q (removes-NotAdding s clock 0 specs))
          (weave-Any (IsRemoval s) others msgs
            (removes-Any s clock 0 specs (sort_specs-Any x (λ r. r ≡ s) (split x peer) h)))

  -- Before the first address is tried every address of the peer is pending since the time of its
  -- own announcement, when the actor has handled the announcements, if no message of other tasks in
  -- between takes that attempt away: no removal of the address, and no sweep after the attempt
  -- expired.
  pub try_add_peer_announced :
      (node : ℕ → PeerSpecifier x → Result (Unit {0}) Text) (clock : Clock x)
      (peer : PeerConnectionInfo x) (mgr : PeerConnManager x) (others : List (ConnMsgs x))
      (before : List (PeerSpecifier x)) (s : PeerSpecifier x) (after : List (PeerSpecifier x))
      → only_clearnet x (split x peer) ++ only_tor x (split x peer) ≡ before ++ s ∷ after
      → All (All (NotTaking s (clock.announced (length before)))) others
      → let a = try_add_peer x node clock peer in
        Any
          (λ t. t ≡ clock.announced (length before))
          (pending_times x s (run x mgr (weave others a.sent_before)).pending_conns)
  unfolding try_add_peer
  try_add_peer_announced node clock peer mgr others before s after order q =
      let t = clock.announced (length before) in
      let specs = sort_specs x (split x peer) in
      let msgs = weave others (adds x clock 0 specs) in
      rw (run-times x s msgs mgr) (
        run_adds s t _ msgs
          (weave-All (NotTaking s t) others (adds x clock 0 specs) q
            (adds-NotTaking s t clock 0 specs))
          (weave-Any (IsAddition s t) others (adds x clock 0 specs) (
            subst (λ l. Any (IsAddition s t) (adds x clock 0 l))
              (sym (sort_specs-clearnet_first x (split x peer) ∙ order))
              (subst
                (λ k. Any (IsAddition s (clock.announced k)) (adds x clock 0 (before ++ s ∷ after)))
                (omega arith) (adds-Any s clock 0 before after)))))
