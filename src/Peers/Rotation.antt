-- ===== src/Peers/Rotation.antt =====
-- `next_eligible_peer`: a peek and then a rotation, with other tasks' messages handled in between.
use gossip_observer.Extern.{Extern}
use gossip_observer.Peers.State.{
  PeerConnManager, ConnManagerMsg, ConnMsgs, ConnReply, add_peer, rotate_left, handle_msg, run,
}
use gossip_observer.Prelude.{
  ℕ, ◌≡◌, refl, sym, ap, ◌∙◌, List, [], ◌∷◌, ◌++◌, Option, some, map, append_assoc, append-nil,
  arith, Bool-cases, inl, inr, length, Result, ok, err, ◌>>=◌, All,
}
use gossip_observer.Prelude.Map.{contains}
use gossip_observer.Types.Peers.{PeerConnectionInfo}

-- The `unwrap` of an answer that never comes.
pub data Panic : Type 0 where
  no_answer : Panic

module _ (x : Extern) where
  abbrev pub expect_peeked : ConnReply x → Result (Option (PeerConnectionInfo x)) Panic
  expect_peeked (ConnReply.peeked p) = ok p
  expect_peeked _ = err no_answer

  unfoldable pub next_eligible_peer :
      ℕ
      → PeerConnManager x
      → ConnMsgs x
      → Result (Option (PeerConnectionInfo x) × PeerConnManager x) Panic
  next_eligible_peer now mgr between = do
    let asked = handle_msg x now mgr ConnManagerMsg.peek_eligible_peer
    next_peer ← expect_peeked asked.1
    ok (
      next_peer,
      (handle_msg x now (run x asked.0 between) ConnManagerMsg.rotate_eligible_peers).0,
    )

  -- The answers of one call after the other.
  unfoldable pub next_peers :
      ℕ
      → PeerConnManager x
      → List (ConnMsgs x)
      → Result (List (Option (PeerConnectionInfo x))) Panic
  next_peers now mgr [] = ok []
  next_peers now mgr (between ∷ bs) = do
    (peer, after) ← next_eligible_peer now mgr between
    peers ← next_peers now after bs
    ok (peer ∷ peers)

  -- The messages that neither rotate nor empty the queue.
  abbrev pub IsQuiet : (ℕ × ConnManagerMsg x) → Type 0
  IsQuiet (now, ConnManagerMsg.rotate_eligible_peers) = ⊥
  IsQuiet (now, ConnManagerMsg.empty_eligible_peers) = ⊥
  IsQuiet (now, _) = Unit

  add_peer-extends :
      (mgr : PeerConnManager x) (p : PeerConnectionInfo x)
      → (extra : List (PeerConnectionInfo x)) × ((add_peer x mgr p).eligible_peers
          ≡ mgr.eligible_peers ++ extra)
  unfolding add_peer
  add_peer-extends mgr p =
      elim (Bool-cases (contains x.pubkey_discrete p.pubkey mgr.eligible_peer_pubkeys)) [
        | inl e ↦ rw (e, add_peer) ([], sym (append-nil mgr.eligible_peers))
        | inr e ↦ rw (e, add_peer) (p ∷ [], refl)
      ]

  handle_msg-extends :
      (now : ℕ) (mgr : PeerConnManager x) (msg : ConnManagerMsg x)
      → IsQuiet (now, msg)
      → (extra : List (PeerConnectionInfo x)) × ((handle_msg x now mgr msg).0.eligible_peers
          ≡ mgr.eligible_peers ++ extra)
  unfolding handle_msg
  handle_msg-extends now mgr (ConnManagerMsg.add_eligible_peer p) q = add_peer-extends mgr p
  handle_msg-extends now mgr ConnManagerMsg.rotate_eligible_peers q = absurd q
  handle_msg-extends now mgr ConnManagerMsg.empty_eligible_peers q = absurd q
  handle_msg-extends now mgr (ConnManagerMsg.add_pending_conn _) q = ([], sym (append-nil _))
  handle_msg-extends now mgr (ConnManagerMsg.remove_pending_conn _) q = ([], sym (append-nil _))
  handle_msg-extends now mgr (ConnManagerMsg.sweep_pending_connections _) q =
      ([], sym (append-nil _))
  handle_msg-extends now mgr _ q = ([], sym (append-nil _))

  pub run-extends :
      (msgs : ConnMsgs x) (mgr : PeerConnManager x)
      → All IsQuiet msgs
      → (extra : List (PeerConnectionInfo x)) × ((run x mgr msgs).eligible_peers
          ≡ mgr.eligible_peers ++ extra)
  unfolding run
  run-extends [] mgr q = ([], sym (append-nil _))
  run-extends ((now, msg) ∷ msgs) mgr (q, qs) =
      let (more, e) = handle_msg-extends now mgr msg q in
      let (extra, f) = run-extends msgs (handle_msg x now mgr msg).0 qs in
      (more ++ extra, f ∙ ap (λ l. l ++ extra) e ∙ append_assoc mgr.eligible_peers more extra)

  pub next_eligible_peer_front :
      (now : ℕ) (mgr : PeerConnManager x) (between : ConnMsgs x) (p : PeerConnectionInfo x)
      (ps : List (PeerConnectionInfo x))
      → All IsQuiet between
      → mgr.eligible_peers ≡ p ∷ ps
      → (after : PeerConnManager x) × (extra : List (PeerConnectionInfo x)) × (next_eligible_peer
            now mgr between
          ≡ ok (some p, after))
        × (after.eligible_peers ≡ ps ++ extra)
  unfolding next_eligible_peer handle_msg
  next_eligible_peer_front now mgr between p ps q e =
      let (extra, f) = run-extends between mgr q in
      (
        (handle_msg x now (run x mgr between) ConnManagerMsg.rotate_eligible_peers).0,
        extra ++ p ∷ [],
        rw e refl,
        ap (rotate_left x) (f ∙ ap (λ l. l ++ extra) e)
            ∙ (unfold rotate_left in append_assoc ps extra (p ∷ [])),
      )

  next_peers_in_turn :
      (now : ℕ) (bs : List (ConnMsgs x)) (mgr : PeerConnManager x)
      (rest tail : List (PeerConnectionInfo x))
      → length bs ≡ length rest
      → All (All IsQuiet) bs
      → mgr.eligible_peers ≡ rest ++ tail
      → next_peers now mgr bs ≡ ok (map some rest)
  unfolding next_peers
  next_peers_in_turn now [] mgr [] tail n q e = refl
  next_peers_in_turn now (b ∷ bs) mgr (p ∷ rest) tail n (q, qs) e =
      let (after, extra, f, g) = next_eligible_peer_front now mgr b p (rest ++ tail) q e in
      rw
        (
          f,
          next_peers_in_turn now bs after rest (tail ++ extra) (omega (arith, n)) qs
              (g ∙ append_assoc rest tail extra),
        )
        refl
  next_peers_in_turn now [] mgr (p ∷ rest) tail n q e = absurd (omega (arith, n))
  next_peers_in_turn now (b ∷ bs) mgr [] tail n q e = absurd (omega (arith, n))

  -- With as many calls of `next_eligible_peer` as there are eligible peers, each peer is returned
  -- once, in the order of the queue. Between the two messages of each call the actor may handle
  -- anything of other tasks that neither rotates nor empties the queue, new peers included.
  pub next_peers-each_once :
      (now : ℕ) (mgr : PeerConnManager x) (bs : List (ConnMsgs x))
      → length bs ≡ length mgr.eligible_peers
      → All (All IsQuiet) bs
      → next_peers now mgr bs ≡ ok (map some mgr.eligible_peers)
  next_peers-each_once now mgr bs n q =
      next_peers_in_turn now bs mgr mgr.eligible_peers [] n q (sym (append-nil _))
