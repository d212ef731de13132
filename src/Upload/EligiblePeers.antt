-- ===== src/Upload/EligiblePeers.antt =====
-- observer_common/src/collector_client.rs `send_eligible_peers`, and the handler of its requests,
-- gossip_collector/src/grpc_server.rs `post_eligible_peers`.
use gossip_observer.Extern.{Extern, Codecs}
use gossip_observer.Peers.State.{PeerConnManager, ConnManagerMsg, ConnMsgs, handle_msg, run}
use gossip_observer.Prelude.{
  ℕ, suc, ◌%◌, ◌==◌, ◌≡◌, refl, ap, sym, ◌∙◌, Bool, true, false, List, [], ◌∷◌, ◌++◌, Result, ok,
  ◌>>=◌, map, map-append, All, append_assoc, append-nil,
}
use gossip_observer.Types.Peers.{PeerConnectionInfo}
use gossip_observer.Wire.Common
use gossip_observer.Wire.Convert.{from_peer, try_eligible_peers}
use gossip_observer.Wire.Convert.Rounds.{NoOnionV2, try_eligible_peers-from_peer}
use gossip_observer.Wire.Util.{ConvertError, convert_vec}

module _ (x : Extern) where
  abbrev pub add_all : ℕ → List (PeerConnectionInfo x) → ConnMsgs x
  add_all now = map (λ p. (now, ConnManagerMsg.add_eligible_peer p))

  -- The handler. The actor handles its messages at `now`.
  unfoldable pub post_eligible_peers :
      ℕ
      → List Common.PeerConnectionInfo
      → PeerConnManager x
      → Result (PeerConnManager x) ConvertError
  post_eligible_peers now peers mgr = do
    ps ← try_eligible_peers x peers
    ok (run x mgr (add_all now ps))

  -- The loop over the peers with their indices: a request is sent when the index is divisible by 256.
  unfoldable pub send_loop :
      {S : Type 0}
      → (List Common.PeerConnectionInfo → S → Result S ConvertError)
      → ℕ
      → List Common.PeerConnectionInfo
      → List Common.PeerConnectionInfo
      → S
      → Result S ConvertError
  send_loop post idx current_msg [] s = post current_msg s
  send_loop post idx current_msg (peer ∷ peers) s = elim (idx % 256 == 0) [
    | true ↦ do after ← post (current_msg ++ peer ∷ []) s; send_loop post (suc idx) [] peers after
    | false ↦ send_loop post (suc idx) (current_msg ++ peer ∷ []) peers s
  ]

  unfoldable pub send_eligible_peers :
      {S : Type 0}
      → (List Common.PeerConnectionInfo → S → Result S ConvertError)
      → List (PeerConnectionInfo x)
      → S
      → Result S ConvertError
  send_eligible_peers post peers = send_loop post 0 [] (convert_vec (from_peer x) peers)

  run-append :
      (mgr : PeerConnManager x) (a b : ConnMsgs x) → run x mgr (a ++ b) ≡ run x (run x mgr a) b
  unfolding run
  run-append mgr [] b = refl
  run-append mgr ((now, msg) ∷ a) b = run-append (handle_msg x now mgr msg).0 a b

  module _ (codecs : Codecs x) (now : ℕ) where
    abbrev pub IsReadable : List (PeerConnectionInfo x) → Type 0
    IsReadable = All (λ p. NoOnionV2 x codecs p.addrs)

    post_readable :
        (ps : List (PeerConnectionInfo x)) (mgr : PeerConnManager x)
        → IsReadable ps
        → post_eligible_peers now (map (from_peer x) ps) mgr ≡ ok (run x mgr (add_all now ps))
    unfolding post_eligible_peers convert_vec
    post_readable ps mgr h = rw (try_eligible_peers-from_peer x codecs ps h) refl

    snoc-IsReadable :
        (ps : List (PeerConnectionInfo x)) (p : PeerConnectionInfo x)
        → IsReadable ps
        → NoOnionV2 x codecs p.addrs
        → IsReadable (ps ++ p ∷ [])
    snoc-IsReadable [] p h k = (k, tt)
    snoc-IsReadable (q ∷ ps) p (h, hs) k = (h, snoc-IsReadable ps p hs k)

    add_all_in_turn :
        (current ps : List (PeerConnectionInfo x)) (p : PeerConnectionInfo x)
        (mgr : PeerConnManager x)
        → run x (run x mgr (add_all now (current ++ p ∷ []))) (add_all now ps)
          ≡ run x mgr (add_all now (current ++ p ∷ ps))
    add_all_in_turn current ps p mgr =
        sym (run-append mgr (add_all now (current ++ p ∷ [])) (add_all now ps))
        ∙ ap (run x mgr) (
            sym (map-append (λ q. (now, ConnManagerMsg.add_eligible_peer q)) (current ++ p ∷ []) ps)
            ∙ ap (add_all now) (append_assoc current (p ∷ []) ps))

    -- What is left of the loop adds the peers of the unfinished request and those to come.
    send_loop_adds :
        (idx : ℕ) (current ps : List (PeerConnectionInfo x)) (mgr : PeerConnManager x)
        → IsReadable current
        → IsReadable ps
        → send_loop
            (post_eligible_peers now)
            idx
            (map (from_peer x) current)
            (map (from_peer x) ps)
            mgr
          ≡ ok (run x mgr (add_all now (current ++ ps)))
    unfolding send_loop
    send_loop_adds idx current [] mgr h k =
        post_readable current mgr h
        ∙ ap (λ l. ok (run x mgr (add_all now l))) (sym (append-nil current))
    send_loop_adds idx current (p ∷ ps) mgr h (k, ks) =
        let longer = snoc-IsReadable current p h k in
        let same = sym (map-append (from_peer x) current (p ∷ [])) in
        cases (idx % 256 == 0) (map (from_peer x) current ++ from_peer x p ∷ [])
          (ap (λ l. post_eligible_peers now l mgr) same
            ∙ post_readable (current ++ p ∷ []) mgr longer)
          (send_loop_adds (suc idx) [] ps (run x mgr (add_all now (current ++ p ∷ []))) tt ks)
          (ap (λ l. send_loop (post_eligible_peers now) (suc idx) l (map (from_peer x) ps) mgr) same
            ∙ send_loop_adds (suc idx) (current ++ p ∷ []) ps mgr longer ks)
      where
        cases :
            (b : Bool) (msg : List Common.PeerConnectionInfo)
            → post_eligible_peers now msg mgr ≡ ok (run x mgr (add_all now (current ++ p ∷ [])))
            → send_loop
                (post_eligible_peers now)
                (suc idx)
                []
                (map (from_peer x) ps)
                (run x mgr (add_all now (current ++ p ∷ [])))
              ≡ ok (run x (run x mgr (add_all now (current ++ p ∷ []))) (add_all now ps))
            → send_loop (post_eligible_peers now) (suc idx) msg (map (from_peer x) ps) mgr
              ≡ ok (run x mgr (add_all now ((current ++ p ∷ []) ++ ps)))
            → (elim b [
              | true ↦ do
                after ← post_eligible_peers now msg mgr
                send_loop (post_eligible_peers now) (suc idx) [] (map (from_peer x) ps) after
              | false ↦ send_loop (post_eligible_peers now) (suc idx) msg (map (from_peer x) ps) mgr
            ])
              ≡ ok (run x mgr (add_all now (current ++ p ∷ ps)))
        cases true msg posted sent kept =
            rw posted (sent ∙ ap ok (add_all_in_turn current ps p mgr))
        cases false msg posted sent kept =
            kept ∙ ap (λ l. ok (run x mgr (add_all now l))) (append_assoc current (p ∷ []) ps)

    -- When the controller sends a list of peers and no request is lost, the transfer succeeds and
    -- leaves the collector as if each peer of the list had been added, in order, however the list
    -- was cut into requests. No address may be an Onion V2 address.
    pub send_eligible_peers_adds :
        (ps : List (PeerConnectionInfo x)) (mgr : PeerConnManager x)
        → IsReadable ps
        → send_eligible_peers (post_eligible_peers now) ps mgr ≡ ok (run x mgr (add_all now ps))
    unfolding send_eligible_peers convert_vec
    send_eligible_peers_adds ps mgr h = send_loop_adds 0 [] ps mgr tt h
