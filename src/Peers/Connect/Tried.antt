-- ===== src/Peers/Connect/Tried.antt =====
-- The addresses of a peer that are tried.
use gossip_observer.Extern.{Extern}
use gossip_observer.Peers.Connect.{Clock, try_connect, try_add_peer, sort_specs}
use gossip_observer.Peers.Connect.Order.{only_clearnet, only_tor, sort_specs-clearnet_first}
use gossip_observer.Prelude.{
  ℕ, suc, ◌+◌, ◌≡◌, refl, ap, Bool, true, false, List, [], ◌∷◌, ◌++◌, arith, length, Result, ok,
  err, subst,
}
use gossip_observer.Prelude.Text.{Text}
use gossip_observer.Types.Peers.{PeerSpecifier, PeerConnectionInfo, split}

module _ (x : Extern) (node : ℕ → PeerSpecifier x → Result (Unit {0}) Text) where
  abbrev pub AllFail : ℕ → List (PeerSpecifier x) → Type 0
  AllFail n [] = Unit
  AllFail n (s ∷ ss) = ((e : Text) × (node n s ≡ err e)) × AllFail (suc n) ss

  -- No address answered and all were tried, or one did and nothing after it was tried.
  abbrev pub IsFirstSuccess : ℕ → List (PeerSpecifier x) → List (PeerSpecifier x) × Bool → Type 0
  IsFirstSuccess n specs (tried, false) = (tried ≡ specs) × AllFail n specs
  IsFirstSuccess n specs (tried, true) =
      (failed : List (PeerSpecifier x)) × (s : PeerSpecifier x) × (rest : List (PeerSpecifier x))
      × (specs ≡ failed ++ s ∷ rest)
      × (tried ≡ failed ++ s ∷ [])
      × AllFail n failed
      × (node (length failed + n) s ≡ ok tt)

  IsFirstSuccess-later :
      (n : ℕ) (s : PeerSpecifier x) (ss : List (PeerSpecifier x))
      (r : List (PeerSpecifier x) × Bool)
      → (e : Text) × (node n s ≡ err e)
      → IsFirstSuccess (suc n) ss r
      → IsFirstSuccess n (s ∷ ss) (s ∷ r.0, r.1)
  IsFirstSuccess-later n s ss (tried, false) f (e, h) = (ap (λ l. s ∷ l) e, (f, h))
  IsFirstSuccess-later n s ss (tried, true) f (failed, t, rest, e, e', h, o) = (
    s ∷ failed,
    t,
    rest,
    ap (λ l. s ∷ l) e,
    ap (λ l. s ∷ l) e',
    (f, h),
    subst (λ k. node k t ≡ ok tt) (omega arith) o,
  )

  try_connect-IsFirstSuccess :
      (n : ℕ) (ss : List (PeerSpecifier x)) → IsFirstSuccess n ss (try_connect x node n ss)
  unfolding try_connect
  try_connect-IsFirstSuccess n [] = (refl, tt)
  try_connect-IsFirstSuccess n (s ∷ ss) =
      cases (node n s) refl (try_connect-IsFirstSuccess (suc n) ss)
    where
      cases :
          (o : Result (Unit {0}) Text)
          → node n s ≡ o
          → IsFirstSuccess (suc n) ss (try_connect x node (suc n) ss)
          → IsFirstSuccess n (s ∷ ss) (try_connect x node n (s ∷ ss))
      cases (ok _) e f =
          rw (e, try_connect)
            ([], s, ss, refl, refl, tt, subst (λ k. node k s ≡ ok tt) (omega arith) e)
      cases (err t) e f = rw (e, try_connect) (IsFirstSuccess-later n s ss _ (t, e) f)

  -- The clearnet addresses of a peer are tried before its onion addresses, each kind in the given
  -- order. The attempt stops at the first address that answers. If none answers all were tried.
  pub try_add_peer_tried :
      (clock : Clock x) (peer : PeerConnectionInfo x)
      → let a = try_add_peer x node clock peer in
        IsFirstSuccess 0
          (only_clearnet x (split x peer) ++ only_tor x (split x peer))
          (a.tried, a.connected)
  unfolding try_add_peer
  try_add_peer_tried clock peer =
      subst (λ l. IsFirstSuccess 0 l (try_connect x node 0 (sort_specs x (split x peer))))
        (sort_specs-clearnet_first x (split x peer))
        (try_connect-IsFirstSuccess 0 (sort_specs x (split x peer)))
