-- ===== src/Peers/Connect.antt =====
-- `try_add_peer`: announce all addresses of a peer, try them one after the other, and take the
-- announcements back if none of them answers.
pub mod Order
pub mod Tried
pub mod Withdrawn
use gossip_observer.Extern.{Extern}
use gossip_observer.Peers.State.{
  PendingConnection, PeerConnManager, ConnManagerMsg, ConnMsgs, PeerSpecifier-discrete, run,
}
use gossip_observer.Peers.Pending.{pending_times, times_step, times_run, run-times}
use gossip_observer.Prelude.{
  ℕ, suc, ◌≡◌, ◌≢◌, refl, sym, ap, ◌∙◌, Bool, true, false, List, [], ◌∷◌, ◌++◌, map, not, arith,
  Bool-cases, inl, inr, length, Result, ok, err, All, if_pos, if_neg, ite, filter,
}
use gossip_observer.Prelude.Text.{Text}
use gossip_observer.Types.Peers.{
  PeerSpecifier, PeerConnectionInfo, Ordering, is_tor, compare_for_sort, split,
}

module _ (x : Extern) where
  -- `sort_by`, which is stable.
  unfoldable pub insert_spec : PeerSpecifier x → List (PeerSpecifier x) → List (PeerSpecifier x)
  insert_spec s [] = s ∷ []
  insert_spec s (t ∷ ts) = elim (compare_for_sort x s t) [
    | Ordering.greater ↦ t ∷ insert_spec s ts
    | Ordering.equal ↦ s ∷ t ∷ ts
    | Ordering.less ↦ s ∷ t ∷ ts
  ]

  unfoldable pub sort_specs : List (PeerSpecifier x) → List (PeerSpecifier x)
  unfolding insert_spec
  sort_specs [] = []
  sort_specs (s ∷ ss) = insert_spec s (sort_specs ss)

  -- `node` is `node_peer_connect`: what it answers may depend on the number of attempts before.
  module _ (node : ℕ → PeerSpecifier x → Result (Unit {0}) Text) where
    -- The addresses that are tried, and `connected`.
    unfoldable pub try_connect : ℕ → List (PeerSpecifier x) → List (PeerSpecifier x) × Bool
    try_connect n [] = ([], false)
    try_connect n (s ∷ ss) = elim (node n s) [
      | ok _ ↦ (s ∷ [], true)
      | err _ ↦ let r = try_connect (suc n) ss in (s ∷ r.0, r.1)
    ]

  -- When the announcement number `n` of an attempt is made, when the actor handles it, and when it
  -- handles the removal number `n`.
  pub record Clock : Type 0 where
    pub announced : ℕ → ℕ
    pub handled : ℕ → ℕ
    pub removed : ℕ → ℕ

  -- Each announcement reads the time for itself.
  abbrev pub adds : Clock → ℕ → List (PeerSpecifier x) → ConnMsgs x
  adds clock n [] = []
  adds clock n (s ∷ ss) =
      (
        clock.handled n,
        ConnManagerMsg.add_pending_conn (record { peer = s; conn_time = clock.announced n }),
      )
      ∷ adds clock (suc n) ss

  abbrev pub removes : Clock → ℕ → List (PeerSpecifier x) → ConnMsgs x
  removes clock n [] = []
  removes clock n (s ∷ ss) =
      (clock.removed n, ConnManagerMsg.remove_pending_conn s) ∷ removes clock (suc n) ss

  -- The addresses that are tried, and what is sent to the actor before and after.
  pub record Attempt : Type 0 where
    pub tried : List (PeerSpecifier x)
    pub connected : Bool
    pub sent_before : ConnMsgs x
    pub sent_after : ConnMsgs x

  unfoldable pub try_add_peer :
      (ℕ → PeerSpecifier x → Result (Unit {0}) Text) → Clock → PeerConnectionInfo x → Attempt
  try_add_peer node clock peer =
      let specs = sort_specs (split x peer) in
      let r = try_connect node 0 specs in
      record {
        tried = r.0;
        connected = r.1;
        sent_before = adds clock 0 specs;
        sent_after = elim r.1 [ true ↦ [] | false ↦ removes clock 0 specs ];
      }
