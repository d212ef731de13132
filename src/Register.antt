-- ===== src/Register.antt =====
-- A collector registers: observer_controller/src/grpc_server.rs `register_collector`,
-- `collector_status` and `collector_registration_reply`, which calls the collector back, with the
-- conversion of CSV records in observer_controller/src/csv_reader.rs.
pub mod Members
pub mod Told
use gossip_observer.Extern.{Extern}
use gossip_observer.Manager.Assignment.{Msgs, RecvError, Served, handle_collector_info}
use gossip_observer.Manager.State.{NodeAnnotatedRecord, CollectorManager, CommunityStats}
use gossip_observer.Peers.State.{PeerConnManager}
use gossip_observer.Prelude.{
  ℕ, Bool, true, false, List, [], ◌∷◌, Option, none, some, Result, ok, err, ◌>>=◌, ◌==◌, map,
  filter, if◌then◌else◌,
}
use gossip_observer.Prelude.Split.{split_on}
use gossip_observer.Prelude.Text.{Text}
use gossip_observer.Upload.EligiblePeers.{send_eligible_peers, post_eligible_peers}
use gossip_observer.Wire.Common
use gossip_observer.Wire.Convert.{try_collector, try_peer}
use gossip_observer.Wire.Util.{ConvertError, try_convert_vec, try_convert_vec_permissive}
use mathlib.Core.List.{reverse}

-- `str::trim_matches` with one character.
unfoldable pub trim_start : ℕ → Text → Text
trim_start d [] = []
trim_start d (c ∷ t) = elim (c == d) [ true ↦ trim_start d t | false ↦ c ∷ t ]

unfoldable pub trim_matches : ℕ → Text → Text
trim_matches d t = reverse (trim_start d (reverse (trim_start d t)))

abbrev pub is_not_empty : Text → Bool
is_not_empty [] = false
is_not_empty (_ ∷ _) = true

unfoldable pub has_sockets : NodeAnnotatedRecord → Bool
has_sockets r = elim r.sockets [ none ↦ false | some s ↦ is_not_empty s ]

-- `filter(|m| m.has_sockets())`.
unfoldable pub with_sockets : List NodeAnnotatedRecord → List NodeAnnotatedRecord
with_sockets [] = []
with_sockets (m ∷ ms) = elim (has_sockets m) [
  | true ↦ m ∷ with_sockets ms
  | false ↦ with_sockets ms
]

abbrev pub socket_list : Text → List Common.SocketAddress
socket_list addrs = map (λ s. record { address = s }) (split_on b',' (trim_matches b'"' addrs))

-- `TryFrom<NodeAnnotatedRecord>`.
unfoldable pub try_record : NodeAnnotatedRecord → Result Common.PeerConnectionInfo ConvertError
try_record r = elim r.sockets [
  | none ↦ err ConvertError.invalid
  | some addrs ↦
      ok (record { pubkey = some (record { pubkey = r.pubkey }); socket_addrs = socket_list addrs })
]

-- The service of a collector, as far as the controller changes it.
pub record Collector (x : Extern) : Type 0 where
  pub conn_manager : PeerConnManager x
  pub target_peer_count : ℕ

pub data RegisterError : Type 0 where
  unreadable_info : ConvertError → RegisterError
  request_dropped : RecvError → RegisterError
  mapping_not_found not_reachable : RegisterError
  bad_record : ConvertError → RegisterError
  peers_refused : ConvertError → RegisterError

abbrev pub map_err {ℓ} : {A E F : Type ℓ} → (E → F) → Result A E → Result A F
map_err f (ok a) = ok a
map_err f (err e) = err (f e)

module _ (x : Extern) where
  -- gossip_collector/src/grpc_server.rs.
  unfoldable pub post_target_peer_count : ℕ → Collector x → Collector x
  post_target_peer_count target c = record c { target_peer_count = target }

  -- `reachable` says whether the connection to the collector succeeds. Its actor handles the peers at
  -- `now`.
  unfoldable pub collector_registration_reply :
      ℕ
      → Bool
      → CommunityStats x
      → List NodeAnnotatedRecord
      → Collector x
      → Result (Collector x) RegisterError
  collector_registration_reply now false stats members c = err RegisterError.not_reachable
  collector_registration_reply now true stats members c = do
    peer_list ← map_err RegisterError.bad_record (try_convert_vec try_record (with_sockets members))
    let eligible_peers = try_convert_vec_permissive (try_peer x) peer_list
    conn_manager ←
        map_err RegisterError.peers_refused
          (send_eligible_peers x (post_eligible_peers x now) eligible_peers c.conn_manager)
    ok (post_target_peer_count stats.connection_count (record c { conn_manager = conn_manager }))

  module _ (shuffle : List NodeAnnotatedRecord → List NodeAnnotatedRecord) (now : ℕ)
      (reachable : Bool) (b1 b2 b3 : Msgs x) where
    -- What `handle_collector_info` answers, for either request.
    abbrev pub answer_to :
        CollectorManager x
        → Bool
        → Common.CollectorInfo
        → Result (Option (CommunityStats x × List NodeAnnotatedRecord)) RegisterError
    answer_to mgr provide_info request = do
      info ← map_err RegisterError.unreadable_info (try_collector x request)
      map_err RegisterError.request_dropped
          (handle_collector_info x shuffle now mgr info provide_info b1 b2 b3)

    unfoldable pub register_collector :
        CollectorManager x → Common.CollectorInfo → Collector x → Result (Collector x) RegisterError
    register_collector mgr request c = do
      answer ← answer_to mgr true request
      elim answer [
        | none ↦ err RegisterError.mapping_not_found
        | some (stats, members) ↦ collector_registration_reply now reachable stats members c
      ]

    unfoldable pub collector_status :
        CollectorManager x → Common.CollectorInfo → Collector x → Result (Collector x) RegisterError
    collector_status mgr request c = do
      answer ← answer_to mgr false request
      elim answer [
        | none ↦ ok c
        | some (stats, members) ↦ collector_registration_reply now reachable stats members c
      ]
