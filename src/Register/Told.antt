-- ===== src/Register/Told.antt =====
-- What a collector holds after it registered.
use gossip_observer.Extern.{Extern, Codecs}
use gossip_observer.Manager.State.{NodeAnnotatedRecord, CommunityStats}
use gossip_observer.Peers.Eligible.{find_peer}
use gossip_observer.Prelude.{ℕ, ◌≡◌, false, List, Option, none, some, Result, ok}
use gossip_observer.Prelude.Map.{or_else}
use gossip_observer.Prelude.Text.{Text}
use gossip_observer.Register.{Collector, RegisterError}
use gossip_observer.Register.Members.{readable_peers}
use gossip_observer.Types.Peers.{PeerConnectionInfo}
use gossip_observer.Wire.Convert.Rounds.{NoOnionV2}

module _ (x : Extern) (codecs : Codecs x)
    (parsed : (t : Text) (a : x.SocketAddress)
      → x.parse_socket t ≡ some a
      → x.is_onion_v2 a ≡ false) where
  abbrev OfSome : Option (List x.SocketAddress) → Type 0
  OfSome none = Unit
  OfSome (some as') = NoOnionV2 x codecs as'

  abbrev IsReachable : Option (PeerConnectionInfo x) → Type 0
  IsReachable none = Unit
  IsReachable (some p) = NoOnionV2 x codecs p.addrs

  module _ (now : ℕ) where
    -- What a collector holds of the answer `o`, if it was reached; `r` is what it held before.
    abbrev pub IsTold :
        Collector x
        → Option (CommunityStats x × List NodeAnnotatedRecord)
        → Result (Collector x) RegisterError
        → Result (Collector x) RegisterError
        → Type 0
    IsTold c none otherwise r = r ≡ otherwise
    IsTold c (some (stats, members)) otherwise r =
        (c' : Collector x) × (r ≡ ok c')
        × (c'.target_peer_count ≡ stats.connection_count)
        × ((k : x.PublicKey)
            → find_peer x k c'.conn_manager.eligible_peers
              ≡ or_else (find_peer x k c.conn_manager.eligible_peers)
                  (find_peer x k (readable_peers x members)))
