-- ===== src/Types/Peers.antt =====
-- `PeerSpecifier`, `PeerConnectionInfo` and the order that prefers clearnet addresses.
use gossip_observer.Extern.{Extern}
use gossip_observer.Prelude.{Bool, true, false, ◌||◌, List, map}

pub record PeerSpecifier (x : Extern) : Type 0 where
  pub pubkey : x.PublicKey
  pub addr : x.SocketAddress

pub record PeerConnectionInfo (x : Extern) : Type 0 where
  pub pubkey : x.PublicKey
  pub addrs : List x.SocketAddress

-- `std::cmp::Ordering`.
pub data Ordering : Type 0 where
  less equal greater : Ordering

module _ (x : Extern) where
  -- The closure `is_tor` of `compare_for_sort`.
  abbrev pub is_tor : x.SocketAddress → Bool
  is_tor a = x.is_onion_v2 a || x.is_onion_v3 a

  abbrev pub compare_tor : Bool → Bool → Ordering
  compare_tor true false = Ordering.greater
  compare_tor false true = Ordering.less
  compare_tor _ _ = Ordering.equal

  unfoldable pub compare_for_sort : PeerSpecifier x → PeerSpecifier x → Ordering
  compare_for_sort a b = compare_tor (is_tor a.addr) (is_tor b.addr)

  unfoldable pub split : PeerConnectionInfo x → List (PeerSpecifier x)
  split p = map (λ a. record { pubkey = p.pubkey; addr = a }) p.addrs
