-- ===== src/Reach.antt =====
-- gossip_analyze/src/main.rs: which addresses of peers may be reachable from the internet.
pub mod Blocks
use gossip_observer.Prelude.{ℕ, ◌*◌, Bool, true, false, ◌&&◌, ◌||◌, not, leb, ◌==◌}
use gossip_observer.Prelude.Text.{Text}
use Prim.Native.Nat.{◌/◌}

-- `Ipv4Addr`, by its octets.
pub record Ipv4Addr : Type 0 where
  pub a : ℕ
  pub b : ℕ
  pub c : ℕ
  pub d : ℕ

-- `Ipv6Addr`, by its segments.
pub record Ipv6Addr : Type 0 where
  pub a : ℕ
  pub b : ℕ
  pub c : ℕ
  pub d : ℕ
  pub e : ℕ
  pub f : ℕ
  pub g : ℕ
  pub h : ℕ

-- The cases of `SocketAddress` that `maybe_reachable` tells apart, without what it does not read: the
-- ports, and the rest of the `PeerSpecifier`. The names are texts.
pub data SocketAddress : Type 0 where
  tcp_ip_v4 : Ipv4Addr → SocketAddress
  tcp_ip_v6 : Ipv6Addr → SocketAddress
  onion_v2 onion_v3 hostname : Text → SocketAddress

-- `n & mask` for the mask that clears the bits below `size`, a power of two.
abbrev pub clear_low : ℕ → ℕ → ℕ
clear_low size n = n / size * size

-- The methods of `Ipv4Addr`.
abbrev pub is_unspecified : Ipv4Addr → Bool
is_unspecified x = (x.a == 0) && (x.b == 0) && (x.c == 0) && (x.d == 0)

abbrev pub is_private : Ipv4Addr → Bool
is_private x =
    (x.a == 10) || ((x.a == 172) && leb 16 x.b && leb x.b 31) || ((x.a == 192) && (x.b == 168))

abbrev pub is_loopback : Ipv4Addr → Bool
is_loopback x = x.a == 127

abbrev pub is_link_local : Ipv4Addr → Bool
is_link_local x = (x.a == 169) && (x.b == 254)

abbrev pub is_documentation : Ipv4Addr → Bool
is_documentation x =
    ((x.a == 192) && (x.b == 0) && (x.c == 2))
    || ((x.a == 198) && (x.b == 51) && (x.c == 100))
    || ((x.a == 203) && (x.b == 0) && (x.c == 113))

unfoldable pub v4_is_reserved : Ipv4Addr → Bool
v4_is_reserved x = clear_low 16 x.a == 240

unfoldable pub v4_is_shared : Ipv4Addr → Bool
v4_is_shared x = (x.a == 100) && (clear_low 64 x.b == 64)

unfoldable pub v4_maybe_reachable : Ipv4Addr → Bool
v4_maybe_reachable x = not (
    is_unspecified x
    || is_private x
    || v4_is_shared x
    || is_loopback x
    || is_link_local x
    || is_documentation x
    || v4_is_reserved x)

-- The methods of `Ipv6Addr`.
abbrev pub is_low : ℕ → Ipv6Addr → Bool
is_low n x =
    (x.a == 0)
    && (x.b == 0)
    && (x.c == 0)
    && (x.d == 0)
    && (x.e == 0)
    && (x.f == 0)
    && (x.g == 0)
    && (x.h == n)

abbrev pub is_unique_local : Ipv6Addr → Bool
is_unique_local x = clear_low 512 x.a == 64512

abbrev pub is_unicast_link_local : Ipv6Addr → Bool
is_unicast_link_local x = clear_low 64 x.a == 65152

unfoldable pub v6_maybe_reachable : Ipv6Addr → Bool
v6_maybe_reachable x =
    not (is_low 0 x || is_low 1 x || is_unique_local x || is_unicast_link_local x)

unfoldable pub maybe_reachable : SocketAddress → Bool
maybe_reachable (SocketAddress.tcp_ip_v4 addr) = v4_maybe_reachable addr
maybe_reachable (SocketAddress.tcp_ip_v6 addr) = v6_maybe_reachable addr
maybe_reachable (SocketAddress.onion_v2 _) = false
maybe_reachable (SocketAddress.onion_v3 _) = true
maybe_reachable (SocketAddress.hostname _) = true
