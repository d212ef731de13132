-- ===== src/Tests/Reaching.antt =====
-- Two addresses of peers.
use gossip_observer.Prelude.{◌≡◌, not, arith}
use gossip_observer.Reach.{Ipv4Addr, SocketAddress, maybe_reachable}
use gossip_observer.Reach.Blocks.{IsV4, is_avoided, maybe_reachable_lem}

abbrev shared : Ipv4Addr
shared = record { a = 100; b = 77; c = 3; d = 4 }

shared-IsV4 : IsV4 shared
shared-IsV4 = record {
  a_byte = omega arith;
  b_byte = omega arith;
  c_byte = omega arith;
  d_byte = omega arith;
}

maybe_reachable_lem_example :
    maybe_reachable (SocketAddress.tcp_ip_v4 shared)
    ≡ not (is_avoided (SocketAddress.tcp_ip_v4 shared))
maybe_reachable_lem_example = maybe_reachable_lem (SocketAddress.tcp_ip_v4 shared) shared-IsV4
