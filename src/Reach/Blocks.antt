-- ===== src/Reach/Blocks.antt =====
-- The addresses that are taken to be unreachable, as blocks of addresses.
use gossip_observer.Prelude.{
  ℕ, ◌+◌, ◌*◌, ◌<◌, ◌≡◌, refl, ap, ◌∙◌, Bool, true, false, ◌&&◌, ◌||◌, not, ltb, leb, List, [], ◌∷◌,
  arith,
}
use gossip_observer.Reach.{
  Ipv4Addr, Ipv6Addr, SocketAddress, v4_is_reserved, v4_is_shared, is_unspecified, is_private,
  is_loopback, is_link_local, is_documentation, is_low, is_unique_local, is_unicast_link_local,
  v4_maybe_reachable, v6_maybe_reachable, maybe_reachable,
}

-- An address as a number, the first octet or segment highest.
abbrev pub v4_bits : Ipv4Addr → ℕ
v4_bits x = ((x.a * 256 + x.b) * 256 + x.c) * 256 + x.d

abbrev pub low_bits : Ipv6Addr → ℕ
low_bits x =
    (((((x.b * 65536 + x.c) * 65536 + x.d) * 65536 + x.e) * 65536 + x.f) * 65536 + x.g) * 65536
    + x.h

abbrev pub v6_bits : Ipv6Addr → ℕ
v6_bits x = x.a * 5192296858534827628530496329220096 + low_bits x

pub record IsV4 (x : Ipv4Addr) : Type 0 where
  pub a_byte : x.a < 256
  pub b_byte : x.b < 256
  pub c_byte : x.c < 256
  pub d_byte : x.d < 256

pub record IsV6 (x : Ipv6Addr) : Type 0 where
  pub a_word : x.a < 65536
  pub b_word : x.b < 65536
  pub c_word : x.c < 65536
  pub d_word : x.d < 65536
  pub e_word : x.e < 65536
  pub f_word : x.f < 65536
  pub g_word : x.g < 65536
  pub h_word : x.h < 65536

-- The block of `size` addresses from `base`.
abbrev pub in_block : ℕ → ℕ → ℕ → Bool
in_block base size n = leb base n && ltb n (base + size)

is_private_lem :
    (x : Ipv4Addr)
    → IsV4 x
    → is_private x ≡ (
        in_block 167772160 16777216 (v4_bits x)
        || in_block 2886729728 1048576 (v4_bits x)
        || in_block 3232235520 65536 (v4_bits x))
is_private_lem x h = let p = h.b_byte in let q = h.c_byte in let r = h.d_byte in ground arith

v4_is_shared_lem :
    (x : Ipv4Addr) → IsV4 x → v4_is_shared x ≡ in_block 1681915904 4194304 (v4_bits x)
unfolding v4_is_shared
v4_is_shared_lem x h = let p = h.b_byte in let q = h.c_byte in let r = h.d_byte in ground arith

v4_is_reserved_lem :
    (x : Ipv4Addr) → IsV4 x → v4_is_reserved x ≡ in_block 4026531840 268435456 (v4_bits x)
unfolding v4_is_reserved
v4_is_reserved_lem x h =
    let o = h.a_byte in let p = h.b_byte in let q = h.c_byte in let r = h.d_byte in ground arith

is_documentation_lem :
    (x : Ipv4Addr)
    → IsV4 x
    → is_documentation x ≡ (
        in_block 3221225984 256 (v4_bits x)
        || in_block 3325256704 256 (v4_bits x)
        || in_block 3405803776 256 (v4_bits x))
is_documentation_lem x h = let p = h.b_byte in let q = h.c_byte in let r = h.d_byte in ground arith

is_unspecified_lem : (x : Ipv4Addr) → IsV4 x → is_unspecified x ≡ in_block 0 1 (v4_bits x)
is_unspecified_lem x h = ground arith

is_loopback_lem : (x : Ipv4Addr) → IsV4 x → is_loopback x ≡ in_block 2130706432 16777216 (v4_bits x)
is_loopback_lem x h = let p = h.b_byte in let q = h.c_byte in let r = h.d_byte in ground arith

is_link_local_lem :
    (x : Ipv4Addr) → IsV4 x → is_link_local x ≡ in_block 2851995648 65536 (v4_bits x)
is_link_local_lem x h = let p = h.b_byte in let q = h.c_byte in let r = h.d_byte in ground arith

is_low_lem : (x : Ipv6Addr) → (is_low 0 x || is_low 1 x) ≡ in_block 0 2 (v6_bits x)
is_low_lem x = ground arith

low_bits_bound : (x : Ipv6Addr) → IsV6 x → low_bits x < 5192296858534827628530496329220096
low_bits_bound x h =
    let b = h.b_word in
    let c = h.c_word in
    let d = h.d_word in
    let e = h.e_word in let f = h.f_word in let g = h.g_word in let i = h.h_word in omega arith

is_unique_local_lem :
    (x : Ipv6Addr)
    → IsV6 x
    → is_unique_local x
      ≡ in_block
          (64512 * 5192296858534827628530496329220096)
          (512 * 5192296858534827628530496329220096)
          (v6_bits x)
is_unique_local_lem x h = let p = low_bits_bound x h in ground arith

is_unicast_link_local_lem :
    (x : Ipv6Addr)
    → IsV6 x
    → is_unicast_link_local x
      ≡ in_block
          (65152 * 5192296858534827628530496329220096)
          (64 * 5192296858534827628530496329220096)
          (v6_bits x)
is_unicast_link_local_lem x h = let p = low_bits_bound x h in ground arith

abbrev pub in_any : List (ℕ × ℕ) → ℕ → Bool
in_any [] n = false
in_any ((base, size) ∷ blocks) n = in_block base size n || in_any blocks n

-- The blocks that are avoided, each with its first address and its size.
abbrev pub v4_blocks : List (ℕ × ℕ)
v4_blocks =
    (v4_bits (record { a = 0; b = 0; c = 0; d = 0 }), 1)
    ∷ (v4_bits (record { a = 10; b = 0; c = 0; d = 0 }), 16777216)
    ∷ (v4_bits (record { a = 172; b = 16; c = 0; d = 0 }), 1048576)
    ∷ (v4_bits (record { a = 192; b = 168; c = 0; d = 0 }), 65536)
    ∷ (v4_bits (record { a = 100; b = 64; c = 0; d = 0 }), 4194304)
    ∷ (v4_bits (record { a = 127; b = 0; c = 0; d = 0 }), 16777216)
    ∷ (v4_bits (record { a = 169; b = 254; c = 0; d = 0 }), 65536)
    ∷ (v4_bits (record { a = 192; b = 0; c = 2; d = 0 }), 256)
    ∷ (v4_bits (record { a = 198; b = 51; c = 100; d = 0 }), 256)
    ∷ (v4_bits (record { a = 203; b = 0; c = 113; d = 0 }), 256)
    ∷ (v4_bits (record { a = 240; b = 0; c = 0; d = 0 }), 268435456)
    ∷ []

abbrev pub v6_blocks : List (ℕ × ℕ)
v6_blocks =
    (0, 2)
    ∷ (64512 * 5192296858534827628530496329220096, 512 * 5192296858534827628530496329220096)
    ∷ (65152 * 5192296858534827628530496329220096, 64 * 5192296858534827628530496329220096)
    ∷ []

or_groups :
    (u p1 p2 p3 s l k d1 d2 d3 r : Bool)
    → (u || (p1 || p2 || p3) || s || l || k || (d1 || d2 || d3) || r)
      ≡ (u || (p1 || (p2 || (p3 || (s || (l || (k || (d1 || (d2 || (d3 || (r || false)))))))))))
or_groups u p1 p2 p3 s l k d1 d2 d3 r = ground arith

v4_maybe_reachable_lem :
    (x : Ipv4Addr) → IsV4 x → v4_maybe_reachable x ≡ not (in_any v4_blocks (v4_bits x))
unfolding v4_maybe_reachable
v4_maybe_reachable_lem x h =
    rw
      (
        is_unspecified_lem x h,
        is_private_lem x h,
        v4_is_shared_lem x h,
        is_loopback_lem x h,
        is_link_local_lem x h,
        is_documentation_lem x h,
        v4_is_reserved_lem x h,
      )
      (let n = v4_bits x in
        ap not (
          or_groups (in_block 0 1 n) (in_block 167772160 16777216 n) (in_block 2886729728 1048576 n)
            (in_block 3232235520 65536 n) (in_block 1681915904 4194304 n)
            (in_block 2130706432 16777216 n) (in_block 2851995648 65536 n)
            (in_block 3221225984 256 n) (in_block 3325256704 256 n) (in_block 3405803776 256 n)
            (in_block 4026531840 268435456 n)))

or_low : (z o u l : Bool) → (z || o || u || l) ≡ ((z || o) || (u || (l || false)))
or_low z o u l = ground arith

v6_maybe_reachable_lem :
    (x : Ipv6Addr) → IsV6 x → v6_maybe_reachable x ≡ not (in_any v6_blocks (v6_bits x))
unfolding v6_maybe_reachable
v6_maybe_reachable_lem x h = ap not (
    or_low (is_low 0 x) (is_low 1 x) (is_unique_local x) (is_unicast_link_local x)
    ∙ rw (is_low_lem x, is_unique_local_lem x h, is_unicast_link_local_lem x h) refl)

-- The octets or segments are in range.
abbrev pub IsAddress : SocketAddress → Type 0
IsAddress (SocketAddress.tcp_ip_v4 x) = IsV4 x
IsAddress (SocketAddress.tcp_ip_v6 x) = IsV6 x
IsAddress _ = Unit

-- Whether the blocks avoid an address, and the kinds of addresses without blocks.
abbrev pub is_avoided : SocketAddress → Bool
is_avoided (SocketAddress.tcp_ip_v4 x) = in_any v4_blocks (v4_bits x)
is_avoided (SocketAddress.tcp_ip_v6 x) = in_any v6_blocks (v6_bits x)
is_avoided (SocketAddress.onion_v2 _) = true
is_avoided _ = false

-- For an address whose octets or segments are in range: it is taken to be reachable exactly when,
-- read as a number, it lies in none of the eleven blocks of IPv4 addresses or three blocks of IPv6
-- addresses that are avoided; version 3 onion services and host names always are, version 2 onion
-- services never.
pub maybe_reachable_lem : (s : SocketAddress) → IsAddress s → maybe_reachable s ≡ not (is_avoided s)
unfolding maybe_reachable
maybe_reachable_lem (SocketAddress.tcp_ip_v4 x) h = v4_maybe_reachable_lem x h
maybe_reachable_lem (SocketAddress.tcp_ip_v6 x) h = v6_maybe_reachable_lem x h
maybe_reachable_lem (SocketAddress.onion_v2 _) h = refl
maybe_reachable_lem (SocketAddress.onion_v3 _) h = refl
maybe_reachable_lem (SocketAddress.hostname _) h = refl
