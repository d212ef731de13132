-- ===== src/GraphDiff/Counts.antt =====
-- The counters of a comparison account for the whole combined view.
use gossip_observer.Extern.{Extern}
use gossip_observer.GraphDiff.{GraphDiff}
use gossip_observer.GraphDiff.Compare.{
  bump, compare_node, compare_nodes, compare_direction, compare_channel, compare_channels,
}
use gossip_observer.Prelude.{
  ℕ, ◌+◌, ◌*◌, ◌^◌, ◌<◌, ◌≡◌, refl, List, [], ◌∷◌, Option, none, some, arith, All, length,
  ℕ_discrete,
}
use gossip_observer.Prelude.Map.{lookup}
use gossip_observer.Types.Gossip.{
  NodeAnnouncementInfo, GossipNodeInfo, GossipChannelDirectionInfo, GossipChannelInfo,
}

abbrev pub nodes_seen : GraphDiff → ℕ
nodes_seen d = d.known_nodes + d.missing_nodes

abbrev pub node_infos_seen : GraphDiff → ℕ
node_infos_seen d = d.matching_node_info + d.missing_node_info + d.stale_node_info

abbrev pub channels_seen : GraphDiff → ℕ
channels_seen d = d.known_channels + d.missing_channels

abbrev pub directions_seen : GraphDiff → ℕ
directions_seen d =
    d.matching_channel_direction + d.missing_channel_direction + d.stale_channel_direction

-- The case that the source calls impossible: the collector knows more than the combined view.
abbrev pub Covered {ℓ κ} : {A : Type ℓ} {B : Type κ} → Option A → Option (Option B) → Type 0
Covered none (some (some b)) = ⊥
Covered _ _ = Unit

module _ (x : Extern) where
  compare_node_counts :
      (d : GraphDiff) (n : ℕ) (a : Option (NodeAnnouncementInfo x))
      (b : Option (Option (NodeAnnouncementInfo x)))
      → Covered a b
      → n + 1 < 2 ^ 32
      → nodes_seen d ≡ n
      → node_infos_seen d ≡ n
      → (nodes_seen (compare_node x d a b) ≡ n + 1)
        × (node_infos_seen (compare_node x d a b) ≡ n + 1)
  unfolding compare_node
  compare_node_counts d n none none c h p q = ground arith
  compare_node_counts d n (some a) none c h p q = ground arith
  compare_node_counts d n none (some none) c h p q = ground arith
  compare_node_counts d n none (some (some b)) c h p q = absurd c
  compare_node_counts d n (some a) (some (some b)) c h p q = ground arith
  compare_node_counts d n (some a) (some none) c h p q = ground arith

  pub compare_nodes_counts :
      (own : List (x.PublicKey × Option (NodeAnnouncementInfo x)))
      (rest : List (x.PublicKey × GossipNodeInfo x)) (d : GraphDiff) (n : ℕ)
      → All (λ e. Covered e.1.info (lookup x.pubkey_discrete e.0 own)) rest
      → n + length rest < 2 ^ 32
      → nodes_seen d ≡ n
      → node_infos_seen d ≡ n
      → (nodes_seen (compare_nodes x d own rest) ≡ n + length rest)
        × (node_infos_seen (compare_nodes x d own rest) ≡ n + length rest)
  unfolding compare_nodes
  compare_nodes_counts own [] d n c h p q = omega arith
  compare_nodes_counts own ((key, a) ∷ rest) d n (c, cs) h p q =
      let b = lookup x.pubkey_discrete key own in
      let (p', q') = compare_node_counts d n a.info b c (omega arith) p q in
      let (r, s) =
        compare_nodes_counts own rest (compare_node x d a.info b) (n + 1) cs (omega arith) p' q' in
      (omega arith, omega arith)

-- Comparing nodes leaves the channel counters alone.
abbrev pub NoChannelsYet : GraphDiff → Type 0
NoChannelsYet d = (channels_seen d ≡ 0) × (directions_seen d ≡ 0)

module _ (x : Extern) where
  compare_node-no_channels :
      (d : GraphDiff) (a : Option (NodeAnnouncementInfo x))
      (b : Option (Option (NodeAnnouncementInfo x)))
      → NoChannelsYet d
      → NoChannelsYet (compare_node x d a b)
  unfolding compare_node
  compare_node-no_channels d none none h = h
  compare_node-no_channels d (some a) none h = h
  compare_node-no_channels d none (some none) h = h
  compare_node-no_channels d none (some (some b)) h = h
  compare_node-no_channels d (some a) (some (some b)) h = ground arith
  compare_node-no_channels d (some a) (some none) h = h

  pub compare_nodes-no_channels :
      (own : List (x.PublicKey × Option (NodeAnnouncementInfo x)))
      (rest : List (x.PublicKey × GossipNodeInfo x)) (d : GraphDiff)
      → NoChannelsYet d
      → NoChannelsYet (compare_nodes x d own rest)
  unfolding compare_nodes
  compare_nodes-no_channels own [] d h = h
  compare_nodes-no_channels own ((key, a) ∷ rest) d h =
      compare_nodes-no_channels own rest _ (compare_node-no_channels d a.info _ h)

abbrev pub CoveredDirection :
    Option GossipChannelDirectionInfo → Option GossipChannelDirectionInfo → Type 0
CoveredDirection none (some b) = ⊥
CoveredDirection _ _ = Unit

-- A direction counts once, and touches no other counter.
compare_direction_counts :
    (d : GraphDiff) (a b : Option GossipChannelDirectionInfo) (n : ℕ)
    → CoveredDirection a b
    → n + 1 < 2 ^ 32
    → directions_seen d ≡ n
    → let e = compare_direction d a b in
      (directions_seen e ≡ n + 1)
      × (e.known_channels ≡ d.known_channels)
      × (e.missing_channels ≡ d.missing_channels)
      × (nodes_seen e ≡ nodes_seen d)
      × (node_infos_seen e ≡ node_infos_seen d)
unfolding compare_direction
compare_direction_counts d none none n c h p = ground arith
compare_direction_counts d none (some b) n c h p = absurd c
compare_direction_counts d (some a) none n c h p = ground arith
compare_direction_counts d (some a) (some b) n c h p = ground arith

module _ (x : Extern) where
  abbrev pub CoveredChannel : GossipChannelInfo x → Option (GossipChannelInfo x) → Type 0
  CoveredChannel a none = Unit
  CoveredChannel a (some b) =
      CoveredDirection a.one_to_two b.one_to_two × CoveredDirection a.two_to_one b.two_to_one

  -- What one channel adds to the counters.
  abbrev pub ChannelCounts : GraphDiff → GraphDiff → ℕ → Type 0
  ChannelCounts d e n =
      (channels_seen e ≡ n)
      × (directions_seen e ≡ 2 * e.known_channels)
      × (nodes_seen e ≡ nodes_seen d)
      × (node_infos_seen e ≡ node_infos_seen d)

  compare_channel_counts :
      (d : GraphDiff) (a : GossipChannelInfo x) (b : Option (GossipChannelInfo x)) (n : ℕ)
      → CoveredChannel a b
      → 2 * (n + 1) < 2 ^ 32
      → channels_seen d ≡ n
      → directions_seen d ≡ 2 * d.known_channels
      → ChannelCounts d (compare_channel x d a b) (n + 1)
  unfolding compare_channel
  compare_channel_counts d a none n c h p q = ground arith
  compare_channel_counts d a (some b) n (c, c') h p q =
      let d' : GraphDiff = record d { known_channels = bump d.known_channels } in
      let one =
        compare_direction_counts d' a.one_to_two b.one_to_two (directions_seen d) c (omega arith)
          refl in
      let two =
        compare_direction_counts (compare_direction d' a.one_to_two b.one_to_two) a.two_to_one
          b.two_to_one (directions_seen d + 1) c' (omega arith) one.0 in
      (omega arith, omega arith, omega arith, omega arith)

  pub compare_channels_counts :
      (own rest : List (ℕ × GossipChannelInfo x)) (d : GraphDiff) (n : ℕ)
      → All (λ e. CoveredChannel e.1 (lookup ℕ_discrete e.0 own)) rest
      → 2 * (n + length rest) < 2 ^ 32
      → channels_seen d ≡ n
      → directions_seen d ≡ 2 * d.known_channels
      → ChannelCounts d (compare_channels x d own rest) (n + length rest)
  unfolding compare_channels
  compare_channels_counts own [] d n c h p q = (omega arith, q, refl, refl)
  compare_channels_counts own ((scid, a) ∷ rest) d n (c, cs) h p q =
      let b = lookup ℕ_discrete scid own in
      let one = compare_channel_counts d a b n c (omega arith) p q in
      let more =
        compare_channels_counts own rest (compare_channel x d a b) (n + 1) cs (omega arith) one.0
          one.1 in
      (omega arith, omega arith, omega arith, omega arith)
