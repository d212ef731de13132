-- ===== src/Types/Gossip/Channel.antt =====
-- A whole channel: `GossipChannelInfo`.
use gossip_observer.Extern.{Extern}
use gossip_observer.Prelude.{
  ℕ, max, Bool, true, false, Option, none, some, ltb, ◌==◌, if◌then◌else◌,
}
use gossip_observer.Types.Gossip.{GossipChannelDirectionInfo, GossipChannelInfo}
use gossip_observer.Types.Gossip.Direction

-- `==` of two optional numbers.
abbrev pub same_number : Option ℕ → Option ℕ → Bool
same_number (some a) (some b) = a == b
same_number none none = true
same_number _ _ = false

abbrev pub same_direction :
    Option GossipChannelDirectionInfo → Option GossipChannelDirectionInfo → Bool
same_direction (some own) (some other) = Direction.same_info own other
same_direction none none = true
same_direction _ _ = false

-- `newer_ts` and `newer_capacity` in `merge_to_newest`.
abbrev pub newer_timestamp : Option ℕ → Option ℕ → Option ℕ
newer_timestamp (some own) (some other) = some (max own other)
newer_timestamp (some own) none = some own
newer_timestamp none (some other) = some other
newer_timestamp none none = none

abbrev pub newer_capacity : Bool → Option ℕ → Option ℕ → Option ℕ
newer_capacity own_is_newer (some own) (some other) = some (if own_is_newer then own else other)
newer_capacity own_is_newer (some own) none = some own
newer_capacity own_is_newer none (some other) = some other
newer_capacity own_is_newer none none = none

abbrev pub newer_update : Option ℕ → Option ℕ → Bool
newer_update (some own) (some other) = ltb other own
newer_update (some own) none = true
newer_update none (some other) = false
newer_update none none = false

module _ (x : Extern) where
  unfoldable pub is_newer : GossipChannelInfo x → GossipChannelInfo x → Bool
  is_newer own other = newer_update own.last_update other.last_update

  -- Whether the capacity, the first and the second direction agree.
  unfoldable pub same_info : GossipChannelInfo x → GossipChannelInfo x → Bool × Bool × Bool
  same_info own other = (
    same_number own.capacity_sats other.capacity_sats,
    same_direction own.one_to_two other.one_to_two,
    same_direction own.two_to_one other.two_to_one,
  )

  unfoldable pub merge_to_newest : GossipChannelInfo x → GossipChannelInfo x → GossipChannelInfo x
  merge_to_newest own other =
      let newer_ts = newer_timestamp own.last_update other.last_update in
      record {
        scid = own.scid;
        node_one = own.node_one;
        node_two = own.node_two;
        last_update = newer_ts;
        capacity_sats =
            newer_capacity (same_number own.last_update newer_ts) own.capacity_sats
              other.capacity_sats;
        one_to_two = Direction.merge_to_newest own.one_to_two other.one_to_two;
        two_to_one = Direction.merge_to_newest own.two_to_one other.two_to_one;
      }
