-- ===== src/Types/Gossip/Direction.antt =====
-- One direction of a channel: `GossipChannelDirectionInfo`.
use gossip_observer.Prelude.{Bool, ◌&&◌, Option, none, some, ltb, ◌==◌, if◌then◌else◌}
use gossip_observer.Types.Gossip.{GossipChannelDirectionInfo}

unfoldable pub is_newer : GossipChannelDirectionInfo → GossipChannelDirectionInfo → Bool
is_newer own other = ltb other.last_update own.last_update

-- Ignores the timestamp.
unfoldable pub same_info : GossipChannelDirectionInfo → GossipChannelDirectionInfo → Bool
same_info own other =
    own.htlc_min_msat == other.htlc_min_msat
    && own.htlc_max_msat == other.htlc_max_msat
    && own.fees_base_msat == other.fees_base_msat
    && own.fees_proportional_millionths == other.fees_proportional_millionths
    && own.cltv_expiry_delta == other.cltv_expiry_delta

-- The method `merge_to_newest`.
unfoldable pub newest :
    GossipChannelDirectionInfo → GossipChannelDirectionInfo → GossipChannelDirectionInfo
unfolding is_newer
newest own other = if is_newer own other then own else other

-- The function `merge_to_newest` on optional directions.
unfoldable pub merge_to_newest :
    Option GossipChannelDirectionInfo
    → Option GossipChannelDirectionInfo
    → Option GossipChannelDirectionInfo
unfolding newest
merge_to_newest (some init) (some other) = some (newest init other)
merge_to_newest (some init) none = some init
merge_to_newest none (some other) = some other
merge_to_newest none none = none
