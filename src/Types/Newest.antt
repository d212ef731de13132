-- ===== src/Types/Newest.antt =====
-- What the merges of gossip records choose.

use gossip_observer.Prelude.{ℕ, ◌≤◌, ◌≡◌, refl, ◌⊎◌, inl, inr, Option, none, some, arith}
use gossip_observer.Types.Gossip.{GossipChannelDirectionInfo}
use gossip_observer.Types.Gossip.Direction
use gossip_observer.Types.Gossip.Channel

-- `a` is no newer than `b`: an absent value is older than any other.
abbrev pub NoNewer : Option ℕ → Option ℕ → Type 0
NoNewer none b = Unit
NoNewer (some a) none = ⊥
NoNewer (some a) (some b) = a ≤ b

abbrev pub stamp : Option GossipChannelDirectionInfo → Option ℕ
stamp none = none
stamp (some d) = some d.last_update

pub NoNewer-refl : (a : Option ℕ) → NoNewer a a
NoNewer-refl none = tt
NoNewer-refl (some a) = omega arith

pub NoNewer-trans : (a b c : Option ℕ) → NoNewer a b → NoNewer b c → NoNewer a c
NoNewer-trans none b c h k = tt
NoNewer-trans (some a) (some b) (some c) h k = omega arith
NoNewer-trans (some a) (some b) none h k = k
NoNewer-trans (some a) none c h k = absurd h

-- The merged direction is one of the two, and no older than either.
pub merge_direction_newest :
    (a b : Option GossipChannelDirectionInfo)
    → let c = Direction.merge_to_newest a b in
      ((c ≡ a) ⊎ (c ≡ b)) × NoNewer (stamp a) (stamp c) × NoNewer (stamp b) (stamp c)
unfolding Direction.merge_to_newest
merge_direction_newest none none = (inl refl, tt, tt)
merge_direction_newest none (some b) = (inr refl, tt, omega arith)
merge_direction_newest (some a) none = (inl refl, omega arith, tt)
merge_direction_newest (some a) (some b) = ground arith

-- The merged timestamp is one of the two, and no older than either.
pub newer_timestamp_newest :
    (a b : Option ℕ)
    → let c = Channel.newer_timestamp a b in ((c ≡ a) ⊎ (c ≡ b)) × NoNewer a c × NoNewer b c
newer_timestamp_newest none none = (inl refl, tt, tt)
newer_timestamp_newest none (some b) = (inr refl, tt, omega arith)
newer_timestamp_newest (some a) none = (inl refl, omega arith, tt)
newer_timestamp_newest (some a) (some b) = ground arith
