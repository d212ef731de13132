-- ===== src/Communities/Served.antt =====
-- What a collector that registers is told, in terms of the controller's files.
use gossip_observer.Communities.{NodeInfoRecord, NodeCommunitiesRecord, Communities}
use gossip_observer.Communities.Members.{annotated, in_community, unless_empty}
use gossip_observer.Communities.Sampling.{Floats, ℤ, pos, community_stats}
use gossip_observer.Extern.{Extern}
use gossip_observer.Manager.State.{NodeAnnotatedRecord, CollectionConfig, CommunityStats}
use gossip_observer.Prelude.{ℕ, ◌≡◌, Bool, List, Option, none, some, ℕ_discrete, length, ◌>>=◌, map}
use gossip_observer.Prelude.Map.{lookup}
use gossip_observer.Prelude.Text.{Text, Text-discrete}
use mathlib.Core.Option

-- The community in an entry of the table.
abbrev pub assigned : Option (Option ℤ) → Option ℕ
assigned (some (some (pos n))) = some n
assigned _ = none

module _ (x : Extern) (f : Floats x.F64) (writes : ℕ → List NodeAnnotatedRecord → Bool) (target : ℕ)
    (infos : List NodeInfoRecord) (nodes : List NodeCommunitiesRecord)
    (table : List (Text × Option ℤ)) where
  abbrev Answer : Type 0
  Answer = Option (CommunityStats x × List NodeAnnotatedRecord)

  abbrev stats_of_members : List NodeAnnotatedRecord → CommunityStats x
  stats_of_members ms = community_stats x f (length nodes) target (length ms)

  -- What the three inputs say of a community, and of a collector.
  abbrev pub community_answer :
      (List NodeAnnotatedRecord → List NodeAnnotatedRecord)
      → ℕ
      → Option (CommunityStats x × List NodeAnnotatedRecord)
  community_answer shuffle c =
      Option.map (λ ms. (community_stats x f (length nodes) target (length ms), shuffle ms))
        (unless_empty (map (annotated infos) (in_community c nodes)))

  abbrev pub answer :
      (List NodeAnnotatedRecord → List NodeAnnotatedRecord)
      → Option ℕ
      → Option (CommunityStats x × List NodeAnnotatedRecord)
  answer shuffle none = none
  answer shuffle (some c) = community_answer shuffle c

  -- A configuration whose tables say the same.
  record IsConfigured (cfg : CollectionConfig x) : Type 0 where
    mapping :
        (uuid : Text)
        → lookup Text-discrete uuid cfg.collector_mapping
          ≡ assigned (lookup Text-discrete uuid table)
    members :
        (c : ℕ)
        → lookup ℕ_discrete c cfg.community_members
          ≡ unless_empty (map (annotated infos) (in_community c nodes))
    stats :
        (c : ℕ)
        → lookup ℕ_discrete c cfg.community_stats
          ≡ Option.map stats_of_members
              (unless_empty (map (annotated infos) (in_community c nodes)))
