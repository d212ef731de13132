-- ===== src/Communities/Sampling.antt =====
-- observer_controller/src/main.rs: how many connections a community gets, the file of collector
-- assignments, and the configuration of the collector manager.
use gossip_observer.Communities.{
  NodeInfoRecord, NodeCommunitiesRecord, Communities, annotated_communities,
}
use gossip_observer.Extern.{Extern}
use gossip_observer.Manager.State.{NodeAnnotatedRecord, CollectionConfig, CommunityStats}
use gossip_observer.Prelude.{
  ℕ, ◌%◌, ◌^◌, max, Bool, ◌&&◌, List, [], ◌∷◌, Option, ℕ_discrete, length, ltb, if◌then◌else◌,
  Result, ok, err, ◌>>=◌, ok_or,
}
use gossip_observer.Prelude.Map.{insert}
use gossip_observer.Prelude.Text.{Text, Text-discrete}

-- The operations of `f64`, and the three constants that the code writes. `to_u32` is `as u32`.
pub record Floats (F : Type 0) : Type 0 where
  pub of_usize : ℕ → F
  pub div : F → F → F
  pub mul : F → F → F
  pub add : F → F → F
  pub sub : F → F → F
  pub sqrt : F → F
  pub round : F → F
  pub to_u32 : F → ℕ
  pub ge : F → F → Bool
  pub lt : F → F → Bool
  pub one : F
  pub undersample_threshold : F
  pub oversample_threshold : F

-- An integer of a TOML table, as `as_integer` gives it: `negsuc n` is -(n + 1).
pub data ℤ : Type 0 where
  pos : ℕ → ℤ
  negsuc : ℕ → ℤ

pub data SetupError : Type 0 where
  csv_write non_numeric out_of_range : SetupError

-- `u32::try_from` of an `i64`.
unfoldable pub try_u32 : ℤ → Result ℕ SetupError
try_u32 (pos n) = if ltb n (2 ^ 32) then ok n else err SetupError.out_of_range
try_u32 (negsuc n) = err SetupError.out_of_range

-- The entries of the table with their integers, or `none` where an entry is something else.
unfoldable pub load_collector_assignments :
    List (Text × ℕ) → List (Text × Option ℤ) → Result (List (Text × ℕ)) SetupError
load_collector_assignments mappings [] = ok mappings
load_collector_assignments mappings ((uuid, value) ∷ table) = do
  integer ← ok_or value SetupError.non_numeric
  community_id ← try_u32 integer
  load_collector_assignments (insert Text-discrete uuid community_id mappings) table

module _ (x : Extern) (f : Floats x.F64) where
  unfoldable pub connection_count : x.F64 → x.F64 → x.F64 → ℕ
  connection_count proportion expected stddev =
      if f.ge proportion f.undersample_threshold
      then f.to_u32 (f.round (f.sub expected stddev))
      else (if f.lt proportion f.undersample_threshold && f.ge proportion f.oversample_threshold
          then f.to_u32 (f.round expected)
          else max (f.to_u32 (f.round (f.add expected stddev))) 1)

  module _ (total_nodes target_total_connections : ℕ) where
    unfoldable pub community_stats : ℕ → CommunityStats x
    community_stats size =
        let proportion = f.div (f.of_usize size) (f.of_usize total_nodes) in
        let expected = f.mul (f.of_usize target_total_connections) proportion in
        let stddev = f.sqrt (f.mul expected (f.sub f.one proportion)) in
        record {
          size = size % 2 ^ 32;
          proportion = proportion;
          expected = expected;
          stddev = stddev;
          connection_count = connection_count proportion expected stddev;
        }

    -- `writes` says whether the CSV file of a community is written.
    module _ (writes : ℕ → List NodeAnnotatedRecord → Bool) where
      -- The loop over the communities.
      unfoldable pub sample_communities :
          List (ℕ × CommunityStats x)
          → Communities
          → Result (List (ℕ × CommunityStats x)) SetupError
      sample_communities m [] = ok m
      sample_communities m ((id, community) ∷ communities) =
          let rest =
            sample_communities (insert ℕ_discrete id (community_stats (length community)) m)
              communities in
          if writes id community then rest else err SetupError.csv_write

-- The configuration, from the two files, the table and the number of connections.
unfoldable pub configure :
    (x : Extern)
    → Floats x.F64
    → (ℕ → List NodeAnnotatedRecord → Bool)
    → ℕ
    → List NodeInfoRecord
    → List NodeCommunitiesRecord
    → List (Text × Option ℤ)
    → Result (CollectionConfig x) SetupError
configure x f writes total_connections node_info node_communities table = do
  let communities = annotated_communities node_info node_communities
  stats ← sample_communities x f (length node_communities) total_connections writes [] communities
  assignments ← load_collector_assignments [] table
  ok (record {
    collector_mapping = assignments;
    community_members = communities;
    community_stats = stats;
  })
