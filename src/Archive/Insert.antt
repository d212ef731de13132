-- ===== src/Archive/Insert.antt =====
-- gossip_archiver: the `unroll` functions of lib.rs and `db_batch_write` of main.rs, which sends a
-- batch to the database by columns.
pub mod Rows
pub mod Written
use gossip_observer.Archive.Records.{
  Feed, RawMessage, MessageNodeTimings, MessageMetadata, MessageHashMapping,
}
use gossip_observer.Archive.Writer.{Buffers, empty_buffers}
use gossip_observer.Prelude.{
  ℕ, zero, suc, ◌+◌, ◌*◌, ◌/◌, ◌%◌, ◌^◌, ◌<◌, ◌≡◌, refl, ap, ◌∙◌, List, [], ◌∷◌, ◌++◌, Option, none,
  some, Result, ok, err, ◌>>=◌, map, All, arith,
}
use gossip_observer.Prelude.Bytes.{Bytes, le_bytes}
use gossip_observer.Prelude.Text.{Text}
use mathlib.Core.Option

-- `to_le_bytes` of a `u64`.
unfoldable pub to_le_bytes : ℕ → Bytes
to_le_bytes n = le_bytes 8 n

-- A row of each table. A `u8` becomes an `i16` and a `u16` an `i32`, which keeps the number.
unfoldable pub unroll_raw : RawMessage → Bytes × Text
unroll_raw m = (to_le_bytes m.msg_hash, m.msg)

unfoldable pub unroll_meta : MessageMetadata → Bytes × Bytes × ℕ × ℕ × Option Text × Option Bytes
unroll_meta m = (
  to_le_bytes m.msg_hash,
  to_le_bytes m.inner_hash,
  m.msg_type,
  m.msg_size,
  m.orig_node,
  Option.map to_le_bytes m.scid,
)

unfoldable pub unroll_mapping : MessageHashMapping → Bytes × Bytes
unroll_mapping m = (to_le_bytes m.outer_hash, to_le_bytes m.inner_hash)

module _ (f : Feed) where
  abbrev pub TimingRow : Type 0
  TimingRow = Bytes × Bytes × Text × Text × Bytes × ℕ × f.DateTime × Option f.DateTime

  unfoldable pub unroll_timing : MessageNodeTimings f → TimingRow
  unroll_timing m = (
    to_le_bytes m.msg_hash,
    to_le_bytes m.inner_hash,
    m.collector,
    m.peer,
    to_le_bytes m.peer_hash,
    m.dir,
    m.net_timestamp,
    m.orig_timestamp,
  )

  -- The insertions with their parameters, one for each table: columns in the order of the statement.
  pub data Query : Type 0 where
    messages : List Bytes → List Text → Query
    message_hashes : List Bytes → List Bytes → Query
    timings :
        List f.DateTime
        → List Bytes
        → List Bytes
        → List Text
        → List Text
        → List ℕ
        → List Bytes
        → List (Option f.DateTime)
        → Query
    metadata :
        List Bytes → List Bytes → List ℕ → List ℕ → List (Option Text) → List (Option Bytes) → Query

  -- The four tasks: the insertion of each, or none for an empty buffer. The columns are those of
  -- `multiunzip`.
  unfoldable pub insert_raws : List RawMessage → List Query
  insert_raws [] = []
  insert_raws (m ∷ ms) =
      let rows = map unroll_raw (m ∷ ms) in
      Query.messages (map (λ r. r.0) rows) (map (λ r. r.1) rows) ∷ []

  unfoldable pub insert_mappings : List MessageHashMapping → List Query
  insert_mappings [] = []
  insert_mappings (m ∷ ms) =
      let rows = map unroll_mapping (m ∷ ms) in
      Query.message_hashes (map (λ r. r.0) rows) (map (λ r. r.1) rows) ∷ []

  unfoldable pub insert_timings : List (MessageNodeTimings f) → List Query
  insert_timings [] = []
  insert_timings (m ∷ ms) =
      let rows = map unroll_timing (m ∷ ms) in
      Query.timings (map (λ r. r.6) rows) (map (λ r. r.0) rows) (map (λ r. r.1) rows)
        (map (λ r. r.2) rows) (map (λ r. r.3) rows) (map (λ r. r.5) rows) (map (λ r. r.4) rows)
        (map (λ r. r.7) rows)
      ∷ []

  unfoldable pub insert_metas : List MessageMetadata → List Query
  insert_metas [] = []
  insert_metas (m ∷ ms) =
      let rows = map unroll_meta (m ∷ ms) in
      Query.metadata (map (λ r. r.0) rows) (map (λ r. r.1) rows) (map (λ r. r.2) rows)
        (map (λ r. r.3) rows) (map (λ r. r.4) rows) (map (λ r. r.5) rows)
      ∷ []

  unfoldable pub queries : Buffers f → List Query
  queries b =
      insert_raws b.raws
      ++ (insert_mappings b.hash_mappings ++ (insert_timings b.timings ++ insert_metas b.metas))

  -- `execute` runs an insertion, or says why it fails.
  module _ (execute : Query → Result (Unit {0}) Text) where
    unfoldable pub join_all : List Query → Result (Unit {0}) Text
    join_all [] = ok tt
    join_all (q ∷ qs) = do _ ← execute q; join_all qs

    -- `joined` is the order in which the tasks end.
    unfoldable pub db_batch_write : (List Query → List Query) → Buffers f → Result (Unit {0}) Text
    db_batch_write joined b = join_all (joined (queries b))
