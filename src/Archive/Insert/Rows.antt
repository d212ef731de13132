-- ===== src/Archive/Insert/Rows.antt =====
-- What the insertions of a batch hold: PostgreSQL's `UNNEST` makes rows of their columns, and the
-- rows are the records of the batch.
use gossip_observer.Archive.Insert.{
  to_le_bytes, unroll_raw, unroll_timing, unroll_meta, unroll_mapping,
}
use gossip_observer.Prelude.Bytes.{Bytes, from_le_bytes, le_bytes-round}
use gossip_observer.Archive.Records.{
  Feed, RawMessage, MessageNodeTimings, MessageMetadata, MessageHashMapping,
}
use gossip_observer.Prelude.{
  ℕ, ◌^◌, ◌<◌, ◌≡◌, refl, ap, ap₂, List, [], ◌∷◌, Option, none, some, map, All, arith,
}
use gossip_observer.Prelude.Text.{Text}
use mathlib.Core.Option

abbrev pub IsU64 : ℕ → Type 0
IsU64 n = n < 2 ^ 64

to_le_bytes-round : (n : ℕ) → IsU64 n → from_le_bytes (to_le_bytes n) ≡ n
unfolding to_le_bytes
to_le_bytes-round n h = le_bytes-round 8 n (omega (arith, h))

scid-round :
    (s : Option ℕ)
    → ((n : ℕ) → s ≡ some n → IsU64 n)
    → Option.map from_le_bytes (Option.map to_le_bytes s) ≡ s
scid-round none h = refl
scid-round (some n) h = ap some (to_le_bytes-round n (h n refl))

-- The rows of columns, each read as the record of its table.
abbrev pub raw_rows : List Bytes → List Text → List RawMessage
raw_rows (h ∷ hs) (t ∷ ts) = record { msg_hash = from_le_bytes h; msg = t } ∷ raw_rows hs ts
raw_rows _ _ = []

abbrev pub mapping_rows : List Bytes → List Bytes → List MessageHashMapping
mapping_rows (o ∷ os) (i ∷ is) =
    record { outer_hash = from_le_bytes o; inner_hash = from_le_bytes i } ∷ mapping_rows os is
mapping_rows _ _ = []

abbrev pub meta_rows :
    List Bytes
    → List Bytes
    → List ℕ
    → List ℕ
    → List (Option Text)
    → List (Option Bytes)
    → List MessageMetadata
meta_rows (h ∷ hs) (i ∷ is) (t ∷ ts) (z ∷ zs) (n ∷ ns) (s ∷ ss) =
    record {
      msg_hash = from_le_bytes h;
      inner_hash = from_le_bytes i;
      msg_type = t;
      msg_size = z;
      orig_node = n;
      scid = Option.map from_le_bytes s;
    }
    ∷ meta_rows hs is ts zs ns ss
meta_rows _ _ _ _ _ _ = []

abbrev pub IsU64Raw : RawMessage → Type 0
IsU64Raw m = IsU64 m.msg_hash

abbrev pub IsU64Mapping : MessageHashMapping → Type 0
IsU64Mapping m = IsU64 m.outer_hash × IsU64 m.inner_hash

abbrev pub IsU64Meta : MessageMetadata → Type 0
IsU64Meta m = IsU64 m.msg_hash × IsU64 m.inner_hash × ((n : ℕ) → m.scid ≡ some n → IsU64 n)

pub raw_rows-unroll :
    (ms : List RawMessage)
    → All IsU64Raw ms
    → raw_rows (map (λ r. r.0) (map unroll_raw ms)) (map (λ r. r.1) (map unroll_raw ms)) ≡ ms
unfolding unroll_raw
raw_rows-unroll [] h = refl
raw_rows-unroll (m ∷ ms) (h, hs) =
    ap₂ (λ n l. record { msg_hash = n; msg = m.msg } ∷ l) (to_le_bytes-round m.msg_hash h)
      (raw_rows-unroll ms hs)

pub mapping_rows-unroll :
    (ms : List MessageHashMapping)
    → All IsU64Mapping ms
    → mapping_rows (map (λ r. r.0) (map unroll_mapping ms)) (map (λ r. r.1) (map unroll_mapping ms))
      ≡ ms
unfolding unroll_mapping
mapping_rows-unroll [] h = refl
mapping_rows-unroll (m ∷ ms) ((h, k), hs) =
    let p = to_le_bytes-round m.outer_hash h in
    let q = to_le_bytes-round m.inner_hash k in
    ap₂ (λ r l. r ∷ l) (λ i. record { outer_hash = p i; inner_hash = q i })
      (mapping_rows-unroll ms hs)

pub meta_rows-unroll :
    (ms : List MessageMetadata)
    → All IsU64Meta ms
    → let rows = map unroll_meta ms in
      meta_rows
        (map (λ r. r.0) rows)
        (map (λ r. r.1) rows)
        (map (λ r. r.2) rows)
        (map (λ r. r.3) rows)
        (map (λ r. r.4) rows)
        (map (λ r. r.5) rows)
      ≡ ms
unfolding unroll_meta
meta_rows-unroll [] h = refl
meta_rows-unroll (m ∷ ms) ((h, k, s), hs) =
    let p = to_le_bytes-round m.msg_hash h in
    let q = to_le_bytes-round m.inner_hash k in
    let r = scid-round m.scid s in
    ap₂ (λ r l. r ∷ l)
      (λ i. record {
        msg_hash = p i;
        inner_hash = q i;
        msg_type = m.msg_type;
        msg_size = m.msg_size;
        orig_node = m.orig_node;
        scid = r i;
      })
      (meta_rows-unroll ms hs)

module _ (f : Feed) where
  abbrev pub timing_rows :
      List f.DateTime
      → List Bytes
      → List Bytes
      → List Text
      → List Text
      → List ℕ
      → List Bytes
      → List (Option f.DateTime)
      → List (MessageNodeTimings f)
  timing_rows (n ∷ ns) (h ∷ hs) (i ∷ is) (c ∷ cs) (p ∷ ps) (d ∷ ds) (q ∷ qs) (o ∷ os) =
      record {
        msg_hash = from_le_bytes h;
        inner_hash = from_le_bytes i;
        collector = c;
        peer = p;
        peer_hash = from_le_bytes q;
        dir = d;
        net_timestamp = n;
        orig_timestamp = o;
      }
      ∷ timing_rows ns hs is cs ps ds qs os
  timing_rows _ _ _ _ _ _ _ _ = []

  abbrev pub IsU64Timing : MessageNodeTimings f → Type 0
  IsU64Timing m = IsU64 m.msg_hash × IsU64 m.inner_hash × IsU64 m.peer_hash

  pub timing_rows-unroll :
      (ms : List (MessageNodeTimings f))
      → All IsU64Timing ms
      → let rows = map (unroll_timing f) ms in
        timing_rows
          (map (λ r. r.6) rows)
          (map (λ r. r.0) rows)
          (map (λ r. r.1) rows)
          (map (λ r. r.2) rows)
          (map (λ r. r.3) rows)
          (map (λ r. r.5) rows)
          (map (λ r. r.4) rows)
          (map (λ r. r.7) rows)
        ≡ ms
  unfolding unroll_timing
  timing_rows-unroll [] h = refl
  timing_rows-unroll (m ∷ ms) ((h, k, l), hs) =
      let p = to_le_bytes-round m.msg_hash h in
      let q = to_le_bytes-round m.inner_hash k in
      let r = to_le_bytes-round m.peer_hash l in
      ap₂ (λ r l. r ∷ l)
        (λ i. record {
          msg_hash = p i;
          inner_hash = q i;
          collector = m.collector;
          peer = m.peer;
          peer_hash = r i;
          dir = m.dir;
          net_timestamp = m.net_timestamp;
          orig_timestamp = m.orig_timestamp;
        })
        (timing_rows-unroll ms hs)
