-- ===== src/Archive/Insert/Written.antt =====
-- `db_batch_write`: when it succeeds, and the rows that it inserts.
use gossip_observer.Archive.Insert.{
  Query, insert_raws, insert_mappings, insert_timings, insert_metas, queries, join_all,
  db_batch_write,
}
use gossip_observer.Archive.Records.{
  Feed, RawMessage, MessageNodeTimings, MessageMetadata, MessageHashMapping,
}
use gossip_observer.Archive.Writer.{Buffers, empty_buffers}
use gossip_observer.Prelude.{
  ◌≡◌, refl, ap, ◌∙◌, List, [], ◌∷◌, ◌++◌, Result, ok, err, All, append-nil, subst, ◌>>=◌, ◌↔◌,
}
use gossip_observer.Prelude.Text.{Text}
use mathlib.Core.List.{Permᴰ}
use mathlib.Core.List.Permᴰ
use gossip_observer.Archive.Insert.Rows.{
  raw_rows, raw_rows-unroll, mapping_rows, mapping_rows-unroll, meta_rows, meta_rows-unroll,
  timing_rows, timing_rows-unroll, IsU64Raw, IsU64Timing, IsU64Meta, IsU64Mapping,
}

All-Perm {ℓ κ} : {A : Type ℓ} (P : A → Type κ) {xs ys : List A} → Permᴰ xs ys → All P xs → All P ys
All-Perm P Permᴰ.nil h = tt
All-Perm P (Permᴰ.cons e p) (h, hs) = (subst P e h, All-Perm P p hs)
All-Perm P (Permᴰ.swap e e') (h, (k, hs)) = (subst P e' k, (subst P e h, hs))
All-Perm P (Permᴰ.trans p q) h = All-Perm P q (All-Perm P p h)

module _ (f : Feed) where
  -- The rows of an insertion, before those of others.
  abbrev pub add_rows : Query f → Buffers f → Buffers f
  add_rows (Query.messages hs ts) b = record b { raws = raw_rows hs ts ++ b.raws }
  add_rows (Query.message_hashes os is) b = record b {
    hash_mappings = mapping_rows os is ++ b.hash_mappings;
  }
  add_rows (Query.timings ns hs is cs ps ds qs os) b = record b {
    timings = timing_rows f ns hs is cs ps ds qs os ++ b.timings;
  }
  add_rows (Query.metadata hs is ts zs ns ss) b = record b {
    metas = meta_rows hs is ts zs ns ss ++ b.metas;
  }

  abbrev pub rows : List (Query f) → Buffers f
  rows [] = empty_buffers f
  rows (q ∷ qs) = add_rows q (rows qs)

  pub record IsU64Batch (b : Buffers f) : Type 0 where
    pub raws : All IsU64Raw b.raws
    pub timings : All (IsU64Timing f) b.timings
    pub metas : All IsU64Meta b.metas
    pub mappings : All IsU64Mapping b.hash_mappings

  rows-raws :
      (ms : List RawMessage) (qs : List (Query f))
      → All IsU64Raw ms
      → rows (insert_raws f ms ++ qs) ≡ record (rows qs) { raws = ms ++ (rows qs).raws }
  unfolding insert_raws
  rows-raws [] qs h = refl
  rows-raws (m ∷ ms) qs h =
      ap (λ l. record (rows qs) { raws = l ++ (rows qs).raws }) (raw_rows-unroll (m ∷ ms) h)

  rows-mappings :
      (ms : List MessageHashMapping) (qs : List (Query f))
      → All IsU64Mapping ms
      → rows (insert_mappings f ms ++ qs)
        ≡ record (rows qs) { hash_mappings = ms ++ (rows qs).hash_mappings }
  unfolding insert_mappings
  rows-mappings [] qs h = refl
  rows-mappings (m ∷ ms) qs h =
      ap (λ l. record (rows qs) { hash_mappings = l ++ (rows qs).hash_mappings })
        (mapping_rows-unroll (m ∷ ms) h)

  rows-timings :
      (ms : List (MessageNodeTimings f)) (qs : List (Query f))
      → All (IsU64Timing f) ms
      → rows (insert_timings f ms ++ qs) ≡ record (rows qs) { timings = ms ++ (rows qs).timings }
  unfolding insert_timings
  rows-timings [] qs h = refl
  rows-timings (m ∷ ms) qs h =
      ap (λ l. record (rows qs) { timings = l ++ (rows qs).timings })
        (timing_rows-unroll f (m ∷ ms) h)

  rows-metas :
      (ms : List MessageMetadata)
      → All IsU64Meta ms
      → rows (insert_metas f ms) ≡ record (empty_buffers f) { metas = ms }
  unfolding insert_metas
  rows-metas [] h = refl
  rows-metas (m ∷ ms) h =
      ap (λ l. record (empty_buffers f) { metas = l }) (append-nil _ ∙ meta_rows-unroll (m ∷ ms) h)

  rows-queries : (b : Buffers f) → IsU64Batch b → rows (queries f b) ≡ b
  unfolding queries
  rows-queries b h =
      let timings = insert_timings f b.timings ++ insert_metas f b.metas in
      let mappings = insert_mappings f b.hash_mappings ++ timings in
      let metas_lem = rows-metas b.metas h.metas in
      let timings_lem =
        rows-timings b.timings (insert_metas f b.metas) h.timings
        ∙ ap {A = Buffers f} (λ r. record r { timings = b.timings ++ r.timings }) metas_lem in
      let mappings_lem =
        rows-mappings b.hash_mappings timings h.mappings
        ∙ ap {A = Buffers f} (λ r. record r { hash_mappings = b.hash_mappings ++ r.hash_mappings })
            timings_lem in
      rows-raws b.raws mappings h.raws
      ∙ ap {A = Buffers f} (λ r. record r { raws = b.raws ++ r.raws }) mappings_lem
      ∙ (λ i. record {
        raws = append-nil b.raws i;
        timings = append-nil b.timings i;
        metas = b.metas;
        hash_mappings = append-nil b.hash_mappings i;
      })

  module _ (execute : Query f → Result (Unit {0}) Text) where
    abbrev pub IsExecuted : Query f → Type 0
    IsExecuted q = execute q ≡ ok tt

    join_all-All : (qs : List (Query f)) → join_all f execute qs ≡ ok tt → All IsExecuted qs
    unfolding join_all
    join_all-All [] e = tt
    join_all-All (q ∷ qs) e = at_result (execute q) refl e (join_all-All qs)
      where
        at_result :
            (r : Result (Unit {0}) Text)
            → execute q ≡ r
            → (r >>= (λ _. join_all f execute qs)) ≡ ok tt
            → (join_all f execute qs ≡ ok tt → All IsExecuted qs)
            → IsExecuted q × All IsExecuted qs
        at_result (ok _) p e ih = (p, ih e)
        at_result (err m) p e ih = absurd (cc)

    All-join_all : (qs : List (Query f)) → All IsExecuted qs → join_all f execute qs ≡ ok tt
    unfolding join_all
    All-join_all [] h = refl
    All-join_all (q ∷ qs) (h, hs) = rw h (All-join_all qs hs)

    -- A batch whose hashes and channel ids are of 64 bits is written, whatever the order in which its
    -- insertions end, exactly when all of them succeed. The columns of the insertions, row by row and
    -- with the bytes read as numbers, are the records of the batch, all of them and in order.
    pub db_batch_write_lem :
        (joined : List (Query f) → List (Query f))
        → ((qs : List (Query f)) → Permᴰ (joined qs) qs)
        → (b : Buffers f) → IsU64Batch b
        → ((db_batch_write f execute joined b ≡ ok tt) ↔ All IsExecuted (queries f b))
          × (rows (queries f b) ≡ b)
    unfolding db_batch_write
    db_batch_write_lem joined p b h =
        let qs = queries f b in
        (
          (
            (λ e. All-Perm (IsExecuted) (p qs) (join_all-All (joined qs) e)),
            (λ a. All-join_all (joined qs) (All-Perm (IsExecuted) (Permᴰ.symm (p qs)) a)),
          ),
          rows-queries b h,
        )
