-- ===== src/Pipeline.antt =====
-- The way of a gossip message from a collector's exporter (gossip_collector/src/exporter.rs) through
-- NATS to the archiver's decoder (gossip_archiver/src/main.rs).
pub mod Stored
use gossip_observer.Archive.Decode.{decode_msg}
use gossip_observer.Archive.Decoder as Archiver
use gossip_observer.Archive.Decoder.{inter_delim, DecoderEnd, msg_decoder, msg_decoder-append}
use gossip_observer.Archive.Records.{Feed, ExportedGossip}
use gossip_observer.Export.Publish.{
  Publisher, PublishEvent, publish_msgs, received, end_to_end, end_to_end-append, IsOpen,
  publish_msgs-IsBatched,
}
use gossip_observer.Export.Publish as Exporter
use gossip_observer.Export.Queue.{
  QueueEnd, Seen, events, AreSpelled, forwarded, queue_exported_msg, queue_exported_msg_lem,
}
use gossip_observer.Prelude.{
  ℕ, ◌<◌, ◌≡◌, refl, sym, ap, subst, ◌∙◌, Bool, true, List, [], ◌∷◌, ◌++◌, Option, none, some, ok,
  All, All-split, map, map-append, append_assoc, append-nil, length, arith,
}
use gossip_observer.Prelude.Split.{join, FreeOf}
use gossip_observer.Prelude.Text.{Text}

-- The payloads of batches that are listed newest first, oldest first.
abbrev pub payloads : List (List Text) → List (Option Text) → List (Option Text)
payloads [] later = later
payloads (b ∷ bs) later = payloads bs (some (join inter_delim b) ∷ later)

module _ (f : Feed) (accepts : ExportedGossip f → Bool) (record_of : Text → ExportedGossip f) where
  -- A text that holds no semicolon, is decoded to its record, and whose record is accepted.
  abbrev pub IsGood : Text → Type 0
  IsGood t =
      FreeOf inter_delim t × (decode_msg f t ≡ ok (record_of t)) × (accepts (record_of t) ≡ true)

  paired : List Text → List (Text × ExportedGossip f)
  paired ts = map (λ t. (t, record_of t)) ts

  texts-paired : (ts : List Text) → Archiver.texts f accepts (paired ts) ≡ ts
  unfolding paired
  texts-paired [] = refl
  texts-paired (t ∷ ts) = ap (λ l. t ∷ l) (texts-paired ts)

  records-paired : (ts : List Text) → Archiver.records f accepts (paired ts) ≡ map record_of ts
  unfolding paired
  records-paired [] = refl
  records-paired (t ∷ ts) = ap (λ l. record_of t ∷ l) (records-paired ts)

  paired-Decodes : (ts : List Text) → All IsGood ts → Archiver.Decodes f accepts (paired ts)
  unfolding paired
  paired-Decodes [] h = tt
  paired-Decodes (t ∷ ts) ((_, d, a), hs) = ((d, a), paired-Decodes ts hs)

  good-FreeOf : (ts : List Text) → All IsGood ts → All (FreeOf inter_delim) ts
  good-FreeOf [] h = tt
  good-FreeOf (t ∷ ts) ((free, _, _), hs) = (free, good-FreeOf ts hs)

  -- One payload.
  decode_batch :
      (b : List Text) (later : List (Option Text))
      → 0 < length b
      → All IsGood b
      → msg_decoder f accepts (some (join inter_delim b) ∷ later)
        ≡ (map record_of b ++ (msg_decoder f accepts later).0, (msg_decoder f accepts later).1)
  decode_batch [] later p h = absurd (omega arith)
  decode_batch (t ∷ ts) later p h =
      let batch : Archiver.Batch f accepts = record {
        first = (t, record_of t);
        others = paired ts;
      } in
      let ps = paired ts in
      ap (λ l. msg_decoder f accepts (some (join inter_delim (t ∷ l)) ∷ later))
        (sym (texts-paired ts))
      ∙ msg_decoder-append f accepts (batch ∷ []) later (
        (
          (h.0.0, subst (All (FreeOf inter_delim)) (sym (texts-paired ts)) (good-FreeOf ts h.1)),
          ((h.0.1, h.0.2), paired-Decodes ts h.1),
        ),
        tt,
      )
      ∙ ap (λ l. (l ++ (msg_decoder f accepts later).0, (msg_decoder f accepts later).1))
          (append-nil (record_of t ∷ Archiver.records f accepts ps)
            ∙ ap (λ l. record_of t ∷ l) (records-paired ts))

  module _ (publish : List (List Text) → Text → Option ℕ) (batch_size : ℕ)
      (positive : 0 < batch_size) where
    decode_published :
        (bs : List (List Text)) (later : List (Option Text))
        → All (λ b. length b ≡ batch_size) bs
        → All IsGood (end_to_end publish batch_size bs [])
        → msg_decoder f accepts (payloads bs later) ≡ (
          map record_of (end_to_end publish batch_size bs []) ++ (msg_decoder f accepts later).0,
          (msg_decoder f accepts later).1,
        )
    decode_published [] later p h = refl
    decode_published (b ∷ bs) later (p, ps) h =
        let e2e = end_to_end publish batch_size bs in
        let same = ap e2e (append-nil b) ∙ end_to_end-append publish batch_size bs [] b in
        let (older, newest) = All-split IsGood (e2e []) b (subst (All IsGood) same h) in
        decode_published bs (some (join inter_delim b) ∷ later) ps older
        ∙ ap (λ r. (map record_of (e2e []) ++ r.0, r.1))
            (decode_batch b later (omega (arith, p)) newest)
        ∙ ap (λ l. (l, (msg_decoder f accepts later).1))
            (sym (
                append_assoc (map record_of (e2e [])) (map record_of b)
                  (msg_decoder f accepts later).0)
              ∙ ap (λ l. l ++ (msg_decoder f accepts later).0)
                  (sym (map-append record_of (e2e []) b) ∙ ap (map record_of) (sym same)))

    module _
        (acknowledged : (bs : List (List Text)) (t : Text) → (ms : ℕ) × (publish bs t ≡ some ms))
        (msg_suffix : Text) (reserve : Text → Option QueueEnd)
        (reserved : (t : Text) → reserve t ≡ none) where
      -- A node exports messages whose time and peer hold no comma while filters change. The exporter
      -- queues them with places reserved, and its publisher receives what is queued, with ticks of its
      -- timer in between, while every batch is acknowledged and neither task is stopped. The archiver
      -- decodes the published payloads, and each text that is queued holds no semicolon, is decoded to
      -- its record and has its record accepted. Then the records that the archiver sends on and the
      -- records of the unfinished batch are together the records of exactly the messages whose peer was
      -- not in the filter of their time, in order, no error ends a task, and the unfinished batch has
      -- fewer messages than a batch.
      pub exported-archived :
          (rules : List Text) (ss : List Seen) (es : List PublishEvent)
          → AreSpelled ss
          → All (IsOpen publish batch_size) es
          → received publish batch_size es
            ≡ (queue_exported_msg msg_suffix reserve rules (events ss)).0
          → All IsGood (forwarded msg_suffix reserve reserved rules ss)
          → (last : Publisher) × (publish_msgs publish batch_size
                (Exporter.start publish batch_size)
                es
              ≡ ok last)
            × (let (archived, end) = msg_decoder f accepts (payloads last.published []) in
                (archived ++ map record_of last.msg_batch
                  ≡ map record_of (forwarded msg_suffix reserve reserved rules ss))
                × (end ≡ DecoderEnd.chan_closed))
            × (length last.msg_batch < batch_size)
      unfolding msg_decoder
      exported-archived rules ss es spelled open_events same good =
          let sent = queue_exported_msg_lem msg_suffix reserve reserved rules ss spelled in
          let (last, e, batched, few) =
            publish_msgs-IsBatched publish batch_size positive acknowledged es open_events in
          let bs = last.published in
          let e2e = end_to_end publish batch_size bs in
          let whole =
            sym (end_to_end-append publish batch_size bs [] last.msg_batch)
            ∙ batched.in_order
            ∙ same
            ∙ ap (λ r. r.0) sent in
          let (published, rest) =
            All-split IsGood (e2e []) last.msg_batch (subst (All IsGood) (sym whole) good) in
          let decoded = decode_published bs [] batched.full published in
          (
            last,
            e,
            (
              ap (λ r. r.0 ++ map record_of last.msg_batch) decoded
                  ∙ ap (λ l. l ++ map record_of last.msg_batch)
                      (append-nil (map record_of (e2e [])))
                  ∙ sym (map-append record_of (e2e []) last.msg_batch)
                  ∙ ap (map record_of) whole,
              ap (λ r. r.1) decoded,
            ),
            few,
          )
