-- ===== src/Archive/Stored.antt =====
-- The archiver's tasks `db_write_ticker` and `db_write_handler` end to end: what is received is
-- stored. The four channels between the tasks keep the order of what is sent on each of them.
use gossip_observer.Archive.Records.{
  Feed, ExportedGossip, RawMessage, MessageNodeTimings, MessageMetadata, MessageHashMapping,
  split_exported_gossip,
}
use gossip_observer.Archive.Ticker.{Ticker, TickerEvent, TickerEnd, Sent, run_ticker}
use gossip_observer.Archive.Ticker as Ticking
use gossip_observer.Archive.Ticker.Flushes.{without_flush, entries, entries_of, run_ticker-IsTimely}
use gossip_observer.Archive.Ticker.Flushes as Flushes
use gossip_observer.Archive.Writer.{Writer, WriterEvent, Buffers, empty_buffers, run_writer}
use gossip_observer.Archive.Writer as Writing
use gossip_observer.Archive.Writer.Batches.{IsHeld, received, run_writer-IsHeld}
use gossip_observer.Archive.Writer.Batches as Batches
use gossip_observer.Prelude.{
  ℕ, ◌<◌, ◌≡◌, refl, ap, sym, subst, ◌∙◌, List, [], ◌∷◌, ◌++◌, Option, none, some, Result, ok, err,
  map, All, append_assoc, append-nil,
}

abbrev snoc_some {ℓ} : {A : Type ℓ} → List A → Option A → List A
snoc_some l none = l
snoc_some l (some a) = l ++ a ∷ []

module _ (f : Feed) where
  -- What was sent on one channel, oldest first, among what was sent, newest first.
  abbrev pub of_channel : {A : Type 0} → (Sent f → Option A) → List (Sent f) → List A
  of_channel channel [] = []
  of_channel channel (s ∷ out) = snoc_some (of_channel channel out) (channel s)

  abbrev pub raw_channel : Sent f → Option RawMessage
  raw_channel (Sent.raw m) = some m
  raw_channel _ = none

  abbrev pub timings_channel : Sent f → Option (MessageNodeTimings f)
  timings_channel (Sent.timings m) = some m
  timings_channel _ = none

  abbrev pub meta_channel : Sent f → Option MessageMetadata
  meta_channel (Sent.meta m) = some m
  meta_channel _ = none

  abbrev pub mapping_channel : Sent f → Option MessageHashMapping
  mapping_channel (Sent.mapping m) = some m
  mapping_channel _ = none

  -- The writer receives on each channel what the ticker sent on it.
  pub record IsDelivered (out : List (Sent f)) (b : Buffers f) : Type 0 where
    pub raws : b.raws ≡ of_channel raw_channel out
    pub timings : b.timings ≡ of_channel timings_channel out
    pub metas : b.metas ≡ of_channel meta_channel out
    pub mappings : b.hash_mappings ≡ of_channel mapping_channel out

  -- The messages that the ticker receives.
  abbrev pub messages : List (TickerEvent f) → List (ExportedGossip f)
  messages [] = []
  messages (TickerEvent.received m ∷ es) = m ∷ messages es
  messages (_ ∷ es) = messages es

  -- The records of messages for the four tables.
  abbrev pub tables : List (ExportedGossip f) → Buffers f
  tables ms = record {
    raws = map (λ m. (split_exported_gossip f m).0) ms;
    timings = map (λ m. (split_exported_gossip f m).1) ms;
    metas = map (λ m. (split_exported_gossip f m).2) ms;
    hash_mappings = map (λ m. (split_exported_gossip f m).3) ms;
  }

  of_channel-without_flush :
      {A : Type 0} (channel : Sent f → Option A) (out : List (Sent f))
      → channel Sent.flush ≡ none
      → of_channel channel out ≡ of_channel channel (without_flush f out)
  of_channel-without_flush channel [] h = refl
  of_channel-without_flush channel (Sent.flush ∷ out) h =
      ap (snoc_some (of_channel channel out)) h ∙ of_channel-without_flush channel out h
  of_channel-without_flush channel (Sent.raw m ∷ out) h =
      ap (λ l. snoc_some l (channel (Sent.raw m))) (of_channel-without_flush channel out h)
  of_channel-without_flush channel (Sent.timings m ∷ out) h =
      ap (λ l. snoc_some l (channel (Sent.timings m))) (of_channel-without_flush channel out h)
  of_channel-without_flush channel (Sent.meta m ∷ out) h =
      ap (λ l. snoc_some l (channel (Sent.meta m))) (of_channel-without_flush channel out h)
  of_channel-without_flush channel (Sent.mapping m ∷ out) h =
      ap (λ l. snoc_some l (channel (Sent.mapping m))) (of_channel-without_flush channel out h)

  -- A channel on which each message has one record.
  of_channel-entries :
      {A : Type 0} (channel : Sent f → Option A) (part : ExportedGossip f → A)
      → ((m : ExportedGossip f) (out : List (Sent f))
          → of_channel channel (entries_of f m out) ≡ of_channel channel out ++ part m ∷ [])
      → (es : List (TickerEvent f)) (out : List (Sent f))
      → of_channel channel (entries f out es) ≡ of_channel channel out ++ map part (messages es)
  of_channel-entries channel part h [] out = sym (append-nil _)
  of_channel-entries channel part h (TickerEvent.received m ∷ es) out =
      of_channel-entries channel part h es (entries_of f m out)
      ∙ ap (λ l. l ++ map part (messages es)) (h m out)
      ∙ append_assoc (of_channel channel out) (part m ∷ []) (map part (messages es))
  of_channel-entries channel part h (TickerEvent.cancelled ∷ es) out =
      of_channel-entries channel part h es out
  of_channel-entries channel part h (TickerEvent.closed ∷ es) out =
      of_channel-entries channel part h es out
  of_channel-entries channel part h (TickerEvent.flush_tick ∷ es) out =
      of_channel-entries channel part h es out
  of_channel-entries channel part h (TickerEvent.stats_tick ∷ es) out =
      of_channel-entries channel part h es out

  delivered-tables :
      (out : List (Sent f)) (es : List (TickerEvent f)) (b : Buffers f)
      → without_flush f out ≡ entries f [] es
      → IsDelivered out b
      → b ≡ tables (messages es)
  unfolding split_exported_gossip
  delivered-tables out es b e h =
      let split = split_exported_gossip f in
      let raws_lem = h.raws ∙ on_channel raw_channel (λ m. (split m).0) refl (λ m o. refl) in
      let timings_lem =
        h.timings ∙ on_channel timings_channel (λ m. (split m).1) refl (λ m o. refl) in
      let metas_lem = h.metas ∙ on_channel meta_channel (λ m. (split m).2) refl (λ m o. refl) in
      let mappings_lem =
        h.mappings ∙ on_channel mapping_channel (λ m. (split m).3) refl (λ m o. refl) in
      (λ i. record {
        raws = raws_lem i;
        timings = timings_lem i;
        metas = metas_lem i;
        hash_mappings = mappings_lem i;
      })
    where
      on_channel :
          {A : Type 0} (channel : Sent f → Option A) (part : ExportedGossip f → A)
          → channel Sent.flush ≡ none
          → ((m : ExportedGossip f) (out : List (Sent f))
              → of_channel channel (entries_of f m out) ≡ of_channel channel out ++ part m ∷ [])
          → of_channel channel out ≡ map part (messages es)
      on_channel channel part n g =
          of_channel-without_flush channel out n
          ∙ ap (of_channel channel) e
          ∙ of_channel-entries channel part g es []

  module _ (batch_size : ℕ) (positive : 0 < batch_size) where
    run_ticker-out :
        (es : List (TickerEvent f)) (t : Ticker f)
        → All (Flushes.IsOpen f) es
        → run_ticker f
            (Flushes.always f)
            batch_size
            (Ticking.start f (Flushes.always f) batch_size)
            es
          ≡ ok t
        → without_flush f t.out ≡ entries f [] es
    run_ticker-out es t o e =
        let (t', e', _, sent) = run_ticker-IsTimely f batch_size positive es o in
        ap (λ r. without_flush f (out_of r)) (sym e ∙ e') ∙ sent
      where
        out_of : Result (Ticker f) TickerEnd → List (Sent f)
        out_of (ok last) = last.out
        out_of (err _) = []

    -- The ticker receives messages until it is in the state `t`, and the writer receives on each
    -- channel what the ticker sent on it, in any interleaving of the channels and with any ticks. No
    -- task is stopped, no channel closed, and the database takes its batches. Then the writer goes on
    -- without an error, and what it has written together with its buffers is exactly the records of
    -- the received messages for the four tables: in order, but the timings in some order, sorted in
    -- each batch.
    pub archive_stores :
        (es : List (TickerEvent f)) (t : Ticker f) (ws : List (WriterEvent f))
        → All (Flushes.IsOpen f) es
        → run_ticker f
            (Flushes.always f)
            batch_size
            (Ticking.start f (Flushes.always f) batch_size)
            es
          ≡ ok t
        → All (Batches.IsOpen f) ws
        → IsDelivered t.out (received f (empty_buffers f) ws)
        → (w : Writer f) × (run_writer f
              (Batches.always f)
              batch_size
              (Writing.start f (Batches.always f) batch_size)
              ws
            ≡ ok w)
          × IsHeld f (tables (messages es)) w
    archive_stores es t ws o e o' d =
        let (w, runs, held, _) = run_writer-IsHeld f batch_size positive ws o' in
        let all_sent =
          delivered-tables t.out es (received f (empty_buffers f) ws) (run_ticker-out es t o e) d in
        (w, runs, subst (λ b. IsHeld f b w) all_sent held)
