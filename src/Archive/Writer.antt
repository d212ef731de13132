-- ===== src/Archive/Writer.antt =====
-- gossip_archiver/src/main.rs: `db_write_handler`, which buffers the records and writes them in
-- batches, when it is signalled or when its timings reach the batch size.
pub mod Sorting
pub mod Batches
use gossip_observer.Archive.Records.{
  Feed, RawMessage, MessageNodeTimings, MessageMetadata, MessageHashMapping,
}
use gossip_observer.Prelude.{
  ℕ, suc, Bool, true, false, ◌||◌, List, [], ◌∷◌, ◌++◌, Result, ok, err, ◌>>=◌, leb, if◌then◌else◌,
  length,
}

-- What wakes the loop. `closed` is the end of one of the four channels.
pub data WriterEvent (f : Feed) : Type 0 where
  cancelled tick closed : WriterEvent f
  raw : RawMessage → WriterEvent f
  timing : MessageNodeTimings f → WriterEvent f
  meta : MessageMetadata → WriterEvent f
  mapping : MessageHashMapping → WriterEvent f

pub data WriterEnd : Type 0 where
  stopped chan_closed write_error : WriterEnd

-- Four buffers, or what one call of `db_batch_write` takes.
pub record Buffers (f : Feed) : Type 0 where
  pub raws : List RawMessage
  pub timings : List (MessageNodeTimings f)
  pub metas : List MessageMetadata
  pub hash_mappings : List MessageHashMapping

-- `written` are the batches that were written, newest first.
pub record Writer (f : Feed) : Type 0 where
  pub buffers : Buffers f
  pub written : List (Buffers f)

module _ (f : Feed) where
  abbrev pub empty_buffers : Buffers f
  empty_buffers = record { raws = []; timings = []; metas = []; hash_mappings = [] }

  -- `sort_by_key`, which is stable.
  unfoldable pub insert_timing :
      MessageNodeTimings f → List (MessageNodeTimings f) → List (MessageNodeTimings f)
  insert_timing t [] = t ∷ []
  insert_timing t (u ∷ us) =
      elim (leb (f.timestamp t.net_timestamp) (f.timestamp u.net_timestamp)) [
        | true ↦ t ∷ u ∷ us
        | false ↦ u ∷ insert_timing t us
      ]

  unfoldable pub sort_timings : List (MessageNodeTimings f) → List (MessageNodeTimings f)
  unfolding insert_timing
  sort_timings [] = []
  sort_timings (t ∷ ts) = insert_timing t (sort_timings ts)

  -- `accepts` says whether the database takes a batch.
  module _ (accepts : List (Buffers f) → Buffers f → Bool) (batch_size : ℕ) where
    abbrev pub start : Writer f
    start = record { buffers = empty_buffers; written = [] }

    abbrev pub db_batch_write : Buffers f → Writer f → Result (Writer f) WriterEnd
    db_batch_write batch w =
        if accepts w.written batch
        then ok (record { buffers = empty_buffers; written = batch ∷ w.written })
        else err WriterEnd.write_error

    abbrev pub flush_if : Bool → Writer f → Result (Writer f) WriterEnd
    flush_if true w =
        db_batch_write (record w.buffers { timings = sort_timings w.buffers.timings }) w
    flush_if false w = ok w

    -- The end of each turn of the loop.
    unfoldable pub finish : Bool → Writer f → Result (Writer f) WriterEnd
    finish should_flush w = flush_if (should_flush || leb batch_size (length w.buffers.timings)) w

    unfoldable pub write_step : Writer f → WriterEvent f → Result (Writer f) WriterEnd
    write_step w WriterEvent.cancelled = err WriterEnd.stopped
    write_step w WriterEvent.closed = err WriterEnd.chan_closed
    write_step w WriterEvent.tick = finish true w
    write_step w (WriterEvent.raw m) =
        finish false (record w { buffers = record w.buffers { raws = w.buffers.raws ++ m ∷ [] } })
    write_step w (WriterEvent.timing m) =
        finish false
          (record w { buffers = record w.buffers { timings = w.buffers.timings ++ m ∷ [] } })
    write_step w (WriterEvent.meta m) =
        finish false (record w { buffers = record w.buffers { metas = w.buffers.metas ++ m ∷ [] } })
    write_step w (WriterEvent.mapping m) = finish false (record w {
      buffers = record w.buffers { hash_mappings = w.buffers.hash_mappings ++ m ∷ [] };
    })

    unfoldable pub run_writer : Writer f → List (WriterEvent f) → Result (Writer f) WriterEnd
    run_writer w [] = ok w
    run_writer w (e ∷ es) = do next ← write_step w e; run_writer next es
