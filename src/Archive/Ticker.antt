-- ===== src/Archive/Ticker.antt =====
-- gossip_archiver/src/main.rs: `db_write_ticker`, which splits each message into the four buffers and
-- signals a flush on a timer and after every full batch.
pub mod Flushes
use gossip_observer.Archive.Records.{
  Feed, ExportedGossip, RawMessage, MessageNodeTimings, MessageMetadata, MessageHashMapping, Split,
  split_exported_gossip,
}
use gossip_observer.Prelude.{
  ℕ, suc, ◌+◌, ◌≤◌, ◌<◌, ◌≡◌, refl, ap, sym, ◌∙◌, Bool, true, false, List, [], ◌∷◌, ◌++◌, Result,
  ok, err, ◌>>=◌, leb, if◌then◌else◌, map, length, arith, Bool-cases, inl, inr, leb→le,
}

-- What wakes the loop. `closed` is the end of the message channel.
pub data TickerEvent (f : Feed) : Type 0 where
  cancelled flush_tick stats_tick closed : TickerEvent f
  received : ExportedGossip f → TickerEvent f

pub data TickerEnd : Type 0 where
  stopped msg_chan_closed send_error : TickerEnd

-- What is sent, in order: a flush signal or a record into one of the four buffers.
pub data Sent (f : Feed) : Type 0 where
  flush : Sent f
  raw : RawMessage → Sent f
  timings : MessageNodeTimings f → Sent f
  meta : MessageMetadata → Sent f
  mapping : MessageHashMapping → Sent f

-- `out` is newest first.
pub record Ticker (f : Feed) : Type 0 where
  pub msg_counter : ℕ
  pub poll_counter : ℕ
  pub full_counter : ℕ
  pub out : List (Sent f)

-- `accepts` says whether the receiver of what is sent still exists.
module _ (f : Feed) (accepts : List (Sent f) → Sent f → Bool) (batch_size : ℕ) where
  abbrev pub start : Ticker f
  start = record { msg_counter = 0; poll_counter = 0; full_counter = 0; out = [] }

  abbrev pub send : Sent f → Ticker f → Result (Ticker f) TickerEnd
  send s t = if accepts t.out s then ok (record t { out = s ∷ t.out }) else err TickerEnd.send_error

  abbrev pub signal_flush : Ticker f → Result (Ticker f) TickerEnd
  signal_flush t = do sent ← send Sent.flush t; ok (record sent { msg_counter = 0 })

  -- A full batch is flushed before the next message is counted.
  abbrev pub flush_full : Ticker f → Result (Ticker f) TickerEnd
  flush_full t = elim (leb batch_size t.msg_counter) [
    | true ↦ do sent ← signal_flush t; ok (record sent { full_counter = suc sent.full_counter })
    | false ↦ ok t
  ]

  unfoldable pub tick : Ticker f → TickerEvent f → Result (Ticker f) TickerEnd
  tick t TickerEvent.cancelled = err TickerEnd.stopped
  tick t TickerEvent.closed = err TickerEnd.msg_chan_closed
  tick t TickerEvent.stats_tick = ok (record t { poll_counter = 0; full_counter = 0 })
  tick t TickerEvent.flush_tick = do
    sent ← signal_flush t
    ok (record sent { poll_counter = suc sent.poll_counter })
  tick t (TickerEvent.received m) = do
    ready ← flush_full t
    let counted = record ready { msg_counter = suc ready.msg_counter }
    let (msg_entry, timings_entry, meta_entry, hash_mapping) = split_exported_gossip f m
    a ← send (Sent.raw msg_entry) counted
    b ← send (Sent.timings timings_entry) a
    c ← send (Sent.meta meta_entry) b
    send (Sent.mapping hash_mapping) c

  unfoldable pub run_ticker : Ticker f → List (TickerEvent f) → Result (Ticker f) TickerEnd
  run_ticker t [] = ok t
  run_ticker t (e ∷ es) = do next ← tick t e; run_ticker next es
