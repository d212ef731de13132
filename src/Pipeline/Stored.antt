-- ===== src/Pipeline/Stored.antt =====
-- The way of gossip from a collector's exporter to the archiver's database.
use gossip_observer.Archive.Decoder.{msg_decoder}
use gossip_observer.Archive.Records.{Feed, ExportedGossip}
use gossip_observer.Archive.Stored.{IsDelivered, messages}
use gossip_observer.Archive.Ticker.{Ticker, TickerEvent, run_ticker}
use gossip_observer.Archive.Ticker as Ticking
use gossip_observer.Archive.Ticker.Flushes as Flushes
use gossip_observer.Archive.Writer.{Writer, WriterEvent, empty_buffers}
use gossip_observer.Archive.Writer as Writing
use gossip_observer.Archive.Writer.Batches.{received}
use gossip_observer.Archive.Writer.Batches as Batches
use gossip_observer.Export.Publish.{Publisher, PublishEvent, publish_msgs}
use gossip_observer.Export.Publish as Exporter
use gossip_observer.Export.Queue.{QueueEnd, Seen, events, queue_exported_msg}
use gossip_observer.Pipeline.{payloads}
use gossip_observer.Prelude.{ℕ, ◌<◌, ◌≡◌, Bool, List, [], Option, none, some, ok, All}
use gossip_observer.Prelude.Text.{Text}

module _ (f : Feed) (accepts : ExportedGossip f → Bool) (record_of : Text → ExportedGossip f)
    (publish : List (List Text) → Text → Option ℕ) (publish_size : ℕ)
    (publish_positive : 0 < publish_size)
    (acknowledged : (bs : List (List Text)) (t : Text) → (ms : ℕ) × (publish bs t ≡ some ms))
    (msg_suffix : Text) (reserve : Text → Option QueueEnd)
    (reserved : (t : Text) → reserve t ≡ none) (batch_size : ℕ) (positive : 0 < batch_size) where
  module _ (rules : List Text) (ss : List Seen) (es : List PublishEvent) (last : Publisher)
      (ts : List (TickerEvent f)) (t : Ticker f) (ws : List (WriterEvent f)) where
    -- The state of the publisher, the ticker and the events of all tasks, when no task is stopped and
    -- every channel keeps the order of what is sent on it.
    pub record IsRelayed : Type 0 where
      pub open_publisher : All (Exporter.IsOpen publish publish_size) es
      pub queued :
          Exporter.received publish publish_size es
          ≡ (queue_exported_msg msg_suffix reserve rules (events ss)).0
      pub published :
          publish_msgs publish publish_size (Exporter.start publish publish_size) es ≡ ok last
      pub open_ticker : All (Flushes.IsOpen f) ts
      pub decoded : messages f ts ≡ (msg_decoder f accepts (payloads last.published [])).0
      pub ticked :
          run_ticker f
            (Flushes.always f)
            batch_size
            (Ticking.start f (Flushes.always f) batch_size)
            ts
          ≡ ok t
      pub open_writer : All (Batches.IsOpen f) ws
      pub delivered : IsDelivered f t.out (received f (empty_buffers f) ws)
