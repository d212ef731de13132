-- ===== src/Tests/Relaying.antt =====
-- A message from a collector's exporter to the archiver's records.
use gossip_observer.Archive.Decoder.{DecoderEnd}
use gossip_observer.Archive.Records.{ExportedGossip, split_exported_gossip}
use gossip_observer.Archive.Ticker.{Ticker, TickerEvent, Sent}
use gossip_observer.Archive.Ticker.Flushes as Flushes
use gossip_observer.Archive.Writer.{Writer, WriterEvent}
use gossip_observer.Archive.Writer as Writing
use gossip_observer.Archive.Writer.Batches as Batches
use gossip_observer.Export.Publish.{Publisher, PublishEvent}
use gossip_observer.Export.Publish as Publishing
use gossip_observer.Export.Queue.{Exported, Seen}
use gossip_observer.Prelude.{some, ℕ, Bool, true, ◌<◌, List, [], ◌∷◌, length}
use gossip_observer.Prelude.Text.{Text, codes}
use gossip_observer.Tests.Archiver.{feed, gossip, text}
use gossip_observer.Tests.Exporting as Exporting

abbrev message : Exported
message = record { now = codes "51"; peer = codes "pe"; fields = codes "na,1,300,77,body,,nd," }

abbrev seen : List Seen
seen =
    Seen.gossip message
    ∷ Seen.filter_changed (codes "pe" ∷ [])
    ∷ Seen.gossip message
    ∷ Seen.filter_changed []
    ∷ Seen.gossip message
    ∷ Seen.gossip message
    ∷ []

abbrev arrivals : List PublishEvent
arrivals =
    PublishEvent.rx_msg (some text)
    ∷ PublishEvent.stats_tick
    ∷ PublishEvent.rx_msg (some text)
    ∷ PublishEvent.rx_msg (some text)
    ∷ []

abbrev record_of : Text → ExportedGossip feed
record_of t = gossip

abbrev last : Publisher
last = record {
  msg_batch = text ∷ [];
  total_upload_time = 7;
  upload_count = 1;
  published = (text ∷ text ∷ []) ∷ [];
  logged = [];
}

abbrev received_events : List (TickerEvent feed)
received_events =
    TickerEvent.received gossip ∷ TickerEvent.flush_tick ∷ TickerEvent.received gossip ∷ []

abbrev ticker : Ticker feed
ticker = record {
  msg_counter = 1;
  poll_counter = 1;
  full_counter = 0;
  out = Flushes.entries_of feed gossip (Sent.flush ∷ Flushes.entries_of feed gossip []);
}

abbrev stored_events : List (WriterEvent feed)
stored_events =
    WriterEvent.raw (split_exported_gossip feed gossip).0
    ∷ WriterEvent.raw (split_exported_gossip feed gossip).0
    ∷ WriterEvent.tick
    ∷ WriterEvent.timing (split_exported_gossip feed gossip).1
    ∷ WriterEvent.meta (split_exported_gossip feed gossip).2
    ∷ WriterEvent.timing (split_exported_gossip feed gossip).1
    ∷ WriterEvent.mapping (split_exported_gossip feed gossip).3
    ∷ WriterEvent.meta (split_exported_gossip feed gossip).2
    ∷ WriterEvent.mapping (split_exported_gossip feed gossip).3
    ∷ []
