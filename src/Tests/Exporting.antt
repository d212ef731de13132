-- ===== src/Tests/Exporting.antt =====
-- The exporter's tasks on a few events.
use gossip_observer.Export.Publish.{PublishEvent}
use gossip_observer.Export.Publish as Publishing
use gossip_observer.Export.Queue.{QueueEnd, Seen}
use gossip_observer.Prelude.{ℕ, List, [], ◌∷◌, Option, none, some}
use gossip_observer.Prelude.Text.{Text, codes}

abbrev seen : List Seen
seen =
    Seen.gossip (record { now = codes "1"; peer = codes "p"; fields = codes "na" })
    ∷ Seen.filter_changed (codes "p" ∷ [])
    ∷ Seen.gossip (record { now = codes "2"; peer = codes "p"; fields = codes "na" })
    ∷ Seen.gossip (record { now = codes "3"; peer = codes "q"; fields = codes "cu" })
    ∷ []

abbrev pub yes : Text → Option QueueEnd
yes _ = none

abbrev pub ack : List (List Text) → Text → Option ℕ
ack bs t = some 7

abbrev arrivals : List PublishEvent
arrivals =
    PublishEvent.rx_msg (some (codes "a"))
    ∷ PublishEvent.stats_tick
    ∷ PublishEvent.rx_msg (some (codes "b"))
    ∷ PublishEvent.stats_tick
    ∷ PublishEvent.rx_msg (some (codes "c"))
    ∷ []
