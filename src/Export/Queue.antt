-- ===== src/Export/Queue.antt =====
-- `queue_exported_msg`.
use gossip_observer.Archive.Decode.{intra_delim}
use gossip_observer.Prelude.{
  append_assoc, ◌≡◌, refl, ap, ◌∙◌, Bool, true, false, List, [], ◌∷◌, ◌++◌, Option, none, some,
}
use gossip_observer.Prelude.Map.{contains}
use gossip_observer.Prelude.Split.{split_on, split_on-append, FreeOf}
use gossip_observer.Prelude.Text.{Text, Text-discrete}

-- What wakes the loop: a stop, a new filter on the watch channel, a message (`none`: the channel is
-- closed).
pub data QueueEvent : Type 0 where
  stop : QueueEvent
  changed : List Text → QueueEvent
  rx_msg : Option Text → QueueEvent

pub data QueueEnd : Type 0 where
  stopped chan_closed format_broken send_error : QueueEnd

-- `split(INTRA_MSG_DELIM).nth(1)`.
abbrev pub second : List Text → Option Text
second (_ ∷ peer ∷ _) = some peer
second _ = none

-- A message is dropped if its peer is filtered, and otherwise sent if a place is reserved for it.
abbrev pub pass :
    Bool → Option QueueEnd → Text → List Text × Option QueueEnd → List Text × Option QueueEnd
pass true reserved msg rest = rest
pass false none msg (sent, end) = (msg ∷ sent, end)
pass false (some e) msg rest = ([], some e)

-- `msg_suffix` is added to each message. `reserve` is `none` when a place for the message is reserved,
-- or why it is not: the stop signal came first, or the receiver is gone.
module _ (msg_suffix : Text) (reserve : Text → Option QueueEnd) where
  -- What is sent, and why the loop ended, if it did.
  unfoldable pub queue_exported_msg : List Text → List QueueEvent → List Text × Option QueueEnd
  queue_exported_msg rules [] = ([], none)
  queue_exported_msg rules (QueueEvent.stop ∷ _) = ([], some QueueEnd.stopped)
  queue_exported_msg rules (QueueEvent.changed rules' ∷ es) = queue_exported_msg rules' es
  queue_exported_msg rules (QueueEvent.rx_msg none ∷ _) = ([], some QueueEnd.chan_closed)
  queue_exported_msg rules (QueueEvent.rx_msg (some m) ∷ es) =
      let msg = m ++ msg_suffix in
      let rest = queue_exported_msg rules es in
      elim (second (split_on intra_delim msg)) [
        | none ↦ ([], some QueueEnd.format_broken)
        | some recv_peer ↦ pass (contains Text-discrete recv_peer rules) (reserve msg) msg rest
      ]

-- A gossip message as the node exports it: a time, the peer it came from, and more fields.
pub record Exported : Type 0 where
  pub now : Text
  pub peer : Text
  pub fields : Text

abbrev pub text_of : Exported → Text
text_of g = g.now ++ (intra_delim ∷ (g.peer ++ (intra_delim ∷ g.fields)))

-- The time and the peer hold no comma.
abbrev pub IsSpelled : Exported → Type 0
IsSpelled g = FreeOf intra_delim g.now × FreeOf intra_delim g.peer

-- New filters and messages, in the order in which the loop sees them.
pub data Seen : Type 0 where
  filter_changed : List Text → Seen
  gossip : Exported → Seen

abbrev pub events : List Seen → List QueueEvent
events [] = []
events (Seen.filter_changed rules ∷ ss) = QueueEvent.changed rules ∷ events ss
events (Seen.gossip g ∷ ss) = QueueEvent.rx_msg (some (text_of g)) ∷ events ss

abbrev pub AreSpelled : List Seen → Type 0
AreSpelled [] = Unit
AreSpelled (Seen.filter_changed rules ∷ ss) = AreSpelled ss
AreSpelled (Seen.gossip g ∷ ss) = IsSpelled g × AreSpelled ss

second_peer :
    (g : Exported) (suffix : Text)
    → IsSpelled g
    → second (split_on intra_delim (text_of g ++ suffix)) ≡ some g.peer
second_peer g suffix (h, k) =
    ap (λ t. second (split_on intra_delim t))
      (append_assoc g.now (intra_delim ∷ (g.peer ++ (intra_delim ∷ g.fields))) suffix
        ∙ ap (λ t. g.now ++ (intra_delim ∷ t))
            (append_assoc g.peer (intra_delim ∷ g.fields) suffix))
    ∙ ap second (split_on-append intra_delim g.now _ h)
    ∙ ap (λ ts. second (g.now ∷ ts)) (split_on-append intra_delim g.peer (g.fields ++ suffix) k)

abbrev pub unless : Bool → Text → List Text → List Text
unless true t ts = ts
unless false t ts = t ∷ ts

pass_reserved :
    (b : Bool) (a : Option QueueEnd) (t : Text) (ts : List Text)
    → a ≡ none
    → pass b a t (ts, none) ≡ (unless b t ts, none)
pass_reserved true a t ts e = refl
pass_reserved false a t ts e = rw e refl

module _ (msg_suffix : Text) (reserve : Text → Option QueueEnd)
    (reserved : (t : Text) → reserve t ≡ none) where
  -- The specification: the messages whose peer is not in the latest filter, with the suffix.
  abbrev pub forwarded : List Text → List Seen → List Text
  forwarded rules [] = []
  forwarded rules (Seen.filter_changed rules' ∷ ss) = forwarded rules' ss
  forwarded rules (Seen.gossip g ∷ ss) =
      unless (contains Text-discrete g.peer rules) (text_of g ++ msg_suffix) (forwarded rules ss)

  pub queue_exported_msg_lem :
      (rules : List Text) (ss : List Seen)
      → AreSpelled ss
      → queue_exported_msg msg_suffix reserve rules (events ss) ≡ (forwarded rules ss, none)
  unfolding queue_exported_msg
  queue_exported_msg_lem rules [] h = refl
  queue_exported_msg_lem rules (Seen.filter_changed rules' ∷ ss) h =
      queue_exported_msg_lem rules' ss h
  queue_exported_msg_lem rules (Seen.gossip g ∷ ss) (h, hs) =
      let msg = text_of g ++ msg_suffix in
      let filtered = contains Text-discrete g.peer rules in
      rw (second_peer g msg_suffix h, queue_exported_msg)
        (ap (pass filtered (reserve msg) msg) (queue_exported_msg_lem rules ss hs)
          ∙ pass_reserved filtered (reserve msg) msg (forwarded rules ss) (reserved msg))
