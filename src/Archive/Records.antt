-- ===== src/Archive/Records.antt =====
-- gossip_archiver/src/lib.rs: the records, and the split of a decoded message into one per table.
use gossip_observer.Prelude.{ℕ, Option}
use gossip_observer.Prelude.Text.{Text}

-- What decoding takes from chrono, lightning and twox-hash: timestamps with their order, the parse
-- of microseconds, the parse of a direction into its `u8`, and the hash of a text.
pub record Feed : Type 1 where
  pub DateTime : Type 0
  pub parse_micros : Text → Option DateTime
  pub timestamp : DateTime → ℕ
  pub parse_direction : Text → Option ℕ
  pub xxh3 : Text → ℕ

pub record ExportedGossip (f : Feed) : Type 0 where
  pub net_timestamp : f.DateTime
  pub orig_timestamp : Option f.DateTime
  pub collector : Text
  pub peer : Text
  pub peer_hash : ℕ
  pub orig_node : Option Text
  pub msg_type : ℕ
  pub msg_dir : ℕ
  pub msg_size : ℕ
  pub scid : Option ℕ
  pub msg : Text
  pub msg_hash : ℕ
  pub inner_hash : ℕ

pub record RawMessage : Type 0 where
  pub msg_hash : ℕ
  pub msg : Text

pub record MessageNodeTimings (f : Feed) : Type 0 where
  pub msg_hash : ℕ
  pub inner_hash : ℕ
  pub collector : Text
  pub peer : Text
  pub peer_hash : ℕ
  pub dir : ℕ
  pub net_timestamp : f.DateTime
  pub orig_timestamp : Option f.DateTime

pub record MessageMetadata : Type 0 where
  pub msg_hash : ℕ
  pub inner_hash : ℕ
  pub msg_type : ℕ
  pub msg_size : ℕ
  pub orig_node : Option Text
  pub scid : Option ℕ

pub record MessageHashMapping : Type 0 where
  pub outer_hash : ℕ
  pub inner_hash : ℕ

abbrev pub Split : Feed → Type 0
Split f = RawMessage × MessageNodeTimings f × MessageMetadata × MessageHashMapping

unfoldable pub split_exported_gossip : (f : Feed) → ExportedGossip f → Split f
split_exported_gossip f m = (
  record { msg_hash = m.msg_hash; msg = m.msg },
  record {
    msg_hash = m.msg_hash;
    inner_hash = m.inner_hash;
    collector = m.collector;
    peer = m.peer;
    peer_hash = m.peer_hash;
    dir = m.msg_dir;
    net_timestamp = m.net_timestamp;
    orig_timestamp = m.orig_timestamp;
  },
  record {
    msg_hash = m.msg_hash;
    inner_hash = m.inner_hash;
    msg_type = m.msg_type;
    msg_size = m.msg_size;
    orig_node = m.orig_node;
    scid = m.scid;
  },
  record { outer_hash = m.msg_hash; inner_hash = m.inner_hash },
)
