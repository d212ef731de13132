-- ===== src/Archive/Decode.antt =====
-- gossip_archiver/src/lib.rs: `decode_msg`, with the parsers of its fields.
pub mod Numbers
pub mod Report
pub mod Printed
use gossip_observer.Archive.Records.{Feed, ExportedGossip}
use gossip_observer.Prelude.{
  ℕ, ◌+◌, ◌-◌, ◌*◌, ◌^◌, ◌≡◌, ◌≢◌, refl, ap, ◌∙◌, true, false, ◌&&◌, List, [], ◌∷◌, Option, none,
  some, Result, ok, err, ◌>>=◌, ok_or, if◌then◌else◌, leb, ltb, All, length, ite,
}
use gossip_observer.Prelude.Split.{split_on, join, FreeOf, split_on-join}
use gossip_observer.Prelude.Text.{Text, codes, Text-discrete}

pub data DecodeError : Type 0 where
  wrong_parts invalid_timestamp invalid_type invalid_direction invalid_number : DecodeError

-- `INTRA_MSG_DELIM`, a comma.
abbrev pub intra_delim : ℕ
intra_delim = 44

pub data MessageType : Type 0 where
  unknown channel_announcement node_announcement channel_update ping pong : MessageType

unfoldable pub parse_type : Text → Result MessageType DecodeError
parse_type s = ite (Text-discrete s (codes "ca")) (ok MessageType.channel_announcement) (
    ite (Text-discrete s (codes "na")) (ok MessageType.node_announcement) (
      ite (Text-discrete s (codes "cu")) (ok MessageType.channel_update) (
        ite (Text-discrete s (codes "ping")) (ok MessageType.ping) (
          ite (Text-discrete s (codes "pong")) (ok MessageType.pong)
            (err DecodeError.invalid_type)))))

-- `as u8` on the enum.
abbrev pub type_code : MessageType → ℕ
type_code MessageType.unknown = 0
type_code MessageType.channel_announcement = 1
type_code MessageType.node_announcement = 2
type_code MessageType.channel_update = 3
type_code MessageType.ping = 4
type_code MessageType.pong = 5

unfoldable pub parse_digits : ℕ → Text → Option ℕ
parse_digits acc [] = some acc
parse_digits acc (c ∷ s) = elim (leb 48 c && leb c 57) [
  | true ↦ parse_digits (acc * 10 + (c - 48)) s
  | false ↦ none
]

abbrev pub drop_plus : Text → Text
drop_plus [] = []
drop_plus (c ∷ s) = elim (Text-discrete (c ∷ []) (codes "+")) [ yes _ ↦ s | no _ ↦ c ∷ s ]

abbrev pub bounded : ℕ → Option ℕ → Option ℕ
bounded w none = none
bounded w (some n) = if ltb n (2 ^ w) then some n else none

-- `str::parse` into an unsigned integer of `w` bits: digits after an optional plus sign.
unfoldable pub parse_unsigned : ℕ → Text → Option ℕ
parse_unsigned w s = elim (drop_plus s) [ [] ↦ none | c ∷ t ↦ bounded w (parse_digits 0 (c ∷ t)) ]

abbrev pub optional :
    {A : Type 0} → (Text → Result A DecodeError) → Text → Result (Option A) DecodeError
optional parse [] = ok none
optional parse (c ∷ s) = do a ← parse (c ∷ s); ok (some a)

module _ (f : Feed) where
  abbrev pub micros : Text → Result f.DateTime DecodeError
  micros s = ok_or (f.parse_micros s) DecodeError.invalid_timestamp

  abbrev pub number : ℕ → Text → Result ℕ DecodeError
  number w s = ok_or (parse_unsigned w s) DecodeError.invalid_number

  -- The fields in their order.
  unfoldable pub decode_parts : List Text → Result (ExportedGossip f) DecodeError
  decode_parts
        (now ∷ peer ∷ kind ∷ dir ∷ size ∷ inner ∷ msg ∷ sent ∷ node ∷ scid ∷ collector ∷ []) =
      do
        net_timestamp ← micros now
        msg_type ← parse_type kind
        msg_dir ← ok_or (f.parse_direction dir) DecodeError.invalid_direction
        msg_size ← number 16 size
        inner_hash ← number 64 inner
        orig_timestamp ← optional micros sent
        orig_node ← optional ok node
        channel ← optional (number 64) scid
        ok (record {
          net_timestamp = net_timestamp;
          orig_timestamp = orig_timestamp;
          collector = collector;
          peer = peer;
          peer_hash = f.xxh3 peer;
          orig_node = orig_node;
          msg_type = type_code msg_type;
          msg_dir = msg_dir;
          msg_size = msg_size;
          scid = channel;
          msg = msg;
          msg_hash = f.xxh3 msg;
          inner_hash = inner_hash;
        })
  decode_parts _ = err DecodeError.wrong_parts

  unfoldable pub decode_msg : Text → Result (ExportedGossip f) DecodeError
  decode_msg msg = decode_parts (split_on intra_delim msg)

  decode_parts_wrong :
      (parts : List Text) → length parts ≢ 11 → decode_parts parts ≡ err DecodeError.wrong_parts
  unfolding decode_parts
  decode_parts_wrong [] h = refl
  decode_parts_wrong (_ ∷ []) h = refl
  decode_parts_wrong (_ ∷ _ ∷ []) h = refl
  decode_parts_wrong (_ ∷ _ ∷ _ ∷ []) h = refl
  decode_parts_wrong (_ ∷ _ ∷ _ ∷ _ ∷ []) h = refl
  decode_parts_wrong (_ ∷ _ ∷ _ ∷ _ ∷ _ ∷ []) h = refl
  decode_parts_wrong (_ ∷ _ ∷ _ ∷ _ ∷ _ ∷ _ ∷ []) h = refl
  decode_parts_wrong (_ ∷ _ ∷ _ ∷ _ ∷ _ ∷ _ ∷ _ ∷ []) h = refl
  decode_parts_wrong (_ ∷ _ ∷ _ ∷ _ ∷ _ ∷ _ ∷ _ ∷ _ ∷ []) h = refl
  decode_parts_wrong (_ ∷ _ ∷ _ ∷ _ ∷ _ ∷ _ ∷ _ ∷ _ ∷ _ ∷ []) h = refl
  decode_parts_wrong (_ ∷ _ ∷ _ ∷ _ ∷ _ ∷ _ ∷ _ ∷ _ ∷ _ ∷ _ ∷ []) h = refl
  decode_parts_wrong (_ ∷ _ ∷ _ ∷ _ ∷ _ ∷ _ ∷ _ ∷ _ ∷ _ ∷ _ ∷ _ ∷ []) h = absurd (h refl)
  decode_parts_wrong (_ ∷ _ ∷ _ ∷ _ ∷ _ ∷ _ ∷ _ ∷ _ ∷ _ ∷ _ ∷ _ ∷ _ ∷ _) h = refl

  -- Parts without commas that are not eleven are refused, however they were spelled.
  pub decode_msg-wrong_parts :
      (part : Text) (parts : List Text)
      → All (FreeOf intra_delim) (part ∷ parts)
      → length (part ∷ parts) ≢ 11
      → decode_msg (join intra_delim (part ∷ parts)) ≡ err DecodeError.wrong_parts
  unfolding decode_msg
  decode_msg-wrong_parts part parts free h =
      ap decode_parts (split_on-join intra_delim part parts free)
      ∙ decode_parts_wrong (part ∷ parts) h
