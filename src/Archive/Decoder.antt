-- ===== src/Archive/Decoder.antt =====
-- gossip_archiver/src/main.rs: `msg_decoder`, which splits each NATS message and decodes its parts.
use gossip_observer.Archive.Decode.{DecodeError, decode_msg}
use gossip_observer.Archive.Records.{Feed, ExportedGossip}
use gossip_observer.Prelude.{
  Bool, true, false, ℕ, ◌≡◌, refl, ap, ◌∙◌, List, [], ◌∷◌, ◌++◌, Option, none, some, ok, err, All,
  append_assoc, append-nil, sym, ◌+◌, ◌-◌, ◌≤◌, ◌<◌, ◌==◌, ltb, if◌then◌else◌, arith,
}
use gossip_observer.Prelude.Split.{split_on, join, FreeOf, split_on-join}
use gossip_observer.Prelude.Text.{Text}

-- `INTER_MSG_DELIM`, a semicolon.
abbrev pub inter_delim : ℕ
inter_delim = 59

-- Why the task ended; while its channel is open it goes on.
pub data DecoderEnd : Type 0 where
  not_utf8 chan_closed send_error bad_message panicked : DecoderEnd

-- The bytes of a character in UTF-8.
abbrev pub utf8_len : ℕ → ℕ
utf8_len c = if ltb c 128 then 1 else if ltb c 2048 then 2 else if ltb c 65536 then 3 else 4

-- Whether a text can be cut after `left` bytes, or at its end if it is shorter. A slice of a text
-- that cuts a character panics.
unfoldable pub can_cut : ℕ → Text → Bool
can_cut left [] = true
can_cut left (c ∷ t) =
    let rest = can_cut (left - utf8_len c) t in
    if left == 0 then true else if ltb left (utf8_len c) then false else rest

-- The error of a message that is not decoded, after its first 100 bytes were logged. The log of
-- errors is not turned off.
abbrev pub log_bad_message : Text → DecoderEnd
log_bad_message raw_msg =
    if can_cut 100 raw_msg then DecoderEnd.bad_message else DecoderEnd.panicked

-- The bytes of a text.
abbrev pub utf8_bytes : Text → ℕ
utf8_bytes [] = 0
utf8_bytes (c ∷ t) = utf8_len c + utf8_bytes t

-- `start` is the longest beginning of at most `limit` bytes, before `rest`.
abbrev pub IsCut : ℕ → Text → Text → Type 0
IsCut limit start [] = utf8_bytes start ≤ limit
IsCut limit start (c ∷ rest) = (utf8_bytes start ≤ limit) × (limit < utf8_bytes start + utf8_len c)

-- The text ends there, or a character does.
abbrev pub is_whole : ℕ → Text → Text → Bool
is_whole limit start [] = true
is_whole limit start (c ∷ rest) = utf8_bytes start == limit

can_cut-IsCut :
    (limit : ℕ) (start rest : Text)
    → IsCut limit start rest
    → can_cut limit (start ++ rest) ≡ is_whole limit start rest
unfolding can_cut
can_cut-IsCut limit [] [] h = refl
can_cut-IsCut limit [] (c ∷ rest) (h, k) = ground arith
can_cut-IsCut limit (c ∷ start) [] h =
    ground (arith, can_cut-IsCut (limit - utf8_len c) start [] (omega (arith, h)))
can_cut-IsCut limit (c ∷ start) (d ∷ rest) (h, k) = ground (
  arith,
  can_cut-IsCut (limit - utf8_len c) start (d ∷ rest) (omega (arith, h), omega (arith, h, k)),
)

-- `accepts` says whether the receiver of what is sent on still exists.
module _ (f : Feed) (accepts : ExportedGossip f → Bool) where
  -- A record that is decoded is sent before the rest, or ends the task.
  abbrev pub sent_part :
      Bool
      → ExportedGossip f
      → List (ExportedGossip f) × Option DecoderEnd
      → List (ExportedGossip f) × Option DecoderEnd
  sent_part true g (gs, e) = (g ∷ gs, e)
  sent_part false g rest = ([], some DecoderEnd.send_error)

  -- The parts of one message: what is sent on, and what ends the task, if anything does.
  unfoldable pub send_parts : List Text → List (ExportedGossip f) × Option DecoderEnd
  send_parts [] = ([], none)
  send_parts (t ∷ ts) = elim (decode_msg f t) [
    | ok g ↦ sent_part (accepts g) g (send_parts ts)
    | err _ ↦ ([], some (log_bad_message t))
  ]

  -- An error ends the task before the later payloads.
  abbrev pub then_later :
      List (ExportedGossip f) × Option DecoderEnd
      → List (ExportedGossip f) × DecoderEnd
      → List (ExportedGossip f) × DecoderEnd
  then_later (gs, none) (later, end) = (gs ++ later, end)
  then_later (gs, some e) (later, end) = (gs, e)

  -- The payloads in the order of their receipt, `none` for one that is no UTF-8. When there are no
  -- more the channel is closed.
  unfoldable pub msg_decoder : List (Option Text) → List (ExportedGossip f) × DecoderEnd
  msg_decoder [] = ([], DecoderEnd.chan_closed)
  msg_decoder (none ∷ _) = ([], DecoderEnd.not_utf8)
  msg_decoder (some payload ∷ payloads) =
      then_later (send_parts (split_on inter_delim payload)) (msg_decoder payloads)

  -- Each text is decoded to the record beside it, which is accepted.
  abbrev pub Decodes : List (Text × ExportedGossip f) → Type 0
  Decodes = All (λ p. (decode_msg f p.0 ≡ ok p.1) × (accepts p.1 ≡ true))

  abbrev pub texts : List (Text × ExportedGossip f) → List Text
  texts [] = []
  texts ((t, g) ∷ ps) = t ∷ texts ps

  abbrev pub records : List (Text × ExportedGossip f) → List (ExportedGossip f)
  records [] = []
  records ((t, g) ∷ ps) = g ∷ records ps

  send_parts-append :
      (ps : List (Text × ExportedGossip f)) (ts : List Text)
      → Decodes ps
      → send_parts (texts ps ++ ts) ≡ (records ps ++ (send_parts ts).0, (send_parts ts).1)
  unfolding send_parts
  send_parts-append [] ts h = refl
  send_parts-append ((t, g) ∷ ps) ts ((h, k), hs) =
      rw (h, send_parts) (rw k (ap (sent_part true g) (send_parts-append ps ts hs)))

  -- One NATS message of the exporter: a batch that is not empty, joined.
  pub record Batch : Type 0 where
    pub first : Text × ExportedGossip f
    pub others : List (Text × ExportedGossip f)

  abbrev pub all : Batch → List (Text × ExportedGossip f)
  all b = b.first ∷ b.others

  abbrev pub payload : Batch → Option Text
  payload b = some (join inter_delim (texts (all b)))

  abbrev pub payloads : List Batch → List (Option Text)
  payloads [] = []
  payloads (b ∷ bs) = payload b ∷ payloads bs

  abbrev pub all_records : List Batch → List (ExportedGossip f)
  all_records [] = []
  all_records (b ∷ bs) = records (all b) ++ all_records bs

  -- A batch whose messages hold no semicolon, can be decoded, and are accepted.
  abbrev pub IsGood : Batch → Type 0
  IsGood b = All (FreeOf inter_delim) (texts (all b)) × Decodes (all b)

  send_parts_good :
      (b : Batch)
      → IsGood b
      → send_parts (split_on inter_delim (join inter_delim (texts (all b))))
        ≡ (records (all b), none)
  unfolding send_parts
  send_parts_good b (free, decodes) =
      ap send_parts (split_on-join inter_delim b.first.0 (texts b.others) free)
      ∙ ap send_parts (sym (append-nil (texts (all b))))
      ∙ send_parts-append (all b) [] decodes
      ∙ ap (λ l. (l, none)) (append-nil (records (all b)))

  -- The messages of good batches are all sent on, in order and nothing else, before what the rest
  -- of the payloads gives. The task goes on after them as if it had just started.
  pub msg_decoder-append :
      (bs : List Batch) (later : List (Option Text))
      → All IsGood bs
      → msg_decoder (payloads bs ++ later)
        ≡ (all_records bs ++ (msg_decoder later).0, (msg_decoder later).1)
  unfolding msg_decoder
  msg_decoder-append [] later h = refl
  msg_decoder-append (b ∷ bs) later (h, hs) =
      ap (λ sent. then_later sent (msg_decoder (payloads bs ++ later))) (send_parts_good b h)
      ∙ ap (then_later (records (all b), none)) (msg_decoder-append bs later hs)
      ∙ ap (λ l. (l, (msg_decoder later).1))
          (sym (append_assoc (records (all b)) (all_records bs) (msg_decoder later).0))

  send_parts_bad :
      (bad : Text) (e : DecodeError) (after : List Text)
      → decode_msg f bad ≡ err e
      → send_parts (bad ∷ after) ≡ ([], some (log_bad_message bad))
  unfolding send_parts
  send_parts_bad bad e after h = rw (h, send_parts) refl

  -- In a batch of messages without semicolons, if the messages before one are decoded and accepted
  -- and that one cannot be decoded, those before it are sent on and nothing after it is, neither of
  -- its batch nor of later payloads. The task ends with an error if that message has at most 100
  -- bytes or a character of it ends at the byte 100. Otherwise it panics, since its log cuts a
  -- character.
  pub msg_decoder_bad :
      (ps : List (Text × ExportedGossip f)) (start rest : Text) (e : DecodeError)
      (after : List Text) (first : Text) (others : List Text) (later : List (Option Text))
      → Decodes ps
      → decode_msg f (start ++ rest) ≡ err e
      → IsCut 100 start rest
      → texts ps ++ (start ++ rest) ∷ after ≡ first ∷ others
      → All (FreeOf inter_delim) (first ∷ others)
      → msg_decoder (some (join inter_delim (first ∷ others)) ∷ later) ≡ (
        records ps,
        if is_whole 100 start rest then DecoderEnd.bad_message else DecoderEnd.panicked,
      )
  unfolding msg_decoder send_parts
  msg_decoder_bad ps start rest e after first others later decodes h cut same free =
      let bad = start ++ rest in
      ap (λ sent. then_later sent (msg_decoder later))
        (ap send_parts (split_on-join inter_delim first others free ∙ sym same)
          ∙ send_parts-append ps (bad ∷ after) decodes
          ∙ ap (λ r. (records ps ++ r.0, r.1)) (send_parts_bad bad e after h))
      ∙ ap (λ l. (l, log_bad_message bad)) (append-nil (records ps))
      ∙ ap (λ b. (records ps, if b then DecoderEnd.bad_message else DecoderEnd.panicked))
          (can_cut-IsCut 100 start rest cut)
