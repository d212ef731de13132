-- ===== src/Tests/Archiver.antt =====
-- Concrete messages, payloads and event sequences of the archiver.
use gossip_observer.Archive.Decode.{
  DecodeError, intra_delim, decode_msg, decode_msg-wrong_parts, parse_unsigned, parse_digits,
}
use gossip_observer.Archive.Decode.Numbers.{
  print_number, digits-cons, print_number-FreeOf, parse_digits-digits, parse_unsigned-print_number,
}
use gossip_observer.Archive.Decode.Printed.{decode_msg-print_report}
use gossip_observer.Archive.Decode.Report.{Printer, Report, print_report, scid_fits, archived}
use gossip_observer.Archive.Decoder.{
  Batch, DecoderEnd, msg_decoder, inter_delim, IsGood, msg_decoder_bad, is_whole, can_cut,
}
use gossip_observer.Archive.Records.{Feed, ExportedGossip, split_exported_gossip}
use gossip_observer.Archive.Insert.{Query, queries, db_batch_write}
use gossip_observer.Archive.Insert.Written.{IsExecuted, rows, db_batch_write_lem}
use gossip_observer.Archive.Ticker.{Ticker, TickerEvent, run_ticker}
use gossip_observer.Archive.Ticker as Ticking
use gossip_observer.Archive.Ticker.Flushes.{IsTimely, without_flush, entries, run_ticker-IsTimely}
use gossip_observer.Archive.Ticker.Flushes as Flushes
use gossip_observer.Archive.Writer.{Buffers, Writer, WriterEvent, empty_buffers, run_writer}
use gossip_observer.Archive.Writer as Writing
use gossip_observer.Archive.Writer.Batches.{IsHeld, received, run_writer-IsHeld}
use gossip_observer.Archive.Writer.Batches as Batches
use gossip_observer.Prelude.{
  Bool, true, ◌↔◌, All, Result, ℕ, ◌≡◌, ◌<◌, refl, List, [], ◌∷◌, none, some, ok, err, length,
  arith, if◌then◌else◌, false, ◌++◌, ◌+◌, ◌^◌, ◌&&◌, ltb, inl, inr,
}
use gossip_observer.Prelude.Split.{split_on, join}
use gossip_observer.Prelude.Text.{Text, codes, Text-discrete}
use mathlib.Core.List.Permᴰ
use mathlib.Core.Option.{none-ne-some}

abbrev pub feed : Feed
feed = record {
  DateTime = ℕ;
  parse_micros = parse_digits 0;
  timestamp = λ t. t;
  parse_direction = λ s. parse_unsigned 8 s;
  xxh3 = λ s. length s;
}

abbrev pub gossip : ExportedGossip feed
gossip = record {
  net_timestamp = 51;
  orig_timestamp = none;
  collector = codes "col";
  peer = codes "pe";
  peer_hash = 2;
  orig_node = some (codes "nd");
  msg_type = 2;
  msg_dir = 1;
  msg_size = 300;
  scid = none;
  msg = codes "body";
  msg_hash = 4;
  inner_hash = 77;
}

abbrev parts : List Text
parts =
    codes "pe"
    ∷ codes "na"
    ∷ codes "1"
    ∷ codes "300"
    ∷ codes "77"
    ∷ codes "body"
    ∷ []
    ∷ codes "nd"
    ∷ []
    ∷ codes "col"
    ∷ []

abbrev pub text : Text
text = join intra_delim (codes "51" ∷ parts)

pub text_decoded : decode_msg feed text ≡ ok gossip
unfolding join decode_msg gossip_observer.Archive.Decode.decode_parts split_on parse_unsigned
    Text-discrete gossip_observer.Archive.Decode.parse_digits
    gossip_observer.Archive.Decode.parse_type
text_decoded = refl

bad_refused : decode_msg feed (codes "a,b") ≡ err DecodeError.wrong_parts
unfolding decode_msg gossip_observer.Archive.Decode.decode_parts split_on
bad_refused = refl

abbrev batch : Batch feed (λ _. true)
batch = record { first = (text, gossip); others = (text, gossip) ∷ [] }

abbrev direction_code : Bool → ℕ
direction_code false = 0
direction_code true = 1

direction_lem :
    (d : Bool) → feed.parse_direction (print_number (direction_code d)) ≡ some (direction_code d)
direction_lem false = parse_unsigned-print_number 8 0
direction_lem true = parse_unsigned-print_number 8 1

micros_cons : (t : ℕ) → (c : ℕ) × (s : Text) × (print_number t ≡ c ∷ s)
micros_cons t = let (d, s, e) = digits-cons t t [] in (48 + d, s, e)

micros_lem : (t : ℕ) → feed.parse_micros (print_number t) ≡ some t
unfolding parse_digits
micros_lem t = parse_digits-digits t t [] (omega arith)

abbrev printer : Printer feed
printer = record {
  Direction = Bool;
  code = direction_code;
  print_direction = λ d. print_number (direction_code d);
  parse-print_direction = direction_lem;
  direction-FreeOf = λ d. print_number-FreeOf (direction_code d);
  print_micros = print_number;
  parse-print_micros = micros_lem;
  micros-cons = micros_cons;
  micros-FreeOf = print_number-FreeOf;
}

abbrev report : Report feed printer
report = record {
  now = 51;
  peer = codes "pe";
  type_name = codes "na";
  type_number = 2;
  dir = true;
  size = 300;
  inner_hash = 77;
  msg = codes "body";
  sent = none;
  node = some (codes "nd");
  scid = some 12;
  collector = codes "col";
}

decode_msg-print_report_example : decode_msg feed (print_report feed printer report) ≡ (
    if ltb 300 (2 ^ 16) && ltb 77 (2 ^ 64) && scid_fits feed printer (some 12)
    then ok (archived feed printer report)
    else err DecodeError.invalid_number)
decode_msg-print_report_example =
    decode_msg-print_report feed printer report (inr (inl refl)) (λ e. cc)
      (ground arith, ground arith, ground arith, ground arith)

print_number_test : print_number 300 ≡ codes "300"
unfolding gossip_observer.Archive.Decode.Numbers.digits
print_number_test = refl

decode_msg-wrong_parts_example :
    decode_msg feed (join intra_delim (codes "a" ∷ codes "b" ∷ [])) ≡ err DecodeError.wrong_parts
decode_msg-wrong_parts_example =
    decode_msg-wrong_parts feed (codes "a") (codes "b" ∷ []) (ground arith) (ground arith)

abbrev pub yes : ExportedGossip feed → Bool
yes _ = true

batch-IsGood : IsGood feed yes batch
unfolding join
batch-IsGood = ((ground arith), ((text_decoded, refl), ((text_decoded, refl), tt)))

msg_decoder_bad_example :
    msg_decoder feed yes (some (join inter_delim (text ∷ codes "a,b" ∷ text ∷ [])) ∷ none ∷ []) ≡ (
      gossip ∷ [],
      if is_whole 100 (codes "a,b") [] then DecoderEnd.bad_message else DecoderEnd.panicked,
    )
unfolding join
msg_decoder_bad_example =
    msg_decoder_bad feed yes ((text, gossip) ∷ []) (codes "a,b") [] DecodeError.wrong_parts
      (text ∷ []) text (codes "a,b" ∷ text ∷ []) (none ∷ []) ((text_decoded, refl), tt) bad_refused
      (ground arith) refl (ground arith)

-- The byte 100 begins a character, or is inside one.
can_cut_test :
    (can_cut 3 (codes "ab" ++ 8364 ∷ codes "c") ≡ false)
    × (can_cut 5 (codes "ab" ++ 8364 ∷ codes "c") ≡ true)
    × (can_cut 9 (codes "ab" ++ 8364 ∷ codes "c") ≡ true)
unfolding can_cut
can_cut_test = (refl, refl, refl)

abbrev events : List (TickerEvent feed)
events =
    TickerEvent.received gossip
    ∷ TickerEvent.received gossip
    ∷ TickerEvent.flush_tick
    ∷ TickerEvent.stats_tick
    ∷ TickerEvent.received gossip
    ∷ []

run_ticker-IsTimely_example :
    (last : Ticker feed) × (run_ticker feed
        (Flushes.always feed)
        1
        (Ticking.start feed (Flushes.always feed) 1)
        events
      ≡ ok last)
    × IsTimely feed 1 (omega arith) last
    × (without_flush feed last.out ≡ entries feed [] events)
run_ticker-IsTimely_example =
    run_ticker-IsTimely feed 1 (omega arith) events (tt, (tt, (tt, (tt, (tt, tt)))))

abbrev arrivals : List (WriterEvent feed)
arrivals =
    WriterEvent.raw (split_exported_gossip feed gossip).0
    ∷ WriterEvent.timing (split_exported_gossip feed gossip).1
    ∷ WriterEvent.timing (split_exported_gossip feed gossip).1
    ∷ WriterEvent.tick
    ∷ WriterEvent.meta (split_exported_gossip feed gossip).2
    ∷ []

run_writer-IsHeld_example :
    (last : Writer feed) × (run_writer feed
        (Batches.always feed)
        2
        (Writing.start feed (Batches.always feed) 2)
        arrivals
      ≡ ok last)
    × IsHeld feed (received feed (empty_buffers feed) arrivals) last
    × (length last.buffers.timings < 2)
run_writer-IsHeld_example =
    run_writer-IsHeld feed 2 (omega arith) arrivals (tt, (tt, (tt, (tt, (tt, tt)))))

abbrev buffers : Buffers feed
buffers = record {
  raws = (split_exported_gossip feed gossip).0 ∷ [];
  timings = (split_exported_gossip feed gossip).1 ∷ (split_exported_gossip feed gossip).1 ∷ [];
  metas = (split_exported_gossip feed gossip).2 ∷ [];
  hash_mappings = [];
}

abbrev succeed : Query feed → Result (Unit {0}) Text
succeed q = ok tt

db_batch_write_lem_example :
    ((db_batch_write feed succeed (λ qs. qs) buffers ≡ ok tt)
      ↔ All (IsExecuted feed succeed) (queries feed buffers))
    × (rows feed (queries feed buffers) ≡ buffers)
unfolding split_exported_gossip
db_batch_write_lem_example =
    db_batch_write_lem feed succeed (λ qs. qs) (λ qs. Permᴰ.refl qs) buffers
      (record {
        raws = (omega arith, tt);
        timings = (
          (omega arith, omega arith, omega arith),
          ((omega arith, omega arith, omega arith), tt),
        );
        metas = ((omega arith, omega arith, (λ n e. absurd (none-ne-some n e))), tt);
        mappings = tt;
      })
