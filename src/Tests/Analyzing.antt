-- ===== src/Tests/Analyzing.antt =====
-- The commands of the address tool on small inputs.
use gossip_observer.Analyze.Extract.{CommandEnd, nothing_sent, extract_addrs}
use gossip_observer.Analyze.Parsed.{to_reachable, to_unreachable, to_mystery}
use gossip_observer.Analyze.Sorted.{Node, info_of, entries, sorted, extract_addrs_sorted}
use gossip_observer.Analyze.Stable.{dump_wait, IsSettled, dump_wait_ends}
use gossip_observer.Analyze.Writer.{
  Output, info_writer, elements, Outcome, IsComplete, info_writer_lem,
}
use gossip_observer.Prelude.{
  ℕ, ◌+◌, ◌*◌, ◌≡◌, ◌≤◌, refl, [], ◌∷◌, ◌++◌, none, some, map, somes, length, ltb, if◌then◌else◌,
  arith, Result, ok, err,
}
use gossip_observer.Prelude.Text.{Text, codes}
use gossip_observer.Reach as Reachable
use gossip_observer.Tests.World.{world}

abbrev view : ℕ → Reachable.SocketAddress
view n = Reachable.SocketAddress.tcp_ip_v4 (record { a = n; b = 0; c = 0; d = 1 })

-- The address `y` is 121.0.0.1, a carriage return 13.0.0.1, a line feed the private 10.0.0.1.
abbrev first : Node world view
first = record {
  key = codes "K";
  pubkey = 75;
  parsed = refl;
  sockets = codes "y,\n,zz";
  updated_at = none;
}

abbrev second : Node world view
second = record { key = codes "L"; pubkey = 76; parsed = refl; sockets = []; updated_at = none }

extract_addrs_sorted_example :
    let es = entries world view (first ∷ second ∷ []) in
    (extract_addrs world view (map (info_of world view) (first ∷ second ∷ []))
      ≡ (sorted world view (nothing_sent world view) es, CommandEnd.finished))
    × (length (somes (map (λ e. to_reachable world view e.0 (world.parse_socket e.1)) es))
          + length (somes (map (λ e. to_unreachable world view e.0 (world.parse_socket e.1)) es))
          + length (somes (map (λ e. to_mystery world view e.0 e.1 (world.parse_socket e.1)) es))
        ≡ length es)
extract_addrs_sorted_example = extract_addrs_sorted world view first (second ∷ [])

-- Growth by 5000 nodes for each of the first three checks.
abbrev counts : ℕ → ℕ
counts n = if ltb n 3 then n * 5000 else 15000

counts_settled : (k : ℕ) → 3 ≤ k → counts k ≡ 15000
counts_settled k h = ground arith

dump_wait_ends_example :
    (i : ℕ) × (dump_wait counts (3 + 6) ≡ some i) × (i ≤ 3 + 5) × IsSettled counts i
dump_wait_ends_example = dump_wait_ends counts 3 15000 (omega arith) counts_settled

abbrev memory_flush : Text × Text → Result (Text × Text) ℕ
memory_flush file = ok (file.0, file.0)

-- A file of at most eight bytes, as what was written and what was flushed.
abbrev memory_write : Text × Text → Text → Result (Text × Text) ℕ
memory_write file t =
    if ltb (length (file.0 ++ t)) 9 then ok (file.0 ++ t, file.1) else err (length t)

write_lem :
    (file after : Text × Text) (t : Text) → memory_write file t ≡ ok after → after.0 ≡ file.0 ++ t
write_lem file after t e = ground arith

flush_lem :
    (file after : Text × Text)
    → memory_flush file ≡ ok after
    → (after.0 ≡ file.0) × (after.1 ≡ file.0)
flush_lem file after e = (ground arith, ground arith)

abbrev memory : Output
memory = record {
  File = Text × Text;
  IoError = ℕ;
  Value = Text;
  written = λ file. file.0;
  flushed = λ file. file.1;
  pretty = λ v. v;
  write_all = memory_write;
  to_writer_pretty = memory_write;
  flush = memory_flush;
  written-write_all = write_lem;
  written-to_writer_pretty = write_lem;
  written-flush = flush_lem;
}

info_writer_lem_example :
    let t =
      [] ++ (codes "[\n" ++ (elements memory (codes "1" ∷ codes "2" ∷ []) ++ codes "\n]\n")) in
    Outcome memory (IsComplete memory t) (info_writer memory ([], []) (codes "1" ∷ codes "2" ∷ []))
info_writer_lem_example = info_writer_lem memory ([], []) (codes "1" ∷ codes "2" ∷ [])

-- One value fits into the file, the end of a list of two does not.
info_writer_test :
    (info_writer memory ([], []) (codes "1" ∷ []) ≡ ok (codes "[\n1\n]\n", codes "[\n1\n]\n"))
    × (info_writer memory ([], []) (codes "1" ∷ codes "2" ∷ []) ≡ err 3)
unfolding info_writer gossip_observer.Analyze.Writer.write_values
info_writer_test = (refl, refl)
