-- ===== src/Audit/Sink.antt =====
-- internal/audit/hashchain.go: HashChainSink, its file, and `Verify`. The file is the list of its
-- lines as a scanner reads them: the last one may lack its newline, after a write that has failed.
-- The mutex makes each operation one step.
use agent_transponder.Prelude.{
  ℕ, suc, String, ◌==◌, Bool, true, false, Option, none, some, List, [], ◌∷◌, ◌&&◌, leb, add_line,
  if◌then◌else◌,
}
use agent_transponder.Prelude.Int.{ℤ, pos, negsuc, ltb_ℤ, inc64}
use agent_transponder.Types.Event.{Time, is_zero}
use agent_transponder.Audit.Entry.{Entry, Line, Hashing, compute_hash}

pub record HashChainSink : Type 0 where
  pub file : List Line
  pub previous_hash : String
  pub seq : ℤ
  -- bufio.Writer keeps its first error, and every later write returns it.
  pub writer_failed : Bool

abbrev pub genesis_hash : String
genesis_hash = "0000000000000000000000000000000000000000000000000000000000000000"

-- scanner.Buffer(…, 256*1024): a longer line ends the scan with an error.
abbrev pub max_line : ℕ
max_line = 262144

unfoldable pub too_long : Line → Bool
too_long line = leb max_line line.size

-- What the operating system and the encoder do to one call of Log. A write of the buffer, or of an
-- entry that is longer than the buffer, may fail after a part of the line is in the file.
pub data Fault : Type 0 where
  no_fault marshal_fails sync_fails : Fault
  write_fails flush_fails : Option Line → Fault

pub data LogError : Type 0 where
  marshal_entry write_entry flush_entry fsync : LogError

pub data VerifyError : Type 0 where
  corrupt_entry : ℤ → VerifyError
  scan_error cancelled : VerifyError

pub record Verdict : Type 0 where
  pub broken_at : ℤ
  pub error : Option VerifyError

abbrev pub intact : Verdict
intact = record { broken_at = negsuc 0; error = none }

abbrev pub broken : ℤ → Verdict
broken seq = record { broken_at = seq; error = none }

-- The loop of resumeChain over the lines: the last entry read, and whether the scan failed.
unfoldable pub last_entry : Option Entry → List Line → Option Entry × Bool
last_entry found [] = (found, false)
last_entry found (line ∷ lines) =
    let rest = last_entry (elim line.content [ none ↦ found | some entry ↦ some entry ]) lines in
    if too_long line then (found, true) else rest

pub resumed : List Line → Option Entry → HashChainSink
resumed file none = record {
  file = file;
  previous_hash = genesis_hash;
  seq = pos 0;
  writer_failed = false;
}
resumed file (some last) = record {
  file = file;
  previous_hash = last.entry_hash;
  seq = last.sequence_num;
  writer_failed = false;
}

-- `none`: the log cannot be resumed, and the sink is not made. A file that does not exist is empty.
unfoldable pub new_hash_chain_sink : List Line → Option HashChainSink
unfolding resumed
new_hash_chain_sink file =
    let (last, failed) = last_entry none file in if failed then none else some (resumed file last)

module _ (hashing : Hashing) where
  -- The entry as it is hashed and written.
  unfoldable pub link : Time → HashChainSink → Entry → Entry
  link now s entry =
      let linked = record entry {
        sequence_num = inc64 s.seq;
        previous_hash = s.previous_hash;
        timestamp = if is_zero entry.timestamp then now else entry.timestamp;
      } in
      record linked { entry_hash = compute_hash hashing linked }

  -- What the bytes of a line make of the file.
  unfoldable pub put_line : Line → HashChainSink → HashChainSink
  put_line line s = record s {
    file =
        add_line (λ (l : Line). l.terminated)
          (λ x y. record (hashing.glue x y) { terminated = y.terminated }) s.file line;
  }

  -- A failed write: the part of the line that it leaves.
  unfoldable pub fail_writer : Option Line → HashChainSink → HashChainSink
  fail_writer none s = record s { writer_failed = true }
  fail_writer (some part) s = record (put_line (record part { terminated = false }) s) {
    writer_failed = true;
  }

  abbrev pub line_of : Entry → Line
  line_of entry = record { content = some entry; size = hashing.json_size entry; terminated = true }

  -- The writes of Log, after the chain state has moved.
  unfoldable pub write : Fault → Entry → HashChainSink → HashChainSink × Option LogError
  write marshal_fails entry s = (s, some marshal_entry)
  write (write_fails part) entry s =
      if s.writer_failed then (s, some write_entry) else (fail_writer part s, some write_entry)
  write (flush_fails part) entry s =
      if s.writer_failed then (s, some write_entry) else (fail_writer part s, some flush_entry)
  write sync_fails entry s =
      if s.writer_failed then (s, some write_entry) else (put_line (line_of entry) s, some fsync)
  write no_fault entry s =
      if s.writer_failed then (s, some write_entry) else (put_line (line_of entry) s, none)

  unfoldable pub log : Fault → Time → Entry → HashChainSink → HashChainSink × Option LogError
  unfolding write
  log fault now entry s =
      let linked = link now s entry in
      write fault linked (record s { seq = inc64 s.seq; previous_hash = linked.entry_hash })

  -- The checks of Verify on one entry that is not skipped.
  unfoldable pub link_holds : String → Entry → Bool
  link_holds expected_prev entry =
      entry.previous_hash == expected_prev && entry.entry_hash == compute_hash hashing entry

  -- The loop of Verify. `done k` says whether the context is done at line k.
  unfoldable pub verify_loop : (ℕ → Bool) → ℤ → ℕ → String → ℤ → List Line → Verdict
  verify_loop done from k expected_prev last_seq [] = intact
  verify_loop done from k expected_prev last_seq (line ∷ lines) =
      let next = λ (entry : Entry).
        verify_loop done from (suc k) entry.entry_hash entry.sequence_num lines in
      if too_long line
      then record { broken_at = negsuc 0; error = some scan_error }
      else if done k
      then record { broken_at = negsuc 0; error = some cancelled }
      else elim line.content [
        | none ↦ record { broken_at = inc64 last_seq; error = some (corrupt_entry last_seq) }
        | some entry ↦
            if ltb_ℤ entry.sequence_num from
            then next entry
            else if link_holds expected_prev entry
            then next entry
            else broken entry.sequence_num
      ]

  unfoldable pub verify : (ℕ → Bool) → ℤ → List Line → Verdict
  verify done from file = verify_loop done from 0 genesis_hash (pos 0) file

  unfoldable pub latest_checkpoint : HashChainSink → String × ℤ
  latest_checkpoint s = (s.previous_hash, s.seq)
