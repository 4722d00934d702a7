-- ===== src/Audit/Sessions.antt =====
-- The audit log of internal/audit/hashchain.go over its life: calls of Log with faults of the
-- file, and restarts of the process.
use agent_transponder.Prelude.{
  String, ◌≡◌, ◌≢◌, Bool, true, false, Option, none, some, List, [], ◌∷◌, leb, All,
}
use agent_transponder.Prelude.Int.{ℤ, pos, inc64}
use agent_transponder.Types.Event.{Time}
use agent_transponder.Audit.Entry.{Line, Entry, Hashing}
use agent_transponder.Audit.Sink.{
  HashChainSink, genesis_hash, max_line, Fault, marshal_fails, write_fails, flush_fails,
  new_hash_chain_sink, link, line_of, log,
}
use agent_transponder.Audit.Chain.{Chain}

-- One thing that happens to the log: an entry is logged, or the process starts anew on its file.
pub data Step : Type 0 where
  logged : Fault → Time → Entry → Step
  restarted : Step

-- The sink on a file that does not exist yet.
abbrev pub fresh : HashChainSink
fresh = record { file = []; previous_hash = genesis_hash; seq = pos 0; writer_failed = false }

module _ (hashing : Hashing) where
  -- A restart that cannot resume the log ends the life of the sink.
  pub perform : Step → HashChainSink → Option HashChainSink
  perform (logged fault now entry) s = some (log hashing fault now entry s).0
  perform restarted s = new_hash_chain_sink s.file

  pub run : List Step → HashChainSink → Option HashChainSink
  run [] s = some s
  run (step ∷ steps) s = elim (perform step s) [ none ↦ none | some s' ↦ run steps s' ]

  -- A write that fails leaves no part of its line.
  abbrev pub leaves_nothing : Fault → Bool
  leaves_nothing (write_fails (some part)) = false
  leaves_nothing (flush_fails (some part)) = false
  leaves_nothing fault = true

  -- The lines of the file stay below the scanner's bound, entries can be encoded, and no line is torn.
  abbrev pub IsOrdinary : Step → Type 0
  IsOrdinary (logged fault now entry) =
      (fault ≢ marshal_fails)
      × (leaves_nothing fault ≡ true)
      × ((s : HashChainSink) → leb max_line (hashing.json_size (link hashing now s entry)) ≡ false)
  IsOrdinary restarted = Unit

  -- The file is a chain, and a sink that can still write stands at its head.
  pub record IsSound (s : HashChainSink) : Type 0 where
    pub head : String
    pub last : ℤ
    pub chain : Chain hashing genesis_hash (pos 0) s.file head last
    pub whole : All (λ (l : Line). l.terminated ≡ true) s.file
    pub at_head : s.writer_failed ≡ false → (s.previous_hash ≡ head) × (s.seq ≡ last)

  module _ (now : Time) (entry : Entry) (s : HashChainSink) (i : IsSound s) where
    -- The line that Log writes, and the state that it moves to before it writes.
    abbrev linked : Entry
    linked = link hashing now s entry

    abbrev moved : HashChainSink
    moved = record s { seq = inc64 s.seq; previous_hash = linked.entry_hash }

    abbrev line : Line
    line = line_of hashing linked
