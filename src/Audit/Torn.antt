-- ===== src/Audit/Torn.antt =====
-- internal/audit/hashchain.go after a flush that fails with a part of a line in the file.
use agent_transponder.Prelude.{
  ◌≡◌, refl, sym, subst, false, none, some, Option, List, [], ◌∷◌, ◌++◌, ℕ, suc, String, if_ind,
  add_line-ended, add_line-torn, arith,
}
use agent_transponder.Prelude.Int.{ℤ, pos, inc64}
use agent_transponder.Types.Event.{Time}
use agent_transponder.Audit.Entry.{Entry, Line, Hashing}
use agent_transponder.Audit.Sink.{
  HashChainSink, LogError, genesis_hash, too_long, no_fault, flush_fails, Verdict, corrupt_entry,
  last_entry, new_hash_chain_sink, link, put_line, fail_writer, line_of, write, log, verify_loop,
  verify,
}
use agent_transponder.Audit.Chain.{background, Chain, last_entry-Chain, link_holds-Linked}
use agent_transponder.Audit.Sessions.{IsSound}

-- A line that no entry is read from does not change what the sink resumes from.
last_entry-unreadable :
    (found : Option Entry) (lines : List Line) (line : Line)
    → line.content ≡ none
    → too_long line ≡ false
    → last_entry found (lines ++ line ∷ []) ≡ last_entry found lines
unfolding last_entry
last_entry-unreadable found [] line h k = ground (arith, h, k)
last_entry-unreadable found (x ∷ lines) line h k = ground (
  arith,
  last_entry-unreadable (elim x.content [ none ↦ found | some entry ↦ some entry ]) lines line h k,
)

module _ (hashing : Hashing) where
  -- The two lines in one, with the newline of the second.
  abbrev pub glued : Line → Line → Line
  glued x y = record (hashing.glue x y) { terminated = y.terminated }

  abbrev pub corrupt : ℤ → Verdict
  corrupt last = record { broken_at = inc64 last; error = some (corrupt_entry last) }

  unreadable_loop :
      (from : ℤ) (k : ℕ) (prev : String) (seq : ℤ) (before : List Line) (head : String) (last : ℤ)
      (line : Line)
      → Chain hashing prev seq before head last
      → line.content ≡ none
      → too_long line ≡ false
      → verify_loop hashing background from k prev seq (before ++ line ∷ []) ≡ corrupt last
  unfolding verify_loop
  unreadable_loop from k prev seq [] head last line c h fits =
      subst (λ n. verify_loop hashing background from k prev seq (line ∷ []) ≡ corrupt n) c.1
        (ground (arith, h, fits))
  unreadable_loop from k prev seq (x ∷ before) head last line (d, l, c) h fits = ground (
    arith,
    link_holds-Linked hashing prev seq x d l,
    unreadable_loop from (suc k) d.entry_hash d.sequence_num before head last line c h fits,
  )

  -- The sink that resumes from a chain with an unreadable line behind it.
  abbrev resumed_at : List Line → String → ℤ → HashChainSink
  resumed_at file head last = record {
    file = file;
    previous_hash = head;
    seq = last;
    writer_failed = false;
  }

  resumes-unreadable :
      (file : List Line) (head : String) (last : ℤ) (line : Line)
      → Chain hashing genesis_hash (pos 0) file head last
      → line.content ≡ none
      → too_long line ≡ false
      → new_hash_chain_sink (file ++ line ∷ []) ≡ some (resumed_at (file ++ line ∷ []) head last)
  unfolding new_hash_chain_sink
  resumes-unreadable file head last line c h fits =
      let found = last_entry-Chain hashing none file head last c in
      let same = last_entry-unreadable none file line h fits in ground (arith, found, same)

  module _ (now later : Time) (entry next : Entry) (part : Line) (s : HashChainSink)
      (i : IsSound hashing s) where
    -- The part of the line that is in the file.
    abbrev torn : Line
    torn = record part { terminated = false }

    -- The log after the restart, and the line of the entry that is logged then.
    abbrev restarted_log : HashChainSink
    restarted_log = resumed_at (s.file ++ torn ∷ []) i.head i.last

    abbrev next_line : Line
    next_line = line_of hashing (link hashing later restarted_log next)

    left_file :
        s.writer_failed ≡ false
        → (log hashing (flush_fails (some part)) now entry s).0.file ≡ s.file ++ torn ∷ []
    unfolding log write fail_writer put_line
    left_file works =
        if_ind (λ (r : HashChainSink × Option LogError). r.0.file ≡ s.file ++ torn ∷ [])
          s.writer_failed (λ t. absurd (ground (arith, t, works)))
          (λ t. add_line-ended (λ (l : Line). l.terminated) glued s.file torn i.whole)

    next_log :
        ((log hashing no_fault later next restarted_log).1 ≡ none)
        × ((log hashing no_fault later next restarted_log).0.file
            ≡ s.file ++ glued torn next_line ∷ [])
    unfolding log write put_line link
    next_log = (refl, add_line-torn (λ (l : Line). l.terminated) glued s.file torn next_line refl)

    -- A flush that fails with a part of the line in the file, of which no entry is read: Verify
    -- reports a corrupt entry, but a restart resumes the log. The next entry is then logged without
    -- an error, but its line continues the torn one. If no entry is read from the two together,
    -- Verify reports the same corrupt entry, and another restart resumes from before both entries.
    -- The log is well linked before, and both lines are short enough for the scanner.
    pub log-torn :
        (from : ℤ)
        → s.writer_failed ≡ false
        → part.content ≡ none
        → too_long torn ≡ false
        → (glued torn next_line).content ≡ none
        → too_long (glued torn next_line) ≡ false
        → let torn_file = (log hashing (flush_fails (some part)) now entry s).0.file in
          let (again, error) = log hashing no_fault later next restarted_log in
          (verify hashing background from torn_file ≡ corrupt i.last)
          × (new_hash_chain_sink torn_file ≡ some restarted_log)
          × (error ≡ none)
          × (verify hashing background from again.file ≡ corrupt i.last)
          × (new_hash_chain_sink again.file ≡ some (resumed_at again.file i.head i.last))
    unfolding verify
    log-torn from works unread fits unread' fits' =
        let left = left_file works in
        let (returns, grown) = next_log in
        let corrupted : (line : Line)
            → line.content ≡ none
            → too_long line ≡ false
            → verify hashing background from (s.file ++ line ∷ []) ≡ corrupt i.last =
          λ line h k.
            unreadable_loop from 0 genesis_hash (pos 0) s.file i.head i.last line i.chain h k in
        let resumes : (line : Line)
            → line.content ≡ none
            → too_long line ≡ false
            → new_hash_chain_sink (s.file ++ line ∷ [])
              ≡ some (resumed_at (s.file ++ line ∷ []) i.head i.last) =
          λ line h k. resumes-unreadable s.file i.head i.last line i.chain h k in
        (
          subst (λ file. verify hashing background from file ≡ corrupt i.last) (sym left)
              (corrupted torn unread fits),
          subst (λ file. new_hash_chain_sink file ≡ some restarted_log) (sym left)
              (resumes torn unread fits),
          returns,
          subst (λ file. verify hashing background from file ≡ corrupt i.last) (sym grown)
              (corrupted (glued torn next_line) unread' fits'),
          subst (λ file. new_hash_chain_sink file ≡ some (resumed_at file i.head i.last))
              (sym grown) (resumes (glued torn next_line) unread' fits'),
        )
