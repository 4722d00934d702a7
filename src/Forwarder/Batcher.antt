-- ===== src/Forwarder/Batcher.antt =====
-- cmd/ingestion/analysis.go: runBatcher, as the sequence of the cases that its select takes, and
-- the calls of Submit between them.
use agent_transponder.Prelude.{Bool, true, false, List, [], ◌∷◌, ◌++◌, length, if◌then◌else◌}
use agent_transponder.Prelude.Int.{pos, leb_ℤ}
use agent_transponder.Types.Event.{Event}
use agent_transponder.Conversion.Messages.{WellKnown}
use agent_transponder.Forwarder.{AnalysisForwarder, Outside, submit, flush}

-- A call of Submit, and the cases of the select: an event, the ticker, the end of the context.
pub data Step : Type 0 where
  submitted : Event → Step
  received ticked cancelled : Outside → Step

module _ (lib : WellKnown) where
  -- `accepted` and `flushed` record the events that Submit took and that were handed to flush.
  pub record Batcher : Type 0 where
    pub forwarder : AnalysisForwarder lib
    pub batch : List Event
    pub stopped : Bool
    pub accepted : List Event
    pub flushed : List Event

  abbrev pub flush_batch : Outside → Batcher → Batcher
  flush_batch out b = record b {
    forwarder = flush lib out b.batch b.forwarder;
    batch = [];
    flushed = b.flushed ++ b.batch;
  }

  -- The case of an event; without one in the channel it is not taken.
  unfoldable pub receive : Outside → List Event → Batcher → Batcher
  receive out [] b = b
  receive out (event ∷ rest) b =
      let b' = record b {
        forwarder = record b.forwarder { event_ch = rest };
        batch = b.batch ++ event ∷ [];
      } in
      if leb_ℤ b.forwarder.cfg.batch_size (pos (length b'.batch)) then flush_batch out b' else b'

  unfoldable pub flush_some : Outside → List Event → Batcher → Batcher
  flush_some out [] b = b
  flush_some out (e ∷ events) b = flush_batch out b

  unfoldable pub drain_and_flush : Outside → Batcher → Batcher
  drain_and_flush out b =
      let drained = record b {
        forwarder = record b.forwarder { event_ch = [] };
        batch = b.batch ++ b.forwarder.event_ch;
        stopped = true;
      } in
      flush_some out drained.batch drained

  unfoldable pub step : Step → Batcher → Batcher
  step (submitted event) b =
      let (f, taken) = submit lib event b.forwarder in
      record b { forwarder = f; accepted = if taken then b.accepted ++ event ∷ [] else b.accepted }
  step (received out) b = if b.stopped then b else receive out b.forwarder.event_ch b
  step (ticked out) b = if b.stopped then b else flush_some out b.batch b
  step (cancelled out) b = if b.stopped then b else drain_and_flush out b

  unfoldable pub run : List Step → Batcher → Batcher
  run [] b = b
  run (s ∷ steps) b = run steps (step s b)

  abbrev pub start : AnalysisForwarder lib → Batcher
  start f = record { forwarder = f; batch = []; stopped = false; accepted = []; flushed = [] }
