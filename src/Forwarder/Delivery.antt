-- ===== src/Forwarder/Delivery.antt =====
-- cmd/ingestion/analysis.go: the events that Submit takes over any run of the batcher.
use agent_transponder.Prelude.{
  ◌≤◌, ◌≡◌, refl, sym, subst, ◌∙◌, false, if_ind, List, [], ◌∷◌, length, arith,
}
use agent_transponder.Types.Event.{Event}
use agent_transponder.Conversion.Messages.{WellKnown}
use agent_transponder.Forwarder.{AnalysisConfig, AnalysisForwarder, Outside, channel_size}
use agent_transponder.Forwarder.Batcher.{
  Step, submitted, received, ticked, cancelled, Batcher, flush_some, drain_and_flush, step, run,
  start,
}
use agent_transponder.Forwarder.Conserved.{
  IsConserved, submit_conserves, receive_conserves, flush_some_conserves, drain_and_flush-IsDrained,
}

module _ (lib : WellKnown) where
  step_conserves :
      (cfg : AnalysisConfig) (s : Step) (b : Batcher lib)
      → IsConserved lib cfg b
      → IsConserved lib cfg (step lib s b)
  unfolding step
  step_conserves cfg (submitted event) b h = submit_conserves lib cfg event b h
  step_conserves cfg (received out) b h =
      if_ind (IsConserved lib cfg) b.stopped (λ stopped. h)
        (λ runs. receive_conserves lib cfg out _ b runs refl h)
  step_conserves cfg (ticked out) b h =
      if_ind (IsConserved lib cfg) b.stopped (λ stopped. h)
        (λ runs. flush_some_conserves lib cfg out _ b refl h)
  step_conserves cfg (cancelled out) b h =
      if_ind (IsConserved lib cfg) b.stopped (λ stopped. h)
        (λ runs. (drain_and_flush-IsDrained lib cfg out b h).conserved)

  flush_some_keeps :
      (out : Outside) (batch : List Event) (b : Batcher lib)
      → (flush_some lib out batch b).accepted ≡ b.accepted
  unfolding flush_some
  flush_some_keeps out [] b = refl
  flush_some_keeps out (e ∷ events) b = refl

  cancel_flushes :
      (cfg : AnalysisConfig) (out : Outside) (b : Batcher lib)
      → b.stopped ≡ false
      → IsConserved lib cfg b
      → (step lib (cancelled out) b).flushed ≡ b.accepted
  unfolding step drain_and_flush
  cancel_flushes cfg out b runs h =
      if_ind (λ (b' : Batcher lib). b'.flushed ≡ b.accepted) b.stopped
        (λ stopped. absurd (ground (arith, stopped, runs)))
        (λ _. (drain_and_flush-IsDrained lib cfg out b h).flushed_all ∙ flush_some_keeps out _ _)

  run_conserves :
      (cfg : AnalysisConfig) (steps : List Step) (b : Batcher lib)
      → IsConserved lib cfg b
      → IsConserved lib cfg (run lib steps b)
  unfolding run
  run_conserves cfg [] b h = h
  run_conserves cfg (s ∷ steps) b h =
      run_conserves cfg steps (step lib s b) (step_conserves cfg s b h)

  start-IsConserved :
      (f : AnalysisForwarder lib) → f.event_ch ≡ [] → IsConserved lib f.cfg (start lib f)
  start-IsConserved f empty = record {
    same_cfg = refl;
    in_order = sym empty;
    batch_fits = λ k size. omega arith;
    channel_fits = subst (λ (l : List Event). length l ≤ channel_size) (sym empty) (omega arith);
    nothing_waits = λ stopped. refl;
  }

  -- Over any calls of Submit and rounds of the batcher, in any order, from an empty channel: the
  -- events that Submit took are, in their order, those handed to flush, those in the batch and
  -- those in the channel. The batch is shorter than the positive batch size, the channel no longer
  -- than its own size, and a batcher that has stopped has an empty batch.
  pub run-IsConserved :
      (f : AnalysisForwarder lib) (steps : List Step)
      → f.event_ch ≡ []
      → IsConserved lib f.cfg (run lib steps (start lib f))
  run-IsConserved f steps empty =
      run_conserves f.cfg steps (start lib f) (start-IsConserved f empty)

  -- When the context of a running batcher ends, every event that Submit took so far has been
  -- handed to flush, once and in order.
  pub stop-flushed :
      (f : AnalysisForwarder lib) (steps : List Step) (out : Outside)
      → f.event_ch ≡ []
      → (run lib steps (start lib f)).stopped ≡ false
      → let b = run lib steps (start lib f) in (step lib (cancelled out) b).flushed ≡ b.accepted
  stop-flushed f steps out empty runs =
      cancel_flushes f.cfg out (run lib steps (start lib f)) runs (run-IsConserved f steps empty)
