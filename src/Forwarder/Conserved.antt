-- ===== src/Forwarder/Conserved.antt =====
-- cmd/ingestion/analysis.go: the events on their way from Submit to flush.
use agent_transponder.Prelude.{
  ℕ, suc, ◌≤◌, ◌≡◌, refl, sym, append_assoc, append_nil, ap, ap₂, subst, ◌∙◌, true, false,
  Bool-cases, inl, inr, List, [], ◌∷◌, ◌++◌, length, length-append, arith, ltb,
}
use agent_transponder.Prelude.Int.{ℤ, pos, leb_ℤ}
use agent_transponder.Types.Event.{Event}
use agent_transponder.Conversion.Messages.{WellKnown}
use agent_transponder.Forwarder.{
  AnalysisConfig, AnalysisForwarder, Outside, submit, flush, circuit_allows, record_failure,
  record_success, send_sessions, connect_and_send, channel_size,
}
use agent_transponder.Forwarder.Batcher.{
  submitted, Batcher, receive, flush_some, drain_and_flush, flush_batch, step,
}

append_last {ℓ} :
    {A : Type ℓ} (xs ys zs : List A) (a : A)
    → (xs ++ (ys ++ zs)) ++ a ∷ [] ≡ xs ++ (ys ++ (zs ++ a ∷ []))
append_last xs ys zs a =
    append_assoc xs (ys ++ zs) (a ∷ []) ∙ ap (λ l. xs ++ l) (append_assoc ys zs (a ∷ []))

below_size : (size : ℤ) (n k : ℕ) → leb_ℤ size (pos n) ≡ false → size ≡ pos (suc k) → n ≤ k
below_size size n k below is = ground arith

module _ (lib : WellKnown) where
  flush_keeps :
      (out : Outside) (events : List Event) (f : AnalysisForwarder lib)
      → ((flush lib out events f).event_ch ≡ f.event_ch) × ((flush lib out events f).cfg ≡ f.cfg)
  unfolding flush circuit_allows connect_and_send send_sessions record_failure record_success
  flush_keeps out events f = ground arith

  abbrev pub InOrder : Batcher lib → Type 0
  InOrder b = b.accepted ≡ b.flushed ++ (b.batch ++ b.forwarder.event_ch)

  -- The events that were taken are those flushed, in the batch and in the channel, in this order;
  -- the batch is below its size, the channel within its own, and a stopped batcher has no batch.
  pub record IsConserved (cfg : AnalysisConfig) (b : Batcher lib) : Type 0 where
    pub same_cfg : b.forwarder.cfg ≡ cfg
    pub in_order : InOrder b
    pub batch_fits : (k : ℕ) → cfg.batch_size ≡ pos (suc k) → length b.batch ≤ k
    pub channel_fits : length b.forwarder.event_ch ≤ channel_size
    pub nothing_waits : b.stopped ≡ true → b.batch ≡ []

  pub submit_conserves :
      (cfg : AnalysisConfig) (event : Event) (b : Batcher lib)
      → IsConserved cfg b
      → IsConserved cfg (step lib (submitted event) b)
  unfolding step submit
  submit_conserves cfg event b h =
      elim (Bool-cases (ltb (length b.forwarder.event_ch) channel_size)) [
        | inl room ↦
            rw (room, submit)
              (record {
                same_cfg = h.same_cfg;
                in_order =
                    ap (λ l. l ++ event ∷ []) h.in_order
                    ∙ append_last b.flushed b.batch b.forwarder.event_ch event;
                batch_fits = h.batch_fits;
                channel_fits = ground (arith, length-append b.forwarder.event_ch (event ∷ []));
                nothing_waits = h.nothing_waits;
              })
        | inr full ↦
            rw (full, submit)
              (record {
                same_cfg = h.same_cfg;
                in_order = h.in_order;
                batch_fits = h.batch_fits;
                channel_fits = h.channel_fits;
                nothing_waits = h.nothing_waits;
              })
      ]

  flush_batch_conserves :
      (cfg : AnalysisConfig) (out : Outside) (b : Batcher lib)
      → b.forwarder.cfg ≡ cfg
      → InOrder b
      → length b.forwarder.event_ch ≤ channel_size
      → IsConserved cfg (flush_batch lib out b)
  flush_batch_conserves cfg out b same order fits =
      let (channel, kept) = flush_keeps out b.batch b.forwarder in
      record {
        same_cfg = kept ∙ same;
        in_order =
            order
            ∙ sym (append_assoc b.flushed b.batch b.forwarder.event_ch)
            ∙ ap (λ l. (b.flushed ++ b.batch) ++ l) (sym channel);
        batch_fits = λ k size. omega arith;
        channel_fits = subst (λ (l : List Event). length l ≤ channel_size) (sym channel) fits;
        nothing_waits = λ stopped. refl;
      }

  pub receive_conserves :
      (cfg : AnalysisConfig) (out : Outside) (queue : List Event) (b : Batcher lib)
      → b.stopped ≡ false
      → b.forwarder.event_ch ≡ queue
      → IsConserved cfg b
      → IsConserved cfg (receive lib out queue b)
  unfolding receive
  receive_conserves cfg out [] b runs same h = h
  receive_conserves cfg out (event ∷ queue) b runs same h =
      let b' : Batcher lib = record b {
        forwarder = record b.forwarder { event_ch = queue };
        batch = b.batch ++ event ∷ [];
      } in
      let order : InOrder b' =
        h.in_order
        ∙ ap (λ l. b.flushed ++ (b.batch ++ l)) same
        ∙ ap (λ l. b.flushed ++ l) (sym (append_assoc b.batch (event ∷ []) queue)) in
      let fits : length queue ≤ channel_size =
        ground (arith, ap (λ (l : List Event). length l) same, h.channel_fits) in
      elim (Bool-cases (leb_ℤ b.forwarder.cfg.batch_size (pos (length b'.batch)))) [
        | inl full ↦ rw full (flush_batch_conserves cfg out b' h.same_cfg order fits)
        | inr room ↦ rw room (record {
          same_cfg = h.same_cfg;
          in_order = order;
          batch_fits = λ k size.
              below_size _ _ k room (ap (λ (c : AnalysisConfig). c.batch_size) h.same_cfg ∙ size);
          channel_fits = fits;
          nothing_waits = λ stopped. absurd (ground (arith, stopped, runs));
        })
      ]

  pub flush_some_conserves :
      (cfg : AnalysisConfig) (out : Outside) (batch : List Event) (b : Batcher lib)
      → b.batch ≡ batch
      → IsConserved cfg b
      → IsConserved cfg (flush_some lib out batch b)
  unfolding flush_some
  flush_some_conserves cfg out [] b same h = h
  flush_some_conserves cfg out (e ∷ events) b same h =
      flush_batch_conserves cfg out b h.same_cfg h.in_order h.channel_fits

  -- Whatever waits is flushed by the end of the context.
  pub record IsDrained (cfg : AnalysisConfig) (b : Batcher lib) : Type 0 where
    pub flushed_all : b.flushed ≡ b.accepted
    pub conserved : IsConserved cfg b

  drain_flushes :
      (cfg : AnalysisConfig) (out : Outside) (batch : List Event) (b : Batcher lib)
      → b.batch ≡ batch
      → b.forwarder.event_ch ≡ []
      → b.forwarder.cfg ≡ cfg
      → InOrder b
      → IsDrained cfg (flush_some lib out batch b)
  unfolding flush_some
  drain_flushes cfg out [] b same empty kept order = record {
    flushed_all = sym (
        order
        ∙ ap₂ (λ (l m : List Event). b.flushed ++ (l ++ m)) same empty
        ∙ append_nil b.flushed);
    conserved = record {
      same_cfg = kept;
      in_order = order;
      batch_fits = λ k size. subst (λ (l : List Event). length l ≤ k) (sym same) (omega arith);
      channel_fits = subst (λ (l : List Event). length l ≤ channel_size) (sym empty) (omega arith);
      nothing_waits = λ stopped. same;
    };
  }
  drain_flushes cfg out (e ∷ events) b same empty kept order = record {
    flushed_all = sym (
        order
        ∙ ap (λ (m : List Event). b.flushed ++ (b.batch ++ m)) empty
        ∙ ap (λ l. b.flushed ++ l) (append_nil b.batch));
    conserved =
        flush_batch_conserves cfg out b kept order
          (subst (λ (l : List Event). length l ≤ channel_size) (sym empty) (omega arith));
  }

  pub drain_and_flush-IsDrained :
      (cfg : AnalysisConfig) (out : Outside) (b : Batcher lib)
      → IsConserved cfg b
      → IsDrained cfg (drain_and_flush lib out b)
  unfolding drain_and_flush
  drain_and_flush-IsDrained cfg out b h =
      drain_flushes cfg out _ _ refl refl h.same_cfg
        (h.in_order ∙ ap (λ l. b.flushed ++ l) (sym (append_nil (b.batch ++ b.forwarder.event_ch))))
