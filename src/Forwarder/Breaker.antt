-- ===== src/Forwarder/Breaker.antt =====
-- cmd/ingestion/analysis.go: the circuit breaker of AnalysisForwarder.
use agent_transponder.Prelude.{
  ℕ, suc, ◌≤◌, ◌≡◌, refl, sym, subst, ◌⊎◌, Bool, true, false, Bool-cases, if_ind, inl, inr, List,
  [], arith,
}
use agent_transponder.Prelude.Int.{pos}
use agent_transponder.Types.Event.{Event, Time, after}
use agent_transponder.Conversion.Messages.{WellKnown}
use agent_transponder.Forwarder.{
  AnalyzeBatchRequest, AnalysisForwarder, Outside, CircuitState, circuit_closed, circuit_open,
  group, send_all, send_sessions, connect_and_send, circuit_allows, flush, record_failure,
  record_success,
}

module _ (lib : WellKnown) where
  -- The failures are counted up to the threshold, and the circuit is open exactly when the count
  -- has reached it.
  pub record IsBreaker (t : ℕ) (f : AnalysisForwarder lib) : Type 0 where
    pub threshold : f.cfg.circuit_breaker_threshold ≡ pos (suc t)
    pub fits : suc t ≤ 9_223_372_036_854_775_807
    pub count : ℕ
    pub counted : f.failures ≡ pos count
    pub open_full : f.circuit ≡ circuit_open → suc t ≤ count
    pub closed_below : f.circuit ≡ circuit_closed → count ≤ t

  record_failure-IsBreaker :
      (t : ℕ) (now : Time) (f : AnalysisForwarder lib)
      → f.circuit ≡ circuit_closed
      → IsBreaker t f
      → IsBreaker t (record_failure lib now f)
  unfolding record_failure
  record_failure-IsBreaker t now f closed h = record {
    threshold = ground (arith, h.threshold);
    fits = h.fits;
    count = suc h.count;
    counted = ground (arith, h.counted, h.fits, h.closed_below closed);
    open_full =
        λ o. ground (arith, o, closed, h.threshold, h.counted, h.fits, h.closed_below closed);
    closed_below = λ c. ground (arith, c, h.threshold, h.counted, h.fits, h.closed_below closed);
  }

  record_success-IsBreaker :
      (t : ℕ) (f : AnalysisForwarder lib)
      → f.circuit ≡ circuit_closed
      → IsBreaker t f
      → IsBreaker t (record_success lib f)
  unfolding record_success
  record_success-IsBreaker t f closed h = record {
    threshold = h.threshold;
    fits = h.fits;
    count = 0;
    counted = refl;
    open_full = λ o. absurd (ground (arith, o, closed));
    closed_below = λ c. omega arith;
  }

  circuit_cases : (c : CircuitState) → (c ≡ circuit_closed) ⊎ (c ≡ circuit_open)
  circuit_cases circuit_closed = inl refl
  circuit_cases circuit_open = inr refl

  pub allows_closed :
      (now : Time) (f : AnalysisForwarder lib)
      → f.circuit ≡ circuit_closed
      → circuit_allows lib now f ≡ (f, true)
  unfolding circuit_allows
  allows_closed now f closed = ground arith

  pub allows_not :
      (now : Time) (f : AnalysisForwarder lib)
      → f.circuit ≡ circuit_open
      → after now f.open_until ≡ false
      → circuit_allows lib now f ≡ (f, false)
  unfolding circuit_allows
  allows_not now f tripped early = ground arith

  pub allows_again :
      (now : Time) (f : AnalysisForwarder lib)
      → f.circuit ≡ circuit_open
      → after now f.open_until ≡ true
      → circuit_allows lib now f ≡ (record f { circuit = circuit_closed; failures = pos 0 }, true)
  unfolding circuit_allows
  allows_again now f tripped late = ground arith

  reset-IsBreaker :
      (t : ℕ) (f : AnalysisForwarder lib)
      → IsBreaker t f
      → IsBreaker t (record f { circuit = circuit_closed; failures = pos 0 })
  reset-IsBreaker t f h = record {
    threshold = h.threshold;
    fits = h.fits;
    count = 0;
    counted = refl;
    open_full = λ o. absurd (ground (arith, o));
    closed_below = λ c. omega arith;
  }

  circuit_allows-IsBreaker :
      (t : ℕ) (now : Time) (f : AnalysisForwarder lib)
      → IsBreaker t f
      → IsBreaker t (circuit_allows lib now f).0
        × ((circuit_allows lib now f).1 ≡ true
            → (circuit_allows lib now f).0.circuit ≡ circuit_closed)
  circuit_allows-IsBreaker t now f h =
      let P : (AnalysisForwarder lib × Bool) → Type 0 =
        λ r. IsBreaker t r.0 × (r.1 ≡ true → r.0.circuit ≡ circuit_closed) in
      elim (circuit_cases f.circuit) [
        | inl closed ↦ subst P (sym (allows_closed now f closed)) (h, λ _. closed)
        | inr tripped ↦ elim (Bool-cases (after now f.open_until)) [
          | inl late ↦
              subst P (sym (allows_again now f tripped late)) (reset-IsBreaker t f h, λ _. refl)
          | inr early ↦
              subst P (sym (allows_not now f tripped early))
                (h, λ allowed. absurd (ground (arith, allowed)))
        ]
      ]

  -- Requests and the connection do not matter to the breaker.
  abbrev sending :
      Bool → List (AnalyzeBatchRequest lib) → AnalysisForwarder lib → AnalysisForwarder lib
  sending connected requests f = record f { connected = connected; requests = requests }

  sending-IsBreaker :
      (t : ℕ) (connected : Bool) (requests : List (AnalyzeBatchRequest lib))
      (f : AnalysisForwarder lib)
      → IsBreaker t f
      → IsBreaker t (sending connected requests f)
  sending-IsBreaker t connected requests f h = record {
    threshold = h.threshold;
    fits = h.fits;
    count = h.count;
    counted = h.counted;
    open_full = h.open_full;
    closed_below = h.closed_below;
  }

  send_sessions-IsBreaker :
      (t : ℕ) (out : Outside) (events : List Event) (f : AnalysisForwarder lib)
      → f.circuit ≡ circuit_closed
      → IsBreaker t f
      → IsBreaker t (send_sessions lib out events f)
  unfolding send_sessions
  send_sessions-IsBreaker t out events f closed h =
      let h' = sending-IsBreaker t f.connected _ f h in
      if_ind (IsBreaker t) (send_all lib out.takes (group [] events) f.requests true).1
        (λ _. record_success-IsBreaker t _ closed h')
        (λ _. record_failure-IsBreaker t out.failed_at _ closed h')

  connect_and_send-IsBreaker :
      (t : ℕ) (out : Outside) (events : List Event) (f : AnalysisForwarder lib)
      → f.circuit ≡ circuit_closed
      → IsBreaker t f
      → IsBreaker t (connect_and_send lib out events f)
  unfolding connect_and_send
  connect_and_send-IsBreaker t out events f closed h =
      if_ind (IsBreaker t) f.connected (λ _. send_sessions-IsBreaker t out events f closed h)
        (λ _.
          if_ind (IsBreaker t) out.dialed
            (λ _.
              send_sessions-IsBreaker t out events _ closed
                (sending-IsBreaker t true f.requests f h))
            (λ _. record_failure-IsBreaker t out.failed_at f closed h))

  -- A flush keeps the breaker's count and state in step: the circuit is open exactly when the
  -- count of consecutive failures has reached the threshold.
  pub flush-IsBreaker :
      (t : ℕ) (out : Outside) (events : List Event) (f : AnalysisForwarder lib)
      → IsBreaker t f
      → IsBreaker t (flush lib out events f)
  unfolding flush
  flush-IsBreaker t out events f h =
      let (h', closed) = circuit_allows-IsBreaker t out.asked_at f h in
      if_ind (IsBreaker t) (circuit_allows lib out.asked_at f).1
        (λ allowed. connect_and_send-IsBreaker t out events _ (closed allowed) h') (λ _. h')
