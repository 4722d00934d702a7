-- ===== src/Forwarder/Trips.antt =====
-- cmd/ingestion/analysis.go: what a row of refused batches does to the circuit breaker.
use agent_transponder.Prelude.{
  ℕ, suc, ◌≤◌, ◌+◌, ◌≡◌, refl, sym, subst, ap, ◌∙◌, String, Bool, true, false, if_ind, some, List,
  [], ◌∷◌, length, All, arith, eq_refl, if◌then◌else◌,
}
use agent_transponder.Prelude.Int.{pos, ◌+ℤ◌, leb_ℤ, inc64}
use agent_transponder.Prelude.Maps.{Map, lookup}
use agent_transponder.Types.Event.{Event, Time, after}
use agent_transponder.Conversion.Messages.{WellKnown}
use agent_transponder.Forwarder.{
  AnalyzeBatchRequest, AnalysisForwarder, AnalysisConfig, Outside, circuit_closed, circuit_open,
  of_session, group, send_batch, send_all, send_sessions, connect_and_send, flush, record_failure,
  record_success,
}
use agent_transponder.Forwarder.Sessions.{of_session-group, session_events}
use agent_transponder.Forwarder.Breaker.{allows_closed, allows_not}

-- A flush: what is outside, and a batch that is not empty.
pub record Attempt : Type 0 where
  pub out : Outside
  pub first : Event
  pub others : List Event

-- The engine takes the batch of no session.
abbrev pub IsRefused : Attempt → Type 0
IsRefused a = (s : String) → a.out.takes s ≡ false

module _ (lib : WellKnown) where
  abbrev pub attempt : Attempt → AnalysisForwarder lib → AnalysisForwarder lib
  attempt a f = flush lib a.out (a.first ∷ a.others) f

  abbrev pub attempts : List Attempt → AnalysisForwarder lib → AnalysisForwarder lib
  attempts [] f = f
  attempts (a ∷ later) f = attempts later (attempt a f)

  stays_false :
      (takes : String → Bool) (m : Map (List Event)) (requests : List (AnalyzeBatchRequest lib))
      → (send_all lib takes m requests false).1 ≡ false
  unfolding send_all
  stays_false takes [] requests = refl
  stays_false takes ((session, events) ∷ m) requests =
      if_ind
        (λ (ok : Bool).
          (send_all lib takes m (send_batch lib takes session events requests).0 ok).1 ≡ false)
        (send_batch lib takes session events requests).1 (λ _. stays_false takes m _)
        (λ _. stays_false takes m _)

  refused :
      (takes : String → Bool) (m : Map (List Event)) (requests : List (AnalyzeBatchRequest lib))
      (ok : Bool) (s : String) (e : Event) (events : List Event)
      → ((k : String) → takes k ≡ false)
      → lookup s m ≡ some (e ∷ events)
      → (send_all lib takes m requests ok).1 ≡ false
  unfolding send_all send_batch lookup
  refused takes [] requests ok s e events none_taken found = ground arith
  refused takes ((session, []) ∷ m) requests ok s e events none_taken found =
      refused takes m requests ok s e events none_taken (ground arith)
  refused takes ((session, x ∷ xs) ∷ m) requests ok s e events none_taken found =
      if_ind
        (λ (ok' : Bool).
          (send_all lib takes m (send_batch lib takes session (x ∷ xs) requests).0 ok').1 ≡ false)
        (takes session) (λ taken. absurd (ground (arith, taken, none_taken session)))
        (λ _. stays_false takes m _)

  has_first :
      (e : Event) (events : List Event)
      → lookup e.session_id (group [] (e ∷ events)) ≡ some (e ∷ session_events e.session_id events)
  unfolding of_session lookup
  has_first e events =
      ground (arith, of_session-group e.session_id [] (e ∷ events), eq_refl e.session_id)

  -- A failure is recorded.
  record Failed (now : Time) (f f' : AnalysisForwarder lib) : Type 0 where
    same_cfg : f'.cfg ≡ f.cfg
    failures : f'.failures ≡ inc64 f.failures
    circuit : f'.circuit ≡ (
        if leb_ℤ f.cfg.circuit_breaker_threshold (inc64 f.failures)
        then circuit_open
        else f.circuit)
    open_until : f'.open_until ≡ (
        if leb_ℤ f.cfg.circuit_breaker_threshold (inc64 f.failures)
        then now +ℤ f.cfg.circuit_breaker_cooldown
        else f.open_until)

  refused-Failed :
      (a : Attempt) (f : AnalysisForwarder lib)
      → IsRefused a
      → f.circuit ≡ circuit_closed
      → Failed a.out.failed_at f (attempt a f)
  unfolding flush connect_and_send send_sessions record_failure record_success
  refused-Failed a f none_taken closed =
      let fails =
        refused a.out.takes (group [] (a.first ∷ a.others)) f.requests true a.first.session_id
          a.first _ none_taken (has_first a.first a.others) in
      let allowed = allows_closed lib a.out.asked_at f closed in
      record {
        same_cfg = ground (arith, fails, allowed);
        failures = ground (arith, fails, allowed);
        circuit = ground (arith, fails, allowed);
        open_until = ground (arith, fails, allowed);
      }

  -- The state after n failures in a row, below the threshold.
  record IsBelow (t n : ℕ) (cfg : AnalysisConfig) (f : AnalysisForwarder lib) : Type 0 where
    same_cfg : f.cfg ≡ cfg
    failures : f.failures ≡ pos n
    closed : f.circuit ≡ circuit_closed
    below : n ≤ t

  refused-IsBelow :
      (t n : ℕ) (cfg : AnalysisConfig) (a : Attempt) (f : AnalysisForwarder lib)
      → cfg.circuit_breaker_threshold ≡ pos (suc t)
      → suc t ≤ 9_223_372_036_854_775_807
      → suc n ≤ t
      → IsRefused a
      → IsBelow t n cfg f
      → IsBelow t (suc n) cfg (attempt a f)
  refused-IsBelow t n cfg a f size fits room none_taken h =
      let failed = refused-Failed a f none_taken h.closed in
      let same = ap (λ (c : AnalysisConfig). c.circuit_breaker_threshold) h.same_cfg ∙ size in
      record {
        same_cfg = failed.same_cfg ∙ h.same_cfg;
        failures = ground (arith, failed.failures, h.failures);
        closed = ground (arith, failed.circuit, h.closed, h.failures, same);
        below = room;
      }

  refused_run :
      (t n : ℕ) (cfg : AnalysisConfig) (tries : List Attempt) (f : AnalysisForwarder lib)
      → cfg.circuit_breaker_threshold ≡ pos (suc t)
      → suc t ≤ 9_223_372_036_854_775_807
      → n + length tries ≡ t
      → All IsRefused tries
      → IsBelow t n cfg f
      → IsBelow t t cfg (attempts tries f)
  refused_run t n cfg [] f size fits total h below =
      subst (λ k. IsBelow t k cfg f) (omega (arith, total)) below
  refused_run t n cfg (a ∷ tries) f size fits total (none_taken, h) below =
      refused_run t (suc n) cfg tries (attempt a f) size fits (omega (arith, total)) h
        (refused-IsBelow t n cfg a f size fits (omega (arith, total)) none_taken below)

  suppressed :
      (later : List Attempt) (f : AnalysisForwarder lib)
      → f.circuit ≡ circuit_open
      → All (λ a. after a.out.asked_at f.open_until ≡ false) later
      → attempts later f ≡ f
  unfolding flush
  suppressed [] f tripped h = refl
  suppressed (a ∷ later) f tripped (early, h) =
      let nothing : attempt a f ≡ f =
        ground (arith, allows_not lib a.out.asked_at f tripped early) in
      ap (attempts later) nothing ∙ suppressed later f tripped h

  -- With a closed circuit and no failure counted: as many refused batches as the threshold, each
  -- with an event, open the circuit, and it was closed until the last of them. Every flush that
  -- then comes before the cooldown has passed does nothing at all: its batch is dropped.
  pub breaker_trips :
      (t : ℕ) (f : AnalysisForwarder lib) (tries : List Attempt) (last : Attempt)
      (later : List Attempt)
      → f.cfg.circuit_breaker_threshold ≡ pos (suc t)
      → suc t ≤ 9_223_372_036_854_775_807
      → f.failures ≡ pos 0
      → f.circuit ≡ circuit_closed
      → length tries ≡ t
      → All IsRefused tries
      → IsRefused last
      → All
          (λ a. after a.out.asked_at (last.out.failed_at +ℤ f.cfg.circuit_breaker_cooldown) ≡ false)
          later
      → ((attempts tries f).circuit ≡ circuit_closed)
        × ((attempt last (attempts tries f)).circuit ≡ circuit_open)
        × (attempts later (attempt last (attempts tries f)) ≡ attempt last (attempts tries f))
  breaker_trips t f tries last later size fits zero_failures closed total h none_taken early =
      let below = refused_run t 0 f.cfg tries f size fits (omega (arith, total)) h (record {
        same_cfg = refl;
        failures = zero_failures;
        closed = closed;
        below = omega arith;
      }) in
      let failed = refused-Failed last (attempts tries f) none_taken below.closed in
      let same = ap (λ (c : AnalysisConfig). c.circuit_breaker_threshold) below.same_cfg ∙ size in
      let tripped : (attempt last (attempts tries f)).circuit ≡ circuit_open =
        ground (arith, failed.circuit, same, below.failures, fits) in
      let until : (attempt last (attempts tries f)).open_until
          ≡ last.out.failed_at +ℤ f.cfg.circuit_breaker_cooldown =
        ground (arith, failed.open_until, same, below.failures, below.same_cfg, fits) in
      (
        below.closed,
        tripped,
        suppressed later _ tripped (
            subst (λ u. All (λ (a : Attempt). after a.out.asked_at u ≡ false) later) (sym until)
              early),
      )
