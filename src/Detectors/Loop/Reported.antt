-- ===== src/Detectors/Loop/Reported.antt =====
-- What LoopDetector of internal/analyzer/detectors/loop.go reports on an event.
use agent_transponder.Prelude.{
  ℕ, suc, ◌-◌, ◌*◌, ◌/◌, ◌≤◌, ◌≡◌, refl, sym, subst, ap, ◌∙◌, String, ◌==◌, eq_refl, true, if_ind,
  Option, none, some, List, [], ◌++◌, map, length, All, ltb, leb→le, append_nil, if◌then◌else◌,
  arith,
}
use native.Mathlib.Nat.{div-le_self}
use agent_transponder.Prelude.Int.{ℤ, pos}
use agent_transponder.Prelude.Maps.{lookup, insert, get_or-insert}
use agent_transponder.Prelude.Float.{Float}
use agent_transponder.Prelude.Loops.{while_lem, bind_some, IsRound}
use agent_transponder.Types.Event.{Event, ToolCallData, event_tool_call}
use agent_transponder.Detectors.Finding.{Finding}
use agent_transponder.Detectors.Loop.{
  LoopDetector, LoopSession, Search, new_loop_session, new_loop_detector, new_loop_detector_full,
  reset, scan, within_max_len, detect_loops, trim, append_call, session_of, analyze_call,
  analyze_tool_call, analyze,
}
use agent_transponder.Detectors.Loop.Starts.{NoDup, first_id}
use agent_transponder.Detectors.Loop.Sessions.{
  IsSession, trim-IsSession, append_call-IsSession, append_call_emitted,
}
use agent_transponder.Detectors.Loop.Found.{IsLoop, IsSearch, scan-IsSearch}

div_le : (n m : ℕ) → n / m ≤ n
div_le n m = div-le_self n m

module _ (fl : Float) where
  open fl use {F}

  abbrev pub starts : List (Finding F) → List String
  starts findings = map (λ f. first_id f.event_ids) findings

  pub record IsDetector (d : LoopDetector) : Type 0 where
    pub long : 1 ≤ d.min_seq_len
    pub many : 1 ≤ d.min_reps
    pub session : (id : String) → IsSession (session_of fl d id)

  pub new_loop_detector_full-IsDetector :
      (threshold window_seconds min_seq_len : ℤ)
      → IsDetector (new_loop_detector_full threshold window_seconds min_seq_len)
  unfolding new_loop_detector_full session_of lookup
  new_loop_detector_full-IsDetector t w m = record {
    long = ground arith;
    many = ground arith;
    session = λ id. record { paired = refl; distinct = tt };
  }

  pub new_loop_detector-IsDetector :
      (threshold window_seconds : ℤ) → IsDetector (new_loop_detector threshold window_seconds)
  unfolding new_loop_detector
  new_loop_detector-IsDetector threshold window_seconds =
      new_loop_detector_full-IsDetector threshold window_seconds (pos 2)

  pub reset-IsDetector : (d : LoopDetector) → IsDetector d → IsDetector (reset d)
  unfolding reset session_of lookup
  reset-IsDetector d h = record {
    long = h.long;
    many = h.many;
    session = λ id. record { paired = refl; distinct = tt };
  }

  -- The findings on a sequence of calls, with the session that is left.
  record IsDetected (d : LoopDetector) (sess : LoopSession)
      (r : Option (LoopSession × List (Finding F))) : Type 0 where
    pub emitted : List String
    pub findings : List (Finding F)
    pub returns : r ≡ some (record sess { emitted_start_ids = emitted }, findings)
    pub loops : All (IsLoop fl d sess.tool_names sess.event_ids) findings
    pub adds : emitted ≡ sess.emitted_start_ids ++ starts findings
    pub distinct : NoDup emitted

  -- One pass of the outer loop.
  pass-IsRound :
      (d : LoopDetector) (event : Event) (sess : LoopSession) (q : ℕ × Search fl)
      → 1 ≤ d.min_seq_len
      → 1 ≤ d.min_reps
      → length sess.event_ids ≡ length sess.tool_names
      → (d.min_seq_len ≤ q.0) × IsSearch fl d sess q.1
      → within_max_len fl d sess q ≡ true
      → IsRound
          (λ (p : ℕ × Search fl). (d.min_seq_len ≤ p.0) × IsSearch fl d sess p.1)
          (λ p. suc (length sess.tool_names) - p.0)
          q
          (scan fl d event sess q)
  unfolding within_max_len
  pass-IsRound d event sess (seq_len, s) long many paired p t =
      let (s', returns, inv) =
        scan-IsSearch fl d event sess seq_len paired (omega (arith, p.0, long)) p.0 many s p.1 in
      record {
        next = (suc seq_len, s');
        returns = returns;
        kept = (omega (arith, p.0), inv);
        less = omega (
          arith,
          div_le (length sess.tool_names) d.min_reps,
          leb→le seq_len (length sess.tool_names / d.min_reps) t,
        );
      }

  search-IsDetected :
      (d : LoopDetector) (event : Event) (sess : LoopSession)
      → 1 ≤ d.min_seq_len
      → 1 ≤ d.min_reps
      → IsSession sess
      → IsDetected d sess (detect_loops fl d event sess)
  unfolding detect_loops within_max_len
  search-IsDetected d event sess long many h =
      let n = length sess.tool_names in
      let P : ℕ × Search fl → Type 0 = λ q. (d.min_seq_len ≤ q.0) × IsSearch fl d sess q.1 in
      let start : Search fl = record {
        emitted = sess.emitted_start_ids;
        reported = [];
        findings = [];
      } in
      let begin : IsSearch fl d sess start = record {
        loops = tt;
        starts = sym (append_nil sess.emitted_start_ids);
        distinct = λ k. k;
      } in
      if_ind (IsDetected d sess) (ltb n (d.min_seq_len * d.min_reps))
        (λ t. record {
          emitted = sess.emitted_start_ids;
          findings = [];
          returns = refl;
          loops = tt;
          adds = sym (append_nil sess.emitted_start_ids);
          distinct = h.distinct;
        })
        (λ t.
          let round =
            while_lem P (λ q. suc n - q.0) (within_max_len fl d sess) (scan fl d event sess)
              (λ q p t'. pass-IsRound d event sess q long many h.paired p t') (suc n)
              (d.min_seq_len, start) (omega (arith, long)) (omega arith, begin) in
          record {
            emitted = round.state.1.emitted;
            findings = round.state.1.findings;
            returns = bind_some _ round.state _ round.ends;
            loops = round.holds.1.loops;
            adds = round.holds.1.starts;
            distinct = round.holds.1.distinct h.distinct;
          })

  -- What an event does to a detector: the findings are on the calls of the event's session, and
  -- their starts are the ones that it adds to those known.
  pub record IsAnalyzed (d : LoopDetector) (event : Event)
      (r : Option (LoopDetector × List (Finding F))) : Type 0 where
    pub next : LoopDetector
    pub findings : List (Finding F)
    pub returns : r ≡ some (next, findings)
    pub kept : IsDetector next
    pub loops :
        (let sess = session_of fl next event.session_id in
          All (IsLoop fl d sess.tool_names sess.event_ids) findings)
    pub adds :
        (session_of fl next event.session_id).emitted_start_ids
        ≡ (session_of fl d event.session_id).emitted_start_ids ++ starts findings

  unchanged-IsAnalyzed :
      (d : LoopDetector) (event : Event) → IsDetector d → IsAnalyzed d event (some (d, []))
  unchanged-IsAnalyzed d event h = record {
    next = d;
    findings = [];
    returns = refl;
    kept = h;
    loops = tt;
    adds = sym (append_nil (session_of fl d event.session_id).emitted_start_ids);
  }

  pub session_of-insert :
      (d : LoopDetector) (id other : String) (sess : LoopSession)
      → session_of fl (record d { sessions = insert id sess d.sessions }) other
        ≡ (if other == id then sess else session_of fl d other)
  unfolding session_of
  session_of-insert d id other sess = get_or-insert new_loop_session id other sess d.sessions

  analyze_call-IsAnalyzed :
      (d : LoopDetector) (event : Event) (call : ToolCallData)
      → IsDetector d
      → IsAnalyzed d event (analyze_call fl d event call)
  unfolding analyze_call
  analyze_call-IsAnalyzed d event call h =
      let id = event.session_id in
      let old = session_of fl d id in
      let (inv, same) =
        trim-IsSession d.window_seconds event.timestamp (append_call event call old)
          (append_call-IsSession event call old (h.session id)) in
      let sess = trim d.window_seconds event.timestamp (append_call event call old) in
      let found = search-IsDetected d event sess h.long h.many inv in
      let sess' : LoopSession = record sess { emitted_start_ids = found.emitted } in
      let next : LoopDetector = record d { sessions = insert id sess' d.sessions } in
      let at : session_of fl next id ≡ sess' =
        session_of-insert d id id sess' ∙ ground (arith, eq_refl id) in
      record {
        next = next;
        findings = found.findings;
        returns = bind_some _ (sess', found.findings) _ found.returns;
        kept = record {
          long = h.long;
          many = h.many;
          session = λ other. subst IsSession (sym (session_of-insert d id other sess')) (
              if_ind IsSession (other == id)
                (λ t. record { paired = inv.paired; distinct = found.distinct })
                (λ t. h.session other));
        };
        loops =
            subst (λ (s : LoopSession). All (IsLoop fl d s.tool_names s.event_ids) found.findings)
              (sym at) found.loops;
        adds =
            ap (λ (s : LoopSession). s.emitted_start_ids) at
            ∙ found.adds
            ∙ ap (λ l. l ++ starts found.findings) (same ∙ append_call_emitted event call old);
      }

  analyze_tool_call-IsAnalyzed :
      (d : LoopDetector) (event : Event) (call : Option ToolCallData)
      → IsDetector d
      → IsAnalyzed d event (analyze_tool_call fl d event call)
  unfolding analyze_tool_call
  analyze_tool_call-IsAnalyzed d event none h = unchanged-IsAnalyzed d event h
  analyze_tool_call-IsAnalyzed d event (some call) h =
      if_ind (IsAnalyzed d event) (event.type == event_tool_call)
        (λ t. analyze_call-IsAnalyzed d event call h) (λ t. unchanged-IsAnalyzed d event h)

  pub analyze-IsAnalyzed :
      (d : LoopDetector) (event : Event) → IsDetector d → IsAnalyzed d event (analyze fl d event)
  unfolding analyze
  analyze-IsAnalyzed d event h = analyze_tool_call-IsAnalyzed d event event.tool_call h
