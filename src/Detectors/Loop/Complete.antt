-- ===== src/Detectors/Loop/Complete.antt =====
-- LoopDetector of internal/analyzer/detectors/loop.go: the loops of a session are all noticed.
use agent_transponder.Prelude.{
  ℕ, ◌≤◌, ◌≡◌, sym, subst, ap, ◌∙◌, ◌==◌, eq_refl, true, some, List, [], ◌++◌, if◌then◌else◌, arith,
}
use agent_transponder.Prelude.Maps.{insert}
use agent_transponder.Prelude.Float.{Float}
use agent_transponder.Prelude.Loops.{some_injective, bind-some_split}
use agent_transponder.Types.Event.{Event, ToolCallData, event_tool_call}
use agent_transponder.Detectors.Finding.{Finding}
use agent_transponder.Detectors.Loop.{
  LoopDetector, LoopSession, trim, append_call, session_of, analyze_call, analyze_tool_call,
  analyze,
}
use agent_transponder.Detectors.Loop.Reported.{
  IsDetector, analyze-IsAnalyzed, starts, session_of-insert,
}
use agent_transponder.Detectors.Loop.Silent.{IsRepeated, detect_loops_quiet}

module _ (fl : Float) where
  open fl use {F}

  -- With nothing emitted for a session, none of its windows is repeated often enough.
  NoLoop : LoopDetector → Event → LoopDetector → Type 0
  NoLoop d event next =
      (session_of fl next event.session_id).emitted_start_ids ≡ []
      → (i len : ℕ) → d.min_seq_len ≤ len
      → ¬ IsRepeated (session_of fl next event.session_id).tool_names d.min_reps i len

  analyze_call-NoLoop :
      (d : LoopDetector) (event : Event) (call : ToolCallData) (next : LoopDetector)
      (findings : List (Finding F))
      → 1 ≤ d.min_reps
      → analyze_call fl d event call ≡ some (next, findings)
      → NoLoop d event next
  unfolding analyze_call NoLoop
  analyze_call-NoLoop d event call next findings many e =
      let id = event.session_id in
      let sess =
        trim d.window_seconds event.timestamp (append_call event call (session_of fl d id)) in
      let ((sess', findings'), found, e') = bind-some_split _ _ (next, findings) e in
      let (kept, quiet) = detect_loops_quiet fl d event sess sess' findings' many found in
      let stored : LoopDetector = record d { sessions = insert id sess' d.sessions } in
      let at : session_of fl stored id ≡ sess' =
        session_of-insert fl d id id sess' ∙ ground (arith, eq_refl id) in
      let same : stored ≡ next = ap (λ p. p.0) (some_injective _ (next, findings) e') in
      subst
        (λ (s : LoopSession).
          s.emitted_start_ids ≡ []
          → (i len : ℕ) → d.min_seq_len ≤ len
          → ¬ IsRepeated s.tool_names d.min_reps i len)
        (sym at ∙ ap (λ x. session_of fl x id) same)
        (λ nil i len long r.
          quiet nil i len long (subst (λ l. IsRepeated l d.min_reps i len) kept r))

  analyze-NoLoop :
      (d : LoopDetector) (event : Event) (call : ToolCallData) (next : LoopDetector)
      (findings : List (Finding F))
      → 1 ≤ d.min_reps
      → event.tool_call ≡ some call
      → (event.type == event_tool_call) ≡ true
      → analyze fl d event ≡ some (next, findings)
      → NoLoop d event next
  unfolding analyze analyze_tool_call
  analyze-NoLoop d event call next findings many has_call is_call e =
      analyze_call-NoLoop d event call next findings many (
        ap (λ b. if b then analyze_call fl d event call else some (d, [])) (sym is_call)
        ∙ ap (analyze_tool_call fl d event) (sym has_call)
        ∙ e)

  -- On a tool call of a session of which LoopDetector has reported nothing before, Analyze returns,
  -- and its findings are not empty if in the calls that the session then keeps some window of at
  -- least min_seq_len calls follows itself at least min_reps times in a row.
  pub analyze_noticed :
      (d : LoopDetector) (event : Event) (call : ToolCallData)
      → IsDetector fl d
      → event.tool_call ≡ some call
      → (event.type == event_tool_call) ≡ true
      → (session_of fl d event.session_id).emitted_start_ids ≡ []
      → (next : LoopDetector) × (findings : List (Finding F)) × (analyze fl d event
          ≡ some (next, findings))
        × ((i len : ℕ)
            → d.min_seq_len ≤ len
            → IsRepeated (session_of fl next event.session_id).tool_names d.min_reps i len
            → ¬ (findings ≡ []))
  unfolding NoLoop
  analyze_noticed d event call h has_call is_call fresh =
      let r = analyze-IsAnalyzed fl d event h in
      (
        r.next,
        r.findings,
        r.returns,
        λ i len long loop nil.
            analyze-NoLoop d event call r.next r.findings h.many has_call is_call r.returns
              (r.adds ∙ ap (λ l. l ++ starts fl r.findings) fresh ∙ ap (starts fl) nil) i len long
              loop,
      )
