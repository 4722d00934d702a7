-- ===== src/Detectors/Drift/Reported.antt =====
-- What DriftDetector of internal/analyzer/detectors/drift.go reports on an event.
use agent_transponder.Prelude.{
  ◌≤◌, ◌≡◌, refl, sym, subst, ap, ◌∙◌, String, ◌==◌, eq_refl, true, false, not, ◌||◌, ◌&&◌, ◌++◌,
  append_nil, leb, if_ind, Option, none, some, List, [], ◌∷◌, length, length-append, All,
  if◌then◌else◌, arith,
}
use agent_transponder.Prelude.Maps.{lookup, insert, get_or-insert}
use agent_transponder.Prelude.Float.{Float}
use agent_transponder.Prelude.Loops.{◌>>=◌, bind_some}
use agent_transponder.Types.Event.{Event, PromptData, event_prompt}
use agent_transponder.Detectors.Finding.{Finding}
use agent_transponder.Detectors.Drift.{
  DriftSession, new_drift_session, DriftDetector, new_drift_detector, reset, append_prompt,
  detect_drift, session_of, analyze_prompt, analyze,
}
use agent_transponder.Detectors.Drift.Sessions.{
  is_nil, drifted_ids, IsDetected, detect_drift-IsDetected,
}

module _ (fl : Float) where
  open fl use {F}

  pub record IsDrift (d : DriftDetector fl) : Type 0 where
    pub paired :
        (id : String) → length (session_of fl d id).prompt_ids ≡ length (session_of fl d id).prompts

  pub new_drift_detector-IsDrift : (threshold : F) → IsDrift (new_drift_detector fl threshold)
  unfolding new_drift_detector session_of lookup
  new_drift_detector-IsDrift threshold = record { paired = λ id. refl }

  pub reset-IsDrift : (d : DriftDetector fl) → IsDrift (reset fl d)
  unfolding reset session_of lookup
  reset-IsDrift d = record { paired = λ id. refl }

  -- What an event adds to the prompts of its session, and to their ids.
  abbrev pub contents_of : Event → List String
  contents_of event =
      if event.type == event_prompt
      then elim event.prompt [ none ↦ [] | some prompt ↦ prompt.content ∷ [] ]
      else []

  abbrev pub ids_of : Event → List String
  ids_of event =
      if event.type == event_prompt
      then elim event.prompt [ none ↦ [] | some prompt ↦ event.id ∷ [] ]
      else []

  -- What an event makes the detector report: one finding on a prompt with which the session has
  -- min_prompts prompts or more and has not been reported, if some later prompt is less similar to
  -- the first than the threshold; the finding lists exactly these prompts. Else nothing.
  pub record IsWatched (d : DriftDetector fl) (event : Event)
      (r : Option (DriftDetector fl × List (Finding F))) : Type 0 where
    pub next : DriftDetector fl
    pub findings : List (Finding F)
    pub returns : r ≡ some (next, findings)
    pub kept : IsDrift next
    pub once : (session_of fl d event.session_id).emitted_finding ≡ true → findings ≡ []
    pub at_most_one : length findings ≤ 1
    pub marked :
        (session_of fl next event.session_id).emitted_finding
        ≡ ((session_of fl d event.session_id).emitted_finding || not (is_nil findings))
    pub listed :
        let sess = session_of fl next event.session_id in
        All
          (λ (f : Finding F).
            f.event_ids ≡ drifted_ids fl d.similarity_threshold sess.prompts sess.prompt_ids)
          findings
    pub prompts :
        (session_of fl next event.session_id).prompts
        ≡ (session_of fl d event.session_id).prompts ++ contents_of event
    pub prompt_ids :
        (session_of fl next event.session_id).prompt_ids
        ≡ (session_of fl d event.session_id).prompt_ids ++ ids_of event
    pub when :
        let sess = session_of fl next event.session_id in
        not (is_nil findings) ≡ (
          not (is_nil (contents_of event))
          && leb d.min_prompts (length sess.prompts)
          && not (session_of fl d event.session_id).emitted_finding
          && not (is_nil (drifted_ids fl d.similarity_threshold sess.prompts sess.prompt_ids)))

  unchanged-IsWatched :
      (d : DriftDetector fl) (event : Event)
      → IsDrift d
      → contents_of event ≡ []
      → ids_of event ≡ []
      → IsWatched d event (some (d, []))
  unchanged-IsWatched d event h c c' =
      let old = session_of fl d event.session_id in
      record {
        next = d;
        findings = [];
        returns = refl;
        kept = h;
        once = λ e. refl;
        at_most_one = omega arith;
        marked = ground arith;
        listed = tt;
        prompts = sym (append_nil old.prompts) ∙ ap (λ l. old.prompts ++ l) (sym c);
        prompt_ids = sym (append_nil old.prompt_ids) ∙ ap (λ l. old.prompt_ids ++ l) (sym c');
        when = let no_prompt = ap is_nil c in ground (arith, no_prompt);
      }

  appended : DriftDetector fl → Event → PromptData → DriftSession
  appended d event prompt = append_prompt event prompt (session_of fl d event.session_id)

  appended-paired :
      (d : DriftDetector fl) (event : Event) (prompt : PromptData)
      → IsDrift d
      → (length (appended d event prompt).prompt_ids ≡ length (appended d event prompt).prompts)
        × (1 ≤ length (appended d event prompt).prompts)
        × ((appended d event prompt).emitted_finding
            ≡ (session_of fl d event.session_id).emitted_finding)
  unfolding appended append_prompt
  appended-paired d event prompt h =
      let old = session_of fl d event.session_id in
      (
        omega (
          arith,
          h.paired event.session_id,
          length-append old.prompts (prompt.content ∷ []),
          length-append old.prompt_ids (event.id ∷ []),
        ),
        omega (arith, length-append old.prompts (prompt.content ∷ [])),
        refl,
      )

  session_of-insert :
      (d : DriftDetector fl) (id other : String) (sess : DriftSession)
      → session_of fl (record d { sessions = insert id sess d.sessions }) other
        ≡ (if other == id then sess else session_of fl d other)
  unfolding session_of
  session_of-insert d id other sess = get_or-insert new_drift_session id other sess d.sessions

  store-IsWatched :
      (d : DriftDetector fl) (event : Event) (sess : DriftSession)
      (r : Option (DriftSession × List (Finding F)))
      → IsDrift d
      → length sess.prompt_ids ≡ length sess.prompts
      → sess.emitted_finding ≡ (session_of fl d event.session_id).emitted_finding
      → sess.prompts ≡ (session_of fl d event.session_id).prompts ++ contents_of event
      → sess.prompt_ids ≡ (session_of fl d event.session_id).prompt_ids ++ ids_of event
      → is_nil (contents_of event) ≡ false
      → IsDetected fl d sess r
      → IsWatched d event (
          r >>= λ (s, findings).
          some (record d { sessions = insert event.session_id s d.sessions }, findings))
  store-IsWatched d event sess r h paired same more more' some_prompt found =
      let id = event.session_id in
      let sess' : DriftSession = record sess { emitted_finding = found.emitted } in
      let next : DriftDetector fl = record d { sessions = insert id sess' d.sessions } in
      let at : session_of fl next id ≡ sess' =
        session_of-insert d id id sess' ∙ ground (arith, eq_refl id) in
      record {
        next = next;
        findings = found.findings;
        returns = bind_some r (sess', found.findings) _ found.returns;
        kept = record {
          paired = λ other.
              subst (λ (s : DriftSession). length s.prompt_ids ≡ length s.prompts)
                (sym (session_of-insert d id other sess'))
                (if_ind (λ (s : DriftSession). length s.prompt_ids ≡ length s.prompts) (other == id)
                  (λ t. paired) (λ t. h.paired other));
        };
        once = λ e. found.once (same ∙ e);
        at_most_one = found.at_most_one;
        marked =
            ap (λ (s : DriftSession). s.emitted_finding) at
            ∙ found.marked
            ∙ ap (λ b. b || not (is_nil found.findings)) same;
        listed =
            subst
              (λ (s : DriftSession).
                All
                  (λ (f : Finding F).
                    f.event_ids ≡ drifted_ids fl d.similarity_threshold s.prompts s.prompt_ids)
                  found.findings)
              (sym at) found.listed;
        prompts = ap (λ (s : DriftSession). s.prompts) at ∙ more;
        prompt_ids = ap (λ (s : DriftSession). s.prompt_ids) at ∙ more';
        when =
            subst
              (λ (s : DriftSession). not (is_nil found.findings) ≡ (
                not (is_nil (contents_of event))
                && leb d.min_prompts (length s.prompts)
                && not (session_of fl d id).emitted_finding
                && not (is_nil (drifted_ids fl d.similarity_threshold s.prompts s.prompt_ids))))
              (sym at) (ground (arith, found.when, same, some_prompt));
      }

  appended-taken :
      (d : DriftDetector fl) (event : Event) (prompt : PromptData)
      → event.prompt ≡ some prompt
      → (event.type == event_prompt) ≡ true
      → ((appended d event prompt).prompts
          ≡ (session_of fl d event.session_id).prompts ++ contents_of event)
        × ((appended d event prompt).prompt_ids
            ≡ (session_of fl d event.session_id).prompt_ids ++ ids_of event)
        × (is_nil (contents_of event) ≡ false)
  unfolding appended append_prompt
  appended-taken d event prompt is t =
      let content : contents_of event ≡ prompt.content ∷ [] = ground (arith, is, t) in
      let ids : ids_of event ≡ event.id ∷ [] = ground (arith, is, t) in
      let old = session_of fl d event.session_id in
      (
        ap (λ l. old.prompts ++ l) (sym content),
        ap (λ l. old.prompt_ids ++ l) (sym ids),
        ap is_nil content,
      )

  analyze_prompt-IsWatched :
      (d : DriftDetector fl) (event : Event) (prompt : Option PromptData)
      → event.prompt ≡ prompt
      → IsDrift d
      → IsWatched d event (analyze_prompt fl d event prompt)
  unfolding analyze_prompt appended
  analyze_prompt-IsWatched d event none is h =
      unchanged-IsWatched d event h (ground (arith, is)) (ground (arith, is))
  analyze_prompt-IsWatched d event (some prompt) is h =
      let sess = appended d event prompt in
      let (paired, some_prompt, same) = appended-paired d event prompt h in
      if_ind (IsWatched d event) (event.type == event_prompt)
        (λ t.
          let (more, more', taken) = appended-taken d event prompt is t in
          store-IsWatched d event sess (detect_drift fl d event sess) h paired same more more' taken
            (detect_drift-IsDetected fl d event sess paired some_prompt))
        (λ t. unchanged-IsWatched d event h (ground (arith, t)) (ground (arith, t)))

  -- On any event, Analyze of DriftDetector returns without a panic. It adds the content and the id
  -- of a prompt to the event's session. It has a finding exactly if the event is a prompt with which
  -- the session has min_prompts prompts or more, the session has not been reported before, and a
  -- later prompt is less similar to the first one than the threshold; it is one finding, it lists
  -- exactly these prompts, and the session then counts as reported.
  pub analyze-IsWatched :
      (d : DriftDetector fl) (event : Event) → IsDrift d → IsWatched d event (analyze fl d event)
  unfolding analyze
  analyze-IsWatched d event h = analyze_prompt-IsWatched d event event.prompt refl h
