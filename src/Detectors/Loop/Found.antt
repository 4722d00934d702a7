-- ===== src/Detectors/Loop/Found.antt =====
-- The search of internal/analyzer/detectors/loop.go: it ends without a panic, and what it finds.
use agent_transponder.Prelude.{
  ℕ, suc, ◌+◌, ◌-◌, ◌*◌, ◌≤◌, ◌<◌, ◌≡◌, refl, sym, subst, ap, ◌∙◌, String, Bool, true, false,
  if_ind, Option, some, List, [], ◌∷◌, ◌++◌, map, length, take, drop, get_elem?, any, All,
  All-append, leb, leb→le, eqb, append_assoc, append_nil, if◌then◌else◌, arith,
}
use agent_transponder.Prelude.Float.{Float}
use agent_transponder.Prelude.Loops.{while_lem, bind_some, IsRound}
use agent_transponder.Types.Event.{Event}
use agent_transponder.Detectors.Finding.{Finding, has, put}
use agent_transponder.Detectors.Loop.{
  LoopDetector, LoopSession, Search, slice, count_reps, positions, loop_finding, report, report_at,
  examine, visit_window, visit, in_range, scan,
}
use agent_transponder.Detectors.Loop.Starts.{first_id, NoDup, NoDup-snoc, map-append}
use agent_transponder.Detectors.Loop.Spans.{
  slice_within, drop-get_elem?, repeated, IsRun, count_reps-IsRun, product_positive, product_more,
}

module _ (fl : Float) where
  open fl use {F}

  -- A finding on a sequence of calls: a window that is long enough, as often in a row as it takes.
  pub record IsLoop (d : LoopDetector) (names ids : List String) (f : Finding F) : Type 0 where
    pub i : ℕ
    pub seq_len : ℕ
    pub reps : ℕ
    pub long : d.min_seq_len ≤ seq_len
    pub often : d.min_reps ≤ reps
    pub inside : i + seq_len * reps ≤ length names
    pub involved : f.event_ids ≡ take (seq_len * reps) (drop i ids)
    pub same : take (seq_len * reps) (drop i names) ≡ repeated reps (take seq_len (drop i names))

  -- The findings of a search are loops, and no two begin at the same event.
  pub record IsSearch (d : LoopDetector) (sess : LoopSession) (s : Search fl) : Type 0 where
    pub loops : All (IsLoop d sess.tool_names sess.event_ids) s.findings
    pub starts : s.emitted ≡ sess.emitted_start_ids ++ map (λ f. first_id f.event_ids) s.findings
    pub distinct : NoDup sess.emitted_start_ids → NoDup s.emitted

  module _ (d : LoopDetector) (event : Event) (sess : LoopSession) (seq_len : ℕ)
      (paired : length sess.event_ids ≡ length sess.tool_names) (positive : 1 ≤ seq_len)
      (long : d.min_seq_len ≤ seq_len) where
    abbrev n : ℕ
    n = length sess.tool_names

    -- What is ahead of a position.
    abbrev Round : ℕ × Search fl → Option (ℕ × Search fl) → Type 0
    Round p r = IsRound (λ (q : ℕ × Search fl). IsSearch d sess q.1) (λ q. suc n - q.0) p r

    -- A finding is added unless its start is known.
    added-IsSearch :
        (c : Bool) (f : Finding F) (reported : List ℕ) (s : Search fl)
        → has (first_id f.event_ids) s.emitted ≡ c
        → IsLoop d sess.tool_names sess.event_ids f
        → IsSearch d sess s
        → IsSearch d sess (record {
          emitted = if c then s.emitted else s.emitted ++ first_id f.event_ids ∷ [];
          reported = reported;
          findings = s.findings ++ (if c then [] else f ∷ []);
        })
    added-IsSearch true f reported s known loop h = record {
      loops = All-append (IsLoop d sess.tool_names sess.event_ids) s.findings [] h.loops tt;
      starts =
          h.starts
          ∙ ap (λ l. sess.emitted_start_ids ++ map (λ g. first_id g.event_ids) l)
              (sym (append_nil s.findings));
      distinct = h.distinct;
    }
    added-IsSearch false f reported s known loop h = record {
      loops =
          All-append (IsLoop d sess.tool_names sess.event_ids) s.findings (f ∷ []) h.loops
            (loop, tt);
      starts =
          ap (λ l. l ++ first_id f.event_ids ∷ []) h.starts
          ∙ append_assoc sess.emitted_start_ids (map (λ g. first_id g.event_ids) s.findings)
              (first_id f.event_ids ∷ [])
          ∙ ap (λ l. sess.emitted_start_ids ++ l)
              (sym (map-append (λ g. first_id g.event_ids) s.findings (f ∷ [])));
      distinct = λ n. NoDup-snoc (first_id f.event_ids) s.emitted known (h.distinct n);
    }

    report-IsSearch :
        (i reps : ℕ) (j : ℕ) (s : Search fl) (start_key : String) (rest : List String)
        → d.min_reps ≤ reps
        → IsRun sess.tool_names i seq_len (reps, j)
        → take (seq_len * reps) (drop i sess.event_ids) ≡ start_key ∷ rest
        → IsSearch d sess s
        → IsSearch d sess (
            report fl d event
              (take seq_len (drop i sess.tool_names))
              (take (seq_len * reps) (drop i sess.event_ids))
              seq_len
              reps
              i
              start_key
              s)
    unfolding report loop_finding
    report-IsSearch i reps j s start_key rest often run start h =
        let f =
          loop_finding fl d event (take seq_len (drop i sess.tool_names))
            (take (seq_len * reps) (drop i sess.event_ids)) seq_len reps i
            (put start_key s.emitted) in
        let key : first_id (take (seq_len * reps) (drop i sess.event_ids)) ≡ start_key =
          ap first_id start in
        let loop : IsLoop d sess.tool_names sess.event_ids f = record {
          i = i;
          seq_len = seq_len;
          reps = reps;
          long = long;
          often = often;
          inside = omega (arith, run.inside, run.at);
          involved = refl;
          same = run.same;
        } in
        subst
          (λ (k : String). IsSearch d sess (record {
            emitted = if has k s.emitted then s.emitted else s.emitted ++ k ∷ [];
            reported = s.reported ++ positions i (seq_len * reps);
            findings = s.findings ++ (if has k s.emitted then [] else f ∷ []);
          }))
          key
          (added-IsSearch (has (first_id f.event_ids) s.emitted) f
            (s.reported ++ positions i (seq_len * reps)) s refl loop h)

    report_at-IsRound :
        (i reps j : ℕ) (s : Search fl)
        → i < n
        → d.min_reps ≤ reps
        → IsRun sess.tool_names i seq_len (reps, j)
        → IsSearch d sess s
        → Round
            (i, s)
            (report_at fl d event sess seq_len i (take seq_len (drop i sess.tool_names)) reps s)
    unfolding report_at
    report_at-IsRound i reps j s h often run inv =
        let width = seq_len * reps in
        let ids = sess.event_ids in
        let fits : i + width ≤ length ids = omega (arith, paired, run.inside, run.at) in
        let wide : suc (width - 1) ≡ width =
          omega (arith, product_positive seq_len reps positive run.some_reps) in
        let (start_key, rest, found, start) =
          drop-get_elem? i (width - 1) ids (omega (arith, fits, h, paired)) in
        let involved : slice i (i + width) ids ≡ some (take width (drop i ids)) =
          slice_within i (i + width) ids (omega arith) fits
          ∙ ap (λ k. some (take k (drop i ids))) (omega arith) in
        record {
          next = (
            i + width,
            report fl d event (take seq_len (drop i sess.tool_names)) (take width (drop i ids))
                seq_len reps i start_key s,
          );
          returns =
              bind_some (slice i (i + width) ids) (take width (drop i ids)) _ involved
              ∙ bind_some (get_elem? ids i) start_key _ found;
          kept =
              report-IsSearch i reps j s start_key rest often run
                (subst (λ k. take k (drop i ids) ≡ start_key ∷ rest) wide start) inv;
          less = omega (arith, h, wide);
        }

    examine-IsRound :
        (i reps j : ℕ) (s : Search fl)
        → i < n
        → IsRun sess.tool_names i seq_len (reps, j)
        → IsSearch d sess s
        → Round
            (i, s)
            (examine fl d event sess seq_len i (take seq_len (drop i sess.tool_names)) reps s)
    unfolding examine
    examine-IsRound i reps j s h run inv =
        if_ind (Round (i, s)) (leb d.min_reps reps)
          (λ t. report_at-IsRound i reps j s h (leb→le d.min_reps reps t) run inv)
          (λ t. record { next = (suc i, s); returns = refl; kept = inv; less = omega (arith, h) })

    visit_window-IsRound :
        (i : ℕ) (s : Search fl)
        → i + seq_len ≤ n
        → IsSearch d sess s
        → Round (i, s) (visit_window fl d event sess seq_len i s)
    unfolding visit_window
    visit_window-IsRound i s fits inv =
        let names = sess.tool_names in
        let window = take seq_len (drop i names) in
        let run = count_reps-IsRun names i seq_len positive fits in
        let sliced : slice i (i + seq_len) names ≡ some window =
          slice_within i (i + seq_len) names (omega arith) fits
          ∙ ap (λ k. some (take k (drop i names))) (omega arith) in
        let all =
          bind_some (slice i (i + seq_len) names) window _ sliced
          ∙ bind_some (count_reps names window seq_len i) run.state _ run.ends in
        subst (Round (i, s)) (sym all) (
          examine-IsRound i run.state.0 run.state.1 s (omega (arith, fits, positive)) run.holds inv)

    visit-IsRound :
        (1 ≤ d.min_reps)
        → (p : ℕ × Search fl) → IsSearch d sess p.1
        → in_range fl d sess seq_len p ≡ true
        → Round p (visit fl d event sess seq_len p)
    unfolding visit in_range
    visit-IsRound many (i, s) inv t =
        let ahead : i + seq_len * d.min_reps ≤ n = leb→le (i + seq_len * d.min_reps) n t in
        let fits : i + seq_len ≤ n = omega (arith, ahead, product_more seq_len d.min_reps many) in
        if_ind (Round (i, s)) (any (eqb i) s.reported)
          (λ e. record {
            next = (suc i, s);
            returns = refl;
            kept = inv;
            less = omega (arith, fits, positive);
          })
          (λ e. visit_window-IsRound i s fits inv)

    -- One pass over the positions.
    pub scan-IsSearch :
        1 ≤ d.min_reps
        → (s : Search fl) → IsSearch d sess s
        → (s' : Search fl) × (scan fl d event sess (seq_len, s) ≡ some (suc seq_len, s'))
          × IsSearch d sess s'
    unfolding scan
    scan-IsSearch many s inv =
        let round =
          while_lem (λ (q : ℕ × Search fl). IsSearch d sess q.1) (λ q. suc n - q.0)
            (in_range fl d sess seq_len) (visit fl d event sess seq_len) (visit-IsRound many)
            (suc (suc n)) (0, s) (omega arith) inv in
        (round.state.1, bind_some _ round.state _ round.ends, round.holds)
