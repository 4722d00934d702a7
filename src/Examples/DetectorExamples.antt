-- ===== src/Examples/DetectorExamples.antt =====
-- The theorems on internal/analyzer/detectors and on the analyzer's poll at concrete inputs.
use agent_transponder.Prelude.{
  ◌≡◌, refl, sym, subst, ℕ, ◌≤◌, ◌==◌, if_ind, arith, String, false, none, some, List, [], ◌∷◌,
  ◌++◌,
}
use agent_transponder.Prelude.Int.{pos, ◌-ℤ◌}
use agent_transponder.Prelude.Maps.{lookup, insert}
use agent_transponder.Prelude.Loops.{while}
use agent_transponder.Prelude.Float.{milli}
use agent_transponder.Types.Event.{Event, event_tool_call, event_prompt, ToolCallData}
use agent_transponder.Detectors.Finding.{Finding}
use agent_transponder.Detectors.Loop
use agent_transponder.Detectors.Loop.{
  LoopDetector, LoopSession, new_loop_detector, new_loop_detector_full,
}
use agent_transponder.Detectors.Loop.Reported.{
  IsDetector, IsAnalyzed, new_loop_detector-IsDetector, session_of-insert, analyze-IsAnalyzed,
}
use agent_transponder.Detectors.Loop.Sessions.{IsSession}
use agent_transponder.Detectors.Loop.Silent.{IsRepeated}
use agent_transponder.Detectors.Loop.Complete.{analyze_noticed}
use agent_transponder.Detectors.ToolMisuse
use agent_transponder.Detectors.ToolMisuse.{
  Json, ToolMisuseDetector, new_tool_misuse_detector_full, new_tool_misuse_detector,
}
use agent_transponder.Detectors.Drift
use agent_transponder.Detectors.Drift.{
  DriftDetector, new_drift_detector, tokenise, token_set, find_all, word_char, lower, has_token,
  same_token,
}
use agent_transponder.Detectors.Drift.Reported.{
  IsDrift, IsWatched, new_drift_detector-IsDrift, analyze-IsWatched,
}
use agent_transponder.Examples.ForwarderExamples.{event}

-- A call of a tool that fails.
abbrev call : String → String → Event
call id tool = record event {
  id = id;
  type = event_tool_call;
  tool_call = some (record {
    tool_name = tool;
    error_msg = "no";
    arguments = none;
    result = none;
    retry_count = pos 1;
    success = false;
  });
}

abbrev prompt : String → String → Event
prompt id content = record event {
  id = id;
  type = event_prompt;
  prompt = some (record { content = content; role = "user"; token_count = pos 1 });
}

abbrev loop_ids : List (Finding ℕ) → List (List String)
loop_ids [] = []
loop_ids (f ∷ fs) = f.event_ids ∷ loop_ids fs

abbrev start : LoopDetector
unfolding new_loop_detector new_loop_detector_full
start = new_loop_detector (pos 2) (pos 60)

loop_step : LoopDetector × List (List String) → Event → LoopDetector × List (List String)
loop_step (d, found) e = elim (Loop.analyze milli d e) [
  | none ↦ (d, found)
  | some r ↦ (r.0, found ++ loop_ids r.1)
]

-- Two tools called in turn: the loop is reported once it was run through twice, and once only.
loop_found :
    (loop_step
      (loop_step
        (loop_step
          (loop_step
            (loop_step (loop_step (start, []) (call "1" "a")) (call "2" "b"))
            (call "3" "a"))
          (call "4" "b"))
        (call "5" "a"))
      (call "6" "b")).1
    ≡ ("1" ∷ "2" ∷ "3" ∷ "4" ∷ []) ∷ []
unfolding loop_step Loop.analyze Loop.analyze_tool_call Loop.analyze_call Loop.detect_loops
    Loop.scan Loop.visit Loop.visit_window Loop.examine Loop.report_at Loop.report Loop.loop_finding
    Loop.in_range Loop.within_max_len Loop.count_reps Loop.repeats Loop.slice_eq Loop.slice
    Loop.positions Loop.trim Loop.append_call Loop.first_within Loop.session_of lookup insert while
    ◌-ℤ◌ start
loop_found = refl

-- The detector after a call.
abbrev called :
    (d : LoopDetector) → IsDetector milli d → Event → (d' : LoopDetector) × IsDetector milli d'
called d h e = let r = analyze-IsAnalyzed milli d e h in (r.next, r.kept)

abbrev three : (d : LoopDetector) × IsDetector milli d
three =
    let one =
      called (new_loop_detector (pos 2) (pos 60))
        (new_loop_detector-IsDetector milli (pos 2) (pos 60)) (call "1" "a") in
    let two = called one.0 one.1 (call "2" "b") in called two.0 two.1 (call "3" "a")

analyze-IsAnalyzed_example :
    IsAnalyzed milli three.0 (call "4" "b") (Loop.analyze milli three.0 (call "4" "b"))
analyze-IsAnalyzed_example = analyze-IsAnalyzed milli three.0 (call "4" "b") three.1

-- A detector that has seen three calls of a session and reported nothing.
abbrev seen : LoopSession
seen = record {
  tool_names = "a" ∷ "b" ∷ "a" ∷ [];
  event_ids = "1" ∷ "2" ∷ "3" ∷ [];
  times = event.timestamp ∷ event.timestamp ∷ event.timestamp ∷ [];
  emitted_start_ids = [];
}

abbrev empty : LoopDetector
empty = record { min_seq_len = 2; min_reps = 2; window_seconds = pos 60; sessions = [] }

abbrev busy : LoopDetector
busy = record empty { sessions = insert event.session_id seen [] }

busy-IsDetector : IsDetector milli busy
unfolding Loop.session_of lookup insert
busy-IsDetector = record {
  long = omega arith;
  many = omega arith;
  session = λ id. subst IsSession (sym (session_of-insert milli empty event.session_id id seen)) (
      if_ind IsSession (id == event.session_id) (λ t. record { paired = refl; distinct = tt })
        (λ t. record { paired = refl; distinct = tt }));
}

busy_fresh : (Loop.session_of milli busy event.session_id).emitted_start_ids ≡ []
unfolding Loop.session_of lookup insert
busy_fresh = refl

analyze_noticed_example :
    (next : LoopDetector) × (findings : List (Finding ℕ)) × (Loop.analyze milli busy (call "4" "b")
      ≡ some (next, findings))
    × ((i len : ℕ)
        → 2 ≤ len
        → IsRepeated (Loop.session_of milli next event.session_id).tool_names 2 i len
        → ¬ (findings ≡ []))
analyze_noticed_example =
    analyze_noticed milli busy (call "4" "b")
      (record {
        tool_name = "b";
        error_msg = "no";
        arguments = none;
        result = none;
        retry_count = pos 1;
        success = false;
      })
      busy-IsDetector refl refl busy_fresh

-- Arguments are their own canonical form.
abbrev json : Json
json = record { Value = String; unmarshal = some; marshal = some }

abbrev fails : ToolCallData
fails = record {
  tool_name = "a";
  error_msg = "no";
  arguments = none;
  result = none;
  retry_count = pos 1;
  success = false;
}

abbrev strict : ToolMisuseDetector milli
strict = new_tool_misuse_detector milli (pos 1)

-- Two of three later prompts have no word of the first.
abbrev drift_step :
    (d : DriftDetector milli)
    → IsDrift milli d
    → Event
    → (d' : DriftDetector milli) × IsDrift milli d'
drift_step d h e = let r = analyze-IsWatched milli d e h in (r.next, r.kept)

abbrev two_prompts : (d : DriftDetector milli) × IsDrift milli d
two_prompts =
    let one =
      drift_step (new_drift_detector milli 300) (new_drift_detector-IsDrift milli 300)
        (prompt "1" "sum the table") in
    drift_step one.0 one.1 (prompt "2" "write a poem")

analyze-IsWatched_example :
    IsWatched milli two_prompts.0
      (prompt "3" "sum the rows")
      (Drift.analyze milli two_prompts.0 (prompt "3" "sum the rows"))
analyze-IsWatched_example =
    analyze-IsWatched milli two_prompts.0 (prompt "3" "sum the rows") two_prompts.1

-- Words are ASCII: of a text in another script no token is left.
tokenise_ascii :
    (tokenise "Sum, sum été" ≡ (115 ∷ 117 ∷ 109 ∷ []) ∷ (116 ∷ []) ∷ []) × (tokenise "日本" ≡ [])
unfolding tokenise token_set find_all word_char lower has_token same_token
tokenise_ascii = (refl, refl)
