-- ===== src/Detectors/Loop.antt =====
-- internal/analyzer/detectors/loop.go: LoopDetector. A slice expression or an index out of range is
-- a panic, `none`. The products of configured numbers stay below 2 ^ 63.
pub mod Spans
pub mod Starts
pub mod Sessions
pub mod Found
pub mod Reported
pub mod Silent
pub mod Complete
use agent_transponder.Prelude.{
  ℕ, zero, suc, ◌+◌, ◌-◌, ◌*◌, ◌/◌, String, ◌==◌, Bool, true, false, not, ◌&&◌, ◌||◌, Option, none,
  some, List, [], ◌∷◌, ◌++◌, length, take, drop, get_elem?, any, leb, ltb, eqb, if◌then◌else◌,
  get_or,
}
use agent_transponder.Prelude.Int.{ℤ, pos, negsuc, pos_part, ◌-ℤ◌, ltb_ℤ, leb_ℤ}
use agent_transponder.Prelude.Maps.{Map, lookup, insert}
use agent_transponder.Prelude.Float.{Float}
use agent_transponder.Prelude.Loops.{while, ◌>>=◌}
use agent_transponder.Types.Event.{
  Event, Time, before, event_tool_call, severity_warning, ToolCallData,
}
use agent_transponder.Detectors.Finding.{
  Finding, Formatted, Arg, text, texts, number, has, put, detection_loop, min_float, round2,
}

pub record LoopSession : Type 0 where
  pub tool_names : List String
  pub event_ids : List String
  pub times : List Time
  pub emitted_start_ids : List String

abbrev pub new_loop_session : LoopSession
new_loop_session = record { tool_names = []; event_ids = []; times = []; emitted_start_ids = [] }

pub record LoopDetector : Type 0 where
  pub min_seq_len : ℕ
  pub min_reps : ℕ
  pub window_seconds : ℤ
  pub sessions : Map LoopSession

unfoldable pub new_loop_detector_full : ℤ → ℤ → ℤ → LoopDetector
new_loop_detector_full threshold window_seconds min_seq_len = record {
  min_seq_len = if leb_ℤ min_seq_len (pos 0) then 2 else pos_part min_seq_len;
  min_reps = if leb_ℤ threshold (pos 0) then 3 else pos_part threshold;
  window_seconds = window_seconds;
  sessions = [];
}

unfoldable pub new_loop_detector : ℤ → ℤ → LoopDetector
new_loop_detector threshold window_seconds = new_loop_detector_full threshold window_seconds (pos 2)

abbrev pub name : String
name = "LoopDetector"

unfoldable pub reset : LoopDetector → LoopDetector
reset d = record d { sessions = [] }

-- xs[i:j]
unfoldable pub slice {ℓ} : {A : Type ℓ} → ℕ → ℕ → List A → Option (List A)
slice i j xs = if leb i j && leb j (length xs) then some (take (j - i) (drop i xs)) else none

unfoldable pub slice_eq : List String → List String → Bool
slice_eq [] [] = true
slice_eq [] (b ∷ bs) = false
slice_eq (a ∷ as') [] = false
slice_eq (a ∷ as') (b ∷ bs) = a == b && slice_eq as' bs

-- The inner loop: the repetitions `reps` and the position `j` behind them.
unfoldable pub repeats : List String → List String → ℕ → ℕ × ℕ → Bool
repeats names window seq_len (reps, j) =
    leb (j + seq_len) (length names) && slice_eq (take seq_len (drop j names)) window

unfoldable pub count_reps : List String → List String → ℕ → ℕ → Option (ℕ × ℕ)
count_reps names window seq_len i =
    while (suc (length names)) (repeats names window seq_len)
      (λ (reps, j). some (suc reps, j + seq_len)) (1, i + seq_len)

-- The positions from i up to n.
unfoldable pub positions : ℕ → ℕ → List ℕ
positions i zero = []
positions i (suc n) = i ∷ positions (suc i) n

-- time.Duration(d.windowSeconds) * time.Second
abbrev pub seconds_long : ℤ → ℤ
seconds_long (pos n) = pos (n * 1_000_000_000)
seconds_long (negsuc n) = negsuc (suc n * 1_000_000_000 - 1)

unfoldable pub first_within : Time → List Time → ℕ
first_within cutoff [] = 0
first_within cutoff (t ∷ times) =
    let later = first_within cutoff times in if before t cutoff then suc later else 0

unfoldable pub trim : ℤ → Time → LoopSession → LoopSession
trim window_seconds now sess =
    let first = first_within (now -ℤ seconds_long window_seconds) sess.times in
    if ltb_ℤ (pos 0) window_seconds && ltb 0 first
    then record sess {
      tool_names = drop first sess.tool_names;
      event_ids = drop first sess.event_ids;
      times = drop first sess.times;
    }
    else sess

unfoldable pub append_call : Event → ToolCallData → LoopSession → LoopSession
append_call event call sess = record sess {
  tool_names = sess.tool_names ++ call.tool_name ∷ [];
  event_ids = sess.event_ids ++ event.id ∷ [];
  times = sess.times ++ event.timestamp ∷ [];
}

module _ (fl : Float) where
  open fl use {F, of_int, lit, add, mul}

  pub record Search : Type 0 where
    pub emitted : List String
    pub reported : List ℕ
    pub findings : List (Finding F)

  unfoldable pub loop_finding :
      LoopDetector → Event → List String → List String → ℕ → ℕ → ℕ → List String → Finding F
  loop_finding d event window involved seq_len reps i emitted = record {
    id = record {
      format = "loop-%s-%d";
      args = text event.session_id ∷ number (pos (length emitted)) ∷ [];
    };
    session_id = event.session_id;
    agent_id = event.agent_id;
    tenant_id = event.tenant_id;
    timestamp = event.timestamp;
    detector = name;
    type = detection_loop;
    severity = severity_warning;
    confidence =
        round2 fl (
          min_float fl (add (lit 5 1) (mul (of_int (pos (reps - d.min_reps))) (lit 1 1)))
            (lit 1 0));
    message = record {
      format = "Tool-call sequence %v repeated %dx (threshold: %d)";
      args = texts window ∷ number (pos reps) ∷ number (pos d.min_reps) ∷ [];
    };
    event_ids = involved;
    evidence = record {
      format =
          "Sequence of length %d repeated %d consecutive times starting at position %d in the tool-call stream.";
      args = number (pos seq_len) ∷ number (pos reps) ∷ number (pos i) ∷ [];
    };
  }

  -- A loop found at i.
  unfoldable pub report :
      LoopDetector → Event → List String → List String → ℕ → ℕ → ℕ → String → Search → Search
  report d event window involved seq_len reps i start_key s =
      let emitted = put start_key s.emitted in
      record {
        emitted = emitted;
        reported = s.reported ++ positions i (seq_len * reps);
        findings =
            s.findings
            ++ (if has start_key s.emitted
                then []
                else loop_finding d event window involved seq_len reps i emitted ∷ []);
      }

  -- The rest of a round of the loop over the positions, when the window repeats `reps` times.
  unfoldable pub report_at :
      LoopDetector → Event → LoopSession → ℕ → ℕ → List String → ℕ → Search → Option (ℕ × Search)
  report_at d event sess seq_len i window reps s =
      slice i (i + seq_len * reps) sess.event_ids >>= λ involved.
      get_elem? sess.event_ids i >>= λ start_key.
      some (i + seq_len * reps, report d event window involved seq_len reps i start_key s)

  unfoldable pub examine :
      LoopDetector → Event → LoopSession → ℕ → ℕ → List String → ℕ → Search → Option (ℕ × Search)
  examine d event sess seq_len i window reps s =
      if leb d.min_reps reps
      then report_at d event sess seq_len i window reps s
      else some (suc i, s)

  unfoldable pub visit_window :
      LoopDetector → Event → LoopSession → ℕ → ℕ → Search → Option (ℕ × Search)
  visit_window d event sess seq_len i s = slice i (i + seq_len) sess.tool_names >>= λ window.
      count_reps sess.tool_names window seq_len i >>= λ (reps, j).
      examine d event sess seq_len i window reps s

  unfoldable pub visit : LoopDetector → Event → LoopSession → ℕ → ℕ × Search → Option (ℕ × Search)
  visit d event sess seq_len (i, s) =
      if any (eqb i) s.reported then some (suc i, s) else visit_window d event sess seq_len i s

  unfoldable pub in_range : LoopDetector → LoopSession → ℕ → ℕ × Search → Bool
  in_range d sess seq_len (i, s) = leb (i + seq_len * d.min_reps) (length sess.tool_names)

  unfoldable pub scan : LoopDetector → Event → LoopSession → ℕ × Search → Option (ℕ × Search)
  scan d event sess (seq_len, s) =
      while (suc (suc (length sess.tool_names))) (in_range d sess seq_len)
        (visit d event sess seq_len) (0, s)
      >>= λ (i, s'). some (suc seq_len, s')

  unfoldable pub within_max_len : LoopDetector → LoopSession → ℕ × Search → Bool
  within_max_len d sess (seq_len, s) = leb seq_len (length sess.tool_names / d.min_reps)

  unfoldable pub detect_loops :
      LoopDetector → Event → LoopSession → Option (LoopSession × List (Finding F))
  detect_loops d event sess =
      if ltb (length sess.tool_names) (d.min_seq_len * d.min_reps)
      then some (sess, [])
      else while (suc (length sess.tool_names)) (within_max_len d sess) (scan d event sess)
          (d.min_seq_len, record { emitted = sess.emitted_start_ids; reported = []; findings = [] })
        >>= λ (seq_len, s). some (record sess { emitted_start_ids = s.emitted }, s.findings)

  -- The session of an event, with the event.
  unfoldable pub session_of : LoopDetector → String → LoopSession
  session_of d id = get_or new_loop_session (lookup id d.sessions)

  unfoldable pub analyze_call :
      LoopDetector → Event → ToolCallData → Option (LoopDetector × List (Finding F))
  analyze_call d event call =
      detect_loops d event (
        trim d.window_seconds event.timestamp
          (append_call event call (session_of d event.session_id)))
      >>= λ (sess, findings).
          some (record d { sessions = insert event.session_id sess d.sessions }, findings)

  unfoldable pub analyze_tool_call :
      LoopDetector → Event → Option ToolCallData → Option (LoopDetector × List (Finding F))
  analyze_tool_call d event none = some (d, [])
  analyze_tool_call d event (some call) =
      if event.type == event_tool_call then analyze_call d event call else some (d, [])

  unfoldable pub analyze : LoopDetector → Event → Option (LoopDetector × List (Finding F))
  analyze d event = analyze_tool_call d event event.tool_call
