-- ===== src/Analyzer/Service.antt =====
-- internal/analyzer/analyzer.go and detector.go: Detector and Analyzer. A detector carries its
-- state. The findings files are the lines written, each with its file's name.
use agent_transponder.Prelude.{
  ℕ, String, Bool, true, false, Option, none, some, List, [], ◌∷◌, ◌++◌, map, take, get_or,
  str_append, if◌then◌else◌,
}
use agent_transponder.Prelude.Int.{pos}
use agent_transponder.Prelude.Float.{Float}
use agent_transponder.Prelude.Result.{Result, ok, err}
use agent_transponder.Types.Event.{Event, Time, after}
use agent_transponder.Detectors.Finding.{Finding}
use agent_transponder.Analyzer.Reader.{read_new_events}
use agent_transponder.Analyzer.Cursor.{
  Cursor, Saved, SaveStep, LoadError, load_cursor, get, set, save,
}

module _ (fl : Float) where
  open fl use {F}

  -- Analyze returns findings or an error, `none`.
  pub record Detector : Type 1 where
    pub State : Type 0
    pub state : State
    pub name : String
    pub analyze : Event → State → State × Option (List (Finding F))
    pub reset : State → State

  -- One event through all detectors: an error is passed over.
  unfoldable pub dispatch : Event → List Detector → List Detector × List (Finding F)
  dispatch event [] = ([], [])
  dispatch event (det ∷ detectors) =
      let (state, found) = det.analyze event det.state in
      let (later, rest) = dispatch event detectors in
      (record det { state = state } ∷ later, get_or [] found ++ rest)

  unfoldable pub run_detectors : List Event → List Detector → List Detector × List (Finding F)
  run_detectors [] detectors = (detectors, [])
  run_detectors (event ∷ events) detectors =
      let (detectors', found) = dispatch event detectors in
      let (later, rest) = run_detectors events detectors' in (later, found ++ rest)

  pub record Analyzer : Type 1 where
    pub detectors : List Detector
    pub cursor : Cursor
    pub last_processed : Time
    -- The findings directory: the lines of findings, and the cursor file.
    pub findings : List (String × Finding F)
    pub saved : Saved

  -- New, when the directories can be made and opened.
  unfoldable pub new_analyzer :
      List Detector → List (String × Finding F) → Saved → Result LoadError Analyzer
  new_analyzer detectors findings saved = elim (load_cursor saved) [
    | ok cursor ↦ ok (record {
      detectors = detectors;
      cursor = cursor;
      last_processed = pos 0;
      findings = findings;
      saved = saved;
    })
    | err e ↦ err e
  ]

  -- What happens outside while one file is read. `written` is how many findings are written before
  -- opening or encoding fails, or `none` if nothing fails.
  pub record Outside : Type 0 where
    pub cancelled : Bool
    pub opens : Bool
    pub contents : List ℕ
    pub today : String
    pub written : Option ℕ
    pub now : Time

  abbrev pub findings_file : String → String
  findings_file today = str_append "findings-" (str_append today ".jsonl")

  -- The findings before the first one that fails. What its own write leaves is not modelled.
  unfoldable pub encode_lines :
      String → Option ℕ → List (Finding F) → List (String × Finding F) × Bool
  encode_lines file none findings = (map (λ f. (file, f)) findings, true)
  encode_lines file (some k) findings = (map (λ f. (file, f)) (take k findings), false)

  unfoldable pub write_findings : Outside → List (Finding F) → List (String × Finding F) × Bool
  write_findings out findings = encode_lines (findings_file out.today) out.written findings

  -- The timestamp of the last event, where there is one.
  unfoldable pub last_timestamp : Time → List Event → Time
  last_timestamp t [] = t
  last_timestamp t (event ∷ events) = last_timestamp event.timestamp events

  -- The cursor and the time of the last event, once the findings are written.
  unfoldable pub advance : String → ℕ → Outside → List Event → Analyzer → Analyzer
  advance path offset out events a =
      let last = last_timestamp (pos 0) events in
      record a {
        cursor = set path (record { offset = offset; last_read = out.now }) a.cursor;
        last_processed = if after last a.last_processed then last else a.last_processed;
      }

  -- The findings are written, where there are any, and if that succeeds the cursor moves.
  unfoldable pub settle : String → ℕ → Outside → List Event → List (Finding F) → Analyzer → Analyzer
  settle path offset out events [] a = advance path offset out events a
  settle path offset out events (f ∷ found) a =
      let (lines, complete) = write_findings out (f ∷ found) in
      let a' : Analyzer = record a { findings = a.findings ++ lines } in
      let advanced = advance path offset out events a' in if complete then advanced else a'

  -- The events of a file through the detectors, when there are any.
  unfoldable pub process : String → ℕ → Outside → List Event → Analyzer → Analyzer
  process path offset out [] a = a
  process path offset out (event ∷ events) a =
      let (detectors, found) = run_detectors (event ∷ events) a.detectors in
      settle path offset out (event ∷ events) found (record a { detectors = detectors })

  unfoldable pub poll_file : (List ℕ → Option Event) → String → Outside → Analyzer → Analyzer
  poll_file unmarshal path out a =
      let (events, offset) = read_new_events unmarshal out.contents (get path a.cursor).offset in
      if out.opens then process path offset out events a else a

  pub data PollError : Type 0 where
    list_event_files : PollError
    context : PollError
    save_cursor : SaveStep → PollError

  unfoldable pub poll_files :
      (List ℕ → Option Event) → List (String × Outside) → Analyzer → Analyzer × Option PollError
  poll_files unmarshal [] a = (a, none)
  poll_files unmarshal ((path, out) ∷ files) a =
      let later = poll_files unmarshal files (poll_file unmarshal path out a) in
      if out.cancelled then (a, some context) else later

  unfoldable pub save_after :
      Option SaveStep → Analyzer × Option PollError → Analyzer × Option PollError
  save_after fails (a, some e) = (a, some e)
  save_after fails (a, none) =
      let (saved, failed) = save fails a.cursor a.saved in
      (
        record a { saved = saved },
        elim failed [ none ↦ none | some step ↦ some (save_cursor step) ],
      )

  -- poll: the files are none when the directory cannot be walked.
  unfoldable pub poll :
      (List ℕ → Option Event)
      → Option (List (String × Outside))
      → Option SaveStep
      → Analyzer
      → Analyzer × Option PollError
  poll unmarshal none fails a = (a, some list_event_files)
  poll unmarshal (some files) fails a = save_after fails (poll_files unmarshal files a)

  pub record DetectorStatus : Type 0 where
    pub name : String
    pub enabled : Bool

  unfoldable pub detector_status : Analyzer → List DetectorStatus
  detector_status a = map (λ (d : Detector). record { name = d.name; enabled = true }) a.detectors
