-- ===== src/Examples/AnalyzerExamples.antt =====
-- The theorems on internal/analyzer at concrete inputs: a line that is 123 is the event.
use agent_transponder.Prelude.{
  ◌≡◌, refl, ℕ, Option, none, some, List, [], ◌∷◌, ◌++◌, eqb, if◌then◌else◌,
}
use agent_transponder.Prelude.{Bool, true, false, take}
use agent_transponder.Prelude.Int.{pos}
use agent_transponder.Prelude.Maps.{lookup, insert}
use agent_transponder.Prelude.Float.{milli}
use agent_transponder.Types.Event.{Event, severity_warning}
use agent_transponder.Detectors.Finding.{Finding, text, detection_loop}
use agent_transponder.Analyzer.Cursor.{missing, get, set}
use agent_transponder.Analyzer.Service.{
  Detector, dispatch, run_detectors, Analyzer, Outside, encode_lines, write_findings,
  last_timestamp, advance, settle, process, poll_file,
}
use agent_transponder.Analyzer.Settled.{reported}
use agent_transponder.Analyzer.Refined.{IsCaughtUp, poll_file-IsCaughtUp}
use agent_transponder.Analyzer.Failed.{poll_file-twice}
use agent_transponder.Analyzer.Reader.{read_new_events, read_lines, read_loop, event_in, trim_end}
use agent_transponder.Analyzer.Resumed.{read_new_events_torn}
use agent_transponder.Examples.ForwarderExamples.{event}

abbrev unmarshal : List ℕ → Option Event
unmarshal [] = none
unmarshal (c ∷ line) = if eqb c 123 then some event else none

abbrev old : List ℕ
old = 123 ∷ 125 ∷ 13 ∷ 10 ∷ 7 ∷ 10 ∷ []

abbrev more : List ℕ
more = 10 ∷ 123 ∷ 10 ∷ []

read_new_events_torn_example :
    let reached = (read_new_events unmarshal (123 ∷ []) 0).1 in
    (reached ≡ 1)
    × ((read_new_events unmarshal ((123 ∷ []) ++ 125 ∷ 10 ∷ []) reached).0
        ≡ (read_new_events unmarshal (125 ∷ 10 ∷ []) 0).0)
read_new_events_torn_example = read_new_events_torn unmarshal (123 ∷ []) (125 ∷ 10 ∷ [])

abbrev pub found : Event → Finding ℕ
found e = record {
  id = record { format = "first-%s"; args = text e.session_id ∷ [] };
  session_id = e.session_id;
  agent_id = e.agent_id;
  tenant_id = e.tenant_id;
  timestamp = e.timestamp;
  detector = "First";
  type = detection_loop;
  severity = severity_warning;
  confidence = 1000;
  message = record { format = ""; args = [] };
  event_ids = e.id ∷ [];
  evidence = record { format = ""; args = [] };
}

-- A detector that reports the first event that it sees, and no other.
abbrev first_only : Detector milli
first_only = record {
  State = Bool;
  state = false;
  name = "First";
  analyze = λ e seen. (true, some (if seen then [] else found e ∷ []));
  reset = λ seen. false;
}

abbrev fresh : Analyzer milli
fresh = record {
  detectors = first_only ∷ [];
  cursor = [];
  last_processed = pos 0;
  findings = [];
  saved = missing;
}

abbrev outside : List ℕ → Option ℕ → Outside milli
outside contents written = record {
  cancelled = false;
  opens = true;
  contents = contents;
  today = "2026-01-02";
  written = written;
  now = pos 1;
}

fresh-IsCaughtUp : IsCaughtUp milli unmarshal (first_only ∷ []) "a/1.jsonl" [] fresh
unfolding read_new_events read_lines read_loop run_detectors get lookup
fresh-IsCaughtUp = record {
  done = [];
  idle = [];
  split = refl;
  done_complete = tt;
  idle_complete = tt;
  quiet = refl;
  at = refl;
  ran = refl;
}

poll_file-IsCaughtUp_example :
    IsCaughtUp milli unmarshal (first_only ∷ []) "a/1.jsonl" (old ++ more) (
      poll_file milli unmarshal "a/1.jsonl"
        (outside (old ++ more) none)
        (poll_file milli unmarshal "a/1.jsonl" (outside old none) fresh))
poll_file-IsCaughtUp_example =
    poll_file-IsCaughtUp milli unmarshal (first_only ∷ []) "a/1.jsonl" old more
      (outside (old ++ more) none) (poll_file milli unmarshal "a/1.jsonl" (outside old none) fresh)
      (poll_file-IsCaughtUp milli unmarshal (first_only ∷ []) "a/1.jsonl" [] old (outside old none)
        fresh fresh-IsCaughtUp refl refl refl refl)
      refl refl refl refl

first_found :
    (run_detectors milli (read_new_events unmarshal old 0).0 (first_only ∷ [])).1 ≡ found event ∷ []
unfolding run_detectors dispatch read_new_events read_lines read_loop event_in trim_end
first_found = refl

-- The only finding could not be written: the detector has seen the event, and the finding is lost.
poll_file-twice_example :
    let events = (read_new_events unmarshal old 0).0 in
    let (once, found') = run_detectors milli events (first_only ∷ []) in
    let (twice, again) = run_detectors milli events once in
    let a =
      poll_file milli unmarshal "a/1.jsonl"
        (outside old none)
        (poll_file milli unmarshal "a/1.jsonl" (outside old (some 0)) fresh) in
    (a.detectors ≡ twice) × (reported milli a ≡ [] ++ take 0 found' ++ again)
unfolding get lookup
poll_file-twice_example =
    poll_file-twice milli unmarshal "a/1.jsonl" (outside old (some 0)) (outside old none) 0
      (found event) [] fresh refl refl refl refl refl first_found

finding_lost :
    reported milli (
      poll_file milli unmarshal "a/1.jsonl"
        (outside old none)
        (poll_file milli unmarshal "a/1.jsonl" (outside old (some 0)) fresh))
    ≡ []
unfolding poll_file process settle advance write_findings encode_lines run_detectors dispatch
    read_new_events read_lines read_loop event_in trim_end get lookup set insert last_timestamp
finding_lost = refl
