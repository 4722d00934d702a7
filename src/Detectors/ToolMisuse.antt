-- ===== src/Detectors/ToolMisuse.antt =====
-- internal/analyzer/detectors/toolmisuse.go: ToolMisuseDetector. encoding/json is a parameter.
-- Sums of counts stay below 2 ^ 63.
pub mod Storms
pub mod Reported
use agent_transponder.Prelude.{
  ℕ, suc, ◌+◌, ◌-◌, ◌≡◌, String, ◌==◌, Bool, true, false, not, ◌&&◌, Option, none, some, List, [],
  ◌∷◌, ◌++◌, map, length, select, leb, ltb, get_or, if◌then◌else◌,
}
use agent_transponder.Prelude.Int.{ℤ, pos, pos_part, leb_ℤ, ltb_ℤ}
use agent_transponder.Prelude.Maps.{Map, lookup, insert}
use agent_transponder.Prelude.Float.{Float}
use agent_transponder.Types.Event.{Event, ToolCallData, event_tool_call, severity_warning}
use agent_transponder.Detectors.Finding.{
  Finding, Formatted, Arg, text, number, float, has, put, detection_tool_misuse, min_float, round2,
}

pub record CallRecord : Type 0 where
  pub event_id : String
  pub success : Bool
  pub retry_count : ℤ

pub record ToolStats : Type 0 where
  pub by_args : Map (List CallRecord)
  pub calls : List CallRecord
  pub emitted_retry_storm : List String
  pub emitted_rate_detection : Bool

abbrev pub new_tool_stats : ToolStats
new_tool_stats = record {
  by_args = [];
  calls = [];
  emitted_retry_storm = [];
  emitted_rate_detection = false;
}

-- The tools of a session.
abbrev pub MisuseSess : Type 0
MisuseSess = Map ToolStats

abbrev pub name : String
name = "ToolMisuseDetector"

-- encoding/json: the value of a text, and its text with sorted keys.
pub record Json : Type 1 where
  pub Value : Type 0
  pub unmarshal : String → Option Value
  pub marshal : Value → Option String

unfoldable pub canonical_args : Json → Option String → String
canonical_args json none = ""
canonical_args json (some raw) = elim (json.unmarshal raw) [
  | none ↦ raw
  | some obj ↦ get_or raw (json.marshal obj)
]

unfoldable pub failures : List CallRecord → List CallRecord
failures records = select (λ r. not r.success) records

-- The largest retry count, and at least 0.
unfoldable pub max_retry : ℤ → List CallRecord → ℤ
max_retry best [] = best
max_retry best (f ∷ fs) = max_retry (if ltb_ℤ best f.retry_count then f.retry_count else best) fs

abbrev pub ids : List CallRecord → List String
ids records = map (λ r. r.event_id) records

-- The call is recorded under its arguments and among all calls of the tool.
unfoldable pub record_call : String → CallRecord → ToolStats → ToolStats
record_call args_key rec ts = record ts {
  by_args = insert args_key (get_or [] (lookup args_key ts.by_args) ++ rec ∷ []) ts.by_args;
  calls = ts.calls ++ rec ∷ [];
}

module _ (fl : Float) where
  open fl use {F, of_int, lit, add, mul, div, le}

  pub record ToolMisuseDetector : Type 0 where
    pub max_consecutive_failures : ℕ
    pub min_failure_rate : F
    pub min_calls_for_rate : ℕ
    pub sessions : Map MisuseSess

  unfoldable pub new_tool_misuse_detector_full : ℤ → F → ℤ → ToolMisuseDetector
  new_tool_misuse_detector_full max_consecutive_failures min_failure_rate min_calls_for_rate =
      record {
        max_consecutive_failures =
            if leb_ℤ max_consecutive_failures (pos 0) then 5 else pos_part max_consecutive_failures;
        min_failure_rate = if le min_failure_rate (lit 0 0) then lit 7 1 else min_failure_rate;
        min_calls_for_rate =
            if leb_ℤ min_calls_for_rate (pos 0) then 3 else pos_part min_calls_for_rate;
        sessions = [];
      }

  unfoldable pub new_tool_misuse_detector : ℤ → ToolMisuseDetector
  new_tool_misuse_detector max_consecutive_failures =
      new_tool_misuse_detector_full max_consecutive_failures (lit 7 1) (pos 3)

  unfoldable pub reset : ToolMisuseDetector → ToolMisuseDetector
  reset d = record d { sessions = [] }

  unfoldable pub storm_finding :
      ToolMisuseDetector → Event → String → String → List CallRecord → List String → Finding F
  storm_finding d event tool_name args_key failed emitted = record {
    id = record {
      format = "misuse-storm-%s-%s-%d";
      args = text event.session_id ∷ text tool_name ∷ number (pos (length emitted)) ∷ [];
    };
    session_id = event.session_id;
    agent_id = event.agent_id;
    tenant_id = event.tenant_id;
    timestamp = event.timestamp;
    detector = name;
    type = detection_tool_misuse;
    severity = severity_warning;
    confidence = round2 fl (
        min_float fl
          (add (lit 6 1)
            (mul (of_int (pos (length failed - d.max_consecutive_failures))) (lit 5 2)))
          (lit 1 0));
    message = record {
      format =
          "Tool '%s' called with identical arguments %d times and failing each time (threshold: %d)";
      args =
          text tool_name
          ∷ number (pos (length failed))
          ∷ number (pos d.max_consecutive_failures)
          ∷ [];
    };
    event_ids = ids failed;
    evidence = record {
      format = "args_key=%q, failure_count=%d, max_retry_count_seen=%d";
      args = text args_key ∷ number (pos (length failed)) ∷ number (max_retry (pos 0) failed) ∷ [];
    };
  }

  unfoldable pub failure_rate : List CallRecord → F
  failure_rate calls = div (of_int (pos (length (failures calls)))) (of_int (pos (length calls)))

  unfoldable pub rate_finding : ToolMisuseDetector → Event → String → List CallRecord → Finding F
  rate_finding d event tool_name calls =
      let rate = failure_rate calls in
      let failed = failures calls in
      record {
        id = record {
          format = "misuse-rate-%s-%s";
          args = text event.session_id ∷ text tool_name ∷ [];
        };
        session_id = event.session_id;
        agent_id = event.agent_id;
        tenant_id = event.tenant_id;
        timestamp = event.timestamp;
        detector = name;
        type = detection_tool_misuse;
        severity = severity_warning;
        confidence = round2 fl (min_float fl (add (lit 5 1) (mul rate (lit 4 1))) (lit 1 0));
        message = record {
          format = "Tool '%s' has a %.0f%% failure rate over %d calls (threshold: %.0f%%)";
          args =
              text tool_name
              ∷ float (mul rate (lit 100 0))
              ∷ number (pos (length calls))
              ∷ float (mul d.min_failure_rate (lit 100 0))
              ∷ [];
        };
        event_ids = ids failed;
        evidence = record {
          format = "total_calls=%d, failed_calls=%d, failure_rate=%.3f";
          args = number (pos (length calls)) ∷ number (pos (length failed)) ∷ float rate ∷ [];
        };
      }

  unfoldable pub check_storm :
      ToolMisuseDetector → Event → String → String → ToolStats → ToolStats × List (Finding F)
  check_storm d event tool_name args_key ts =
      let failed = failures (get_or [] (lookup args_key ts.by_args)) in
      let emitted = put args_key ts.emitted_retry_storm in
      if not (has args_key ts.emitted_retry_storm) && ltb d.max_consecutive_failures (length failed)
      then (
        record ts { emitted_retry_storm = emitted },
        storm_finding d event tool_name args_key failed emitted ∷ [],
      )
      else (ts, [])

  unfoldable pub check_rate :
      ToolMisuseDetector → Event → String → ToolStats → ToolStats × List (Finding F)
  check_rate d event tool_name ts =
      if not ts.emitted_rate_detection
        && leb d.min_calls_for_rate (length ts.calls)
        && le d.min_failure_rate (failure_rate ts.calls)
        && not (ltb 0 (length ts.emitted_retry_storm))
      then (
        record ts { emitted_rate_detection = true },
        rate_finding d event tool_name ts.calls ∷ [],
      )
      else (ts, [])

  unfoldable pub check :
      ToolMisuseDetector → Event → String → String → ToolStats → ToolStats × List (Finding F)
  check d event tool_name args_key ts =
      let (ts', storm) = check_storm d event tool_name args_key ts in
      let (ts'', rate) = check_rate d event tool_name ts' in (ts'', storm ++ rate)

  unfoldable pub analyze_call :
      Json → ToolMisuseDetector → Event → ToolCallData → ToolMisuseDetector × List (Finding F)
  analyze_call json d event call =
      let sess = get_or [] (lookup event.session_id d.sessions) in
      let args_key = canonical_args json call.arguments in
      let rec : CallRecord = record {
        event_id = event.id;
        success = call.success;
        retry_count = call.retry_count;
      } in
      let ts = record_call args_key rec (get_or new_tool_stats (lookup call.tool_name sess)) in
      let (ts', findings) = check d event call.tool_name args_key ts in
      (
        record d { sessions = insert event.session_id (insert call.tool_name ts' sess) d.sessions },
        findings,
      )

  unfoldable pub analyze_tool_call :
      Json
      → ToolMisuseDetector
      → Event
      → Option ToolCallData
      → ToolMisuseDetector × List (Finding F)
  analyze_tool_call json d event none = (d, [])
  analyze_tool_call json d event (some call) =
      if event.type == event_tool_call then analyze_call json d event call else (d, [])

  unfoldable pub analyze : Json → ToolMisuseDetector → Event → ToolMisuseDetector × List (Finding F)
  analyze json d event = analyze_tool_call json d event event.tool_call
