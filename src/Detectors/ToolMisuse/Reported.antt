-- ===== src/Detectors/ToolMisuse/Reported.antt =====
-- What ToolMisuseDetector of internal/analyzer/detectors/toolmisuse.go reports on a tool call.
use agent_transponder.Prelude.{◌≤◌, ◌≡◌, String, List, [], ◌++◌, length, get_or, arith}
use agent_transponder.Prelude.Int.{ℤ, pos}
use agent_transponder.Prelude.Maps.{lookup}
use agent_transponder.Prelude.Float.{Float}
use agent_transponder.Types.Event.{Event, ToolCallData}
use agent_transponder.Detectors.Finding.{Finding}
use agent_transponder.Detectors.ToolMisuse.{
  CallRecord, ToolStats, new_tool_stats, Json, canonical_args, failures, ToolMisuseDetector,
  new_tool_misuse_detector_full, new_tool_misuse_detector,
}
use agent_transponder.Detectors.ToolMisuse.Storms.{IsStats, storm}

module _ (fl : Float) where
  open fl use {F}

  abbrev pub stats_of : ToolMisuseDetector fl → String → String → ToolStats
  stats_of d id tool_name =
      get_or new_tool_stats (lookup tool_name (get_or [] (lookup id d.sessions)))

  pub record IsMisuse (d : ToolMisuseDetector fl) : Type 0 where
    pub stats :
        (id tool_name : String) → IsStats d.max_consecutive_failures (stats_of d id tool_name)

  pub new_tool_misuse_detector_full-IsMisuse :
      (a : ℤ) (r : F) (m : ℤ) → IsMisuse (new_tool_misuse_detector_full fl a r m)
  unfolding new_tool_misuse_detector_full lookup failures
  new_tool_misuse_detector_full-IsMisuse a r m = record {
    stats = λ id tool_name. record { storms = λ key. ground arith };
  }

  pub new_tool_misuse_detector-IsMisuse : (a : ℤ) → IsMisuse (new_tool_misuse_detector fl a)
  unfolding new_tool_misuse_detector
  new_tool_misuse_detector-IsMisuse a =
      new_tool_misuse_detector_full-IsMisuse a (fl.lit 7 1) (pos 3)

  -- The call's record.
  abbrev pub called : Event → ToolCallData → CallRecord
  called event call = record {
    event_id = event.id;
    success = call.success;
    retry_count = call.retry_count;
  }

  -- What a call makes the detector report: the storm, if the call completes one, and at most one
  -- finding on the failure rate.
  pub record IsReported (json : Json) (d : ToolMisuseDetector fl) (event : Event)
      (call : ToolCallData) (r : ToolMisuseDetector fl × List (Finding F)) : Type 0 where
    pub kept : IsMisuse r.0
    pub rate : List (Finding F)
    pub all :
        r.1
        ≡ storm fl d event call.tool_name
            (canonical_args json call.arguments)
            (called event call)
            (stats_of d event.session_id call.tool_name)
          ++ rate
    pub at_most_one : length rate ≤ 1
