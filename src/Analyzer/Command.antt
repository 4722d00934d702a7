-- ===== src/Analyzer/Command.antt =====
-- cmd/analyzer/main.go: the detectors that run builds, the health endpoint and its TLS.
use agent_transponder.Prelude.{
  String, ◌==◌, Bool, not, ◌&&◌, Option, none, some, List, [], ◌∷◌, ◌++◌, if◌then◌else◌,
}
use agent_transponder.Prelude.Float.{Float}
use agent_transponder.Prelude.Maps.{Map, insert}
use agent_transponder.Prelude.Result.{Result, ok, err}
use agent_transponder.Types.Event.{Time, is_zero}
use agent_transponder.Detectors.Loop
use agent_transponder.Detectors.Loop.{LoopDetector, new_loop_detector, reset}
use agent_transponder.Detectors.Loop.Reported.{
  IsDetector, new_loop_detector-IsDetector, reset-IsDetector, analyze-IsAnalyzed,
}
use agent_transponder.Detectors.ToolMisuse
use agent_transponder.Detectors.ToolMisuse.{Json, ToolMisuseDetector, new_tool_misuse_detector}
use agent_transponder.Detectors.Drift
use agent_transponder.Detectors.Drift.{DriftDetector, new_drift_detector}
use agent_transponder.Detectors.Drift.Reported.{
  IsDrift, analyze-IsWatched, new_drift_detector-IsDrift, reset-IsDrift,
}
use agent_transponder.Analyzer.Config.{
  Config, Loaded, ConfigError, PluginSet, load_plugins_config, default_plugins_config,
}
use agent_transponder.Analyzer.Service.{Detector, Analyzer, DetectorStatus, detector_status}

-- The plugins file, if the configuration names one.
module _ (fl : Float) where
  unfoldable pub plugins_config : Config → Loaded (PluginSet fl) → Result ConfigError (PluginSet fl)
  plugins_config cfg file =
      if cfg.plugins.config == ""
      then ok (default_plugins_config fl)
      else load_plugins_config fl cfg.plugins.config file

  -- A detector whose analysis always returns, as the service sees it.
  unfoldable pub loop_detector : (d : LoopDetector) → IsDetector fl d → Detector fl
  loop_detector d h = record {
    State = (d' : LoopDetector) × IsDetector fl d';
    state = (d, h);
    name = Loop.name;
    analyze = λ event s.
        let r = analyze-IsAnalyzed fl s.0 event s.1 in ((r.next, r.kept), some r.findings);
    reset = λ s. (reset s.0, reset-IsDetector fl s.0 s.1);
  }

  unfoldable pub tool_misuse_detector : Json → ToolMisuseDetector fl → Detector fl
  tool_misuse_detector json d = record {
    State = ToolMisuseDetector fl;
    state = d;
    name = ToolMisuse.name;
    analyze =
        λ event s. let (s', findings) = ToolMisuse.analyze fl json s event in (s', some findings);
    reset = λ s. ToolMisuse.reset fl s;
  }

  unfoldable pub drift_detector : (d : DriftDetector fl) → IsDrift fl d → Detector fl
  drift_detector d h = record {
    State = (d' : DriftDetector fl) × IsDrift fl d';
    state = (d, h);
    name = Drift.name;
    analyze = λ event s.
        let r = analyze-IsWatched fl s.0 event s.1 in ((r.next, r.kept), some r.findings);
    reset = λ s. (Drift.reset fl s.0, reset-IsDrift fl s.0);
  }

  unfoldable pub build_detectors : Json → PluginSet fl → List (Detector fl)
  build_detectors json p =
      let loop = p.loop_detection in
      let misuse = p.tool_misuse in
      let drift = p.goal_drift in
      (if loop.enabled
        then loop_detector (new_loop_detector loop.threshold loop.window_seconds)
            (new_loop_detector-IsDetector fl loop.threshold loop.window_seconds)
          ∷ []
        else [])
      ++ (if misuse.enabled
          then tool_misuse_detector json
              (new_tool_misuse_detector fl misuse.max_consecutive_failures)
            ∷ []
          else [])
      ++ (if drift.enabled
          then drift_detector (new_drift_detector fl drift.similarity_threshold)
              (new_drift_detector-IsDrift fl drift.similarity_threshold)
            ∷ []
          else [])

  -- The JSON answer of the health endpoint; a time of `none` is the empty text.
  pub record Health : Type 0 where
    pub status_text : String
    pub detectors : Map Bool
    pub last_processed : Option Time

  unfoldable pub detector_map : List (DetectorStatus fl) → Map Bool → Map Bool
  detector_map [] m = m
  detector_map (d ∷ statuses) m = detector_map statuses (insert d.name d.enabled m)

  unfoldable pub health : Analyzer fl → Health
  health az = record {
    status_text = "ok";
    detectors = detector_map (detector_status fl az) [];
    last_processed = if is_zero az.last_processed then none else some az.last_processed;
  }

-- The health server: without TLS, with TLS 1.3, or with TLS 1.3 and a certificate of each client.
pub data ServerTls (Pool : Type 0) : Type 0 where
  plain : ServerTls Pool
  server_only : ServerTls Pool
  client_auth : Pool → ServerTls Pool

pub data ServerError : Type 0 where
  read_ca : ServerError
  parse_ca : ServerError

-- The pool that crypto/x509 makes of the CA file.
unfoldable pub with_client_auth :
    {Pool : Type 0} → Loaded Pool → Result ServerError (ServerTls Pool)
with_client_auth Loaded.unreadable = err read_ca
with_client_auth Loaded.malformed = err parse_ca
with_client_auth (Loaded.parsed pool) = ok (client_auth pool)

unfoldable pub build_health_server :
    {Pool : Type 0} → Config → Loaded Pool → Result ServerError (ServerTls Pool)
build_health_server cfg ca =
    if not (cfg.tls.cert == "") && not (cfg.tls.key == "") && not (cfg.tls.ca == "")
    then with_client_auth ca
    else if not (cfg.tls.cert == "")
    then ok server_only
    else ok plain

unfoldable pub env_or : Option String → String → String
env_or none fallback = fallback
env_or (some v) fallback = if v == "" then fallback else v
