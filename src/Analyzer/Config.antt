-- ===== src/Analyzer/Config.antt =====
-- internal/analyzer/config.go: the configuration of the analyzer and of its detectors. What YAML
-- makes of a file is a parameter, with zero values where the file says nothing.
use agent_transponder.Prelude.{String, ◌==◌, Bool, true, if◌then◌else◌}
use agent_transponder.Prelude.Int.{ℤ, pos, eqb_ℤ}
use agent_transponder.Prelude.Float.{Float}
use agent_transponder.Prelude.Result.{Result, ok, err}
use agent_transponder.Types.Event.{Duration}

pub record ListenConfig : Type 0 where
  pub address : String
  pub port : ℤ

pub record TlsConfig : Type 0 where
  pub cert : String
  pub key : String
  pub ca : String

pub record EventsConfig : Type 0 where
  pub path : String
  pub poll_interval : Duration

pub record FindingsConfig : Type 0 where
  pub path : String

pub record PluginsRef : Type 0 where
  pub config : String

pub record LoggingConfig : Type 0 where
  pub level : String

pub record Config : Type 0 where
  pub listen : ListenConfig
  pub tls : TlsConfig
  pub events : EventsConfig
  pub findings : FindingsConfig
  pub plugins : PluginsRef
  pub logging : LoggingConfig

-- os.ReadFile and yaml.Unmarshal on a path.
pub data Loaded {ℓ} (A : Type ℓ) : Type ℓ where
  unreadable : Loaded A
  malformed : Loaded A
  parsed : A → Loaded A

pub data ConfigError : Type 0 where
  read_config : String → ConfigError
  parse_config : String → ConfigError

-- A zero number and an empty text are replaced by the default.
abbrev pub or_default : ℤ → ℤ → ℤ
or_default n default = if eqb_ℤ n (pos 0) then default else n

abbrev pub or_text : String → String → String
or_text s default = if s == "" then default else s

unfoldable pub with_defaults : Config → Config
with_defaults cfg = record cfg {
  events = record cfg.events {
    poll_interval = or_default cfg.events.poll_interval (pos 5_000_000_000);
  };
  listen = record {
    port = or_default cfg.listen.port (pos 8420);
    address = or_text cfg.listen.address "0.0.0.0";
  };
  logging = record { level = or_text cfg.logging.level "info" };
}

unfoldable pub load_config : String → Loaded Config → Result ConfigError Config
load_config path unreadable = err (read_config path)
load_config path malformed = err (parse_config path)
load_config path (parsed cfg) = ok (with_defaults cfg)

pub record LoopDetectionPlugin : Type 0 where
  pub enabled : Bool
  pub threshold : ℤ
  pub window_seconds : ℤ

pub record ToolMisusePlugin : Type 0 where
  pub enabled : Bool
  pub max_consecutive_failures : ℤ

module _ (fl : Float) where
  open fl use {F, lit, eq}

  pub record GoalDriftPlugin : Type 0 where
    pub enabled : Bool
    pub similarity_threshold : F

  pub record PluginSet : Type 0 where
    pub loop_detection : LoopDetectionPlugin
    pub tool_misuse : ToolMisusePlugin
    pub goal_drift : GoalDriftPlugin

  unfoldable pub with_plugin_defaults : PluginSet → PluginSet
  with_plugin_defaults p = record {
    loop_detection = record p.loop_detection {
      threshold = or_default p.loop_detection.threshold (pos 3);
      window_seconds = or_default p.loop_detection.window_seconds (pos 300);
    };
    tool_misuse = record p.tool_misuse {
      max_consecutive_failures = or_default p.tool_misuse.max_consecutive_failures (pos 5);
    };
    goal_drift = record p.goal_drift {
      similarity_threshold =
          if eq p.goal_drift.similarity_threshold (lit 0 0)
          then lit 3 1
          else p.goal_drift.similarity_threshold;
    };
  }

  unfoldable pub load_plugins_config : String → Loaded PluginSet → Result ConfigError PluginSet
  load_plugins_config path unreadable = err (read_config path)
  load_plugins_config path malformed = err (parse_config path)
  load_plugins_config path (parsed p) = ok (with_plugin_defaults p)

  unfoldable pub default_plugins_config : PluginSet
  default_plugins_config = record {
    loop_detection = record { enabled = true; threshold = pos 3; window_seconds = pos 300 };
    tool_misuse = record { enabled = true; max_consecutive_failures = pos 5 };
    goal_drift = record { enabled = true; similarity_threshold = lit 3 1 };
  }
