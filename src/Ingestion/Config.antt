-- ===== src/Ingestion/Config.antt =====
-- cmd/ingestion/config.go: the configuration of the service: the file, then the environment, then
-- the defaults. YAML and os.ExpandEnv are parameters; an unset variable is the empty text.
use agent_transponder.Prelude.{
  ◌≡◌, String, ◌==◌, Bool, Option, none, some, List, arith, if◌then◌else◌,
}
use agent_transponder.Prelude.Int.{ℤ, pos, eqb_ℤ}
use agent_transponder.Prelude.Maps.{Map}
use agent_transponder.Prelude.Result.{Result, ok, err}
use agent_transponder.Types.Event.{Duration}
use agent_transponder.Redaction.Built.{RawPattern}

pub record ServerConfig : Type 0 where
  pub listen_addr : String
  pub health_addr : String
  pub metrics_addr : String

pub record TlsFileConfig : Type 0 where
  pub ca_path : String
  pub cert_path : String
  pub key_path : String

-- AnalysisConfig, with the fields that the forwarder's model leaves aside.
pub record AnalysisSettings : Type 0 where
  pub addr : String
  pub ca_path : String
  pub cert_path : String
  pub key_path : String
  pub flush_interval : Duration
  pub circuit_breaker_cooldown : Duration
  pub batch_size : ℤ
  pub circuit_breaker_threshold : ℤ
  pub tls_enabled : Bool

pub record RetentionConfig : Type 0 where
  pub default_ttl : Duration
  pub check_interval : Duration

pub record LoggingConfig : Type 0 where
  pub format : String
  pub level : String

-- The paths of the event store, the audit log and the policy file, the HMAC keys of the agents and the
-- custom patterns of the redaction stand for the records around them.
pub record Config : Type 0 where
  pub server : ServerConfig
  pub tls : TlsFileConfig
  pub event_store_path : String
  pub audit_path : String
  pub policy_path : String
  pub logging : LoggingConfig
  pub agents : Map String
  pub custom_patterns : List RawPattern
  pub analysis : AnalysisSettings
  pub retention : RetentionConfig

-- A variable that is set replaces the value.
abbrev pub override : String → String → String
override v old = if v == "" then old else v

unfoldable pub apply_env_overrides : (String → String) → Config → Config
apply_env_overrides getenv cfg = record cfg {
  server = record {
    listen_addr = override (getenv "AT_LISTEN_ADDR") cfg.server.listen_addr;
    health_addr = override (getenv "AT_HEALTH_ADDR") cfg.server.health_addr;
    metrics_addr = override (getenv "AT_METRICS_ADDR") cfg.server.metrics_addr;
  };
  tls = record {
    ca_path = override (getenv "AT_TLS_CA") cfg.tls.ca_path;
    cert_path = override (getenv "AT_TLS_CERT") cfg.tls.cert_path;
    key_path = override (getenv "AT_TLS_KEY") cfg.tls.key_path;
  };
  event_store_path = override (getenv "AT_EVENT_STORE_PATH") cfg.event_store_path;
  audit_path = override (getenv "AT_AUDIT_PATH") cfg.audit_path;
  analysis = record cfg.analysis { addr = override (getenv "AT_ANALYSIS_ADDR") cfg.analysis.addr };
  policy_path = override (getenv "AT_POLICY_PATH") cfg.policy_path;
  logging = record {
    format = override (getenv "AT_LOG_FORMAT") cfg.logging.format;
    level = override (getenv "AT_LOG_LEVEL") cfg.logging.level;
  };
}

abbrev pub text_or : String → String → String
text_or s default = if s == "" then default else s

abbrev pub number_or : ℤ → ℤ → ℤ
number_or n default = if eqb_ℤ n (pos 0) then default else n

unfoldable pub apply_defaults : Config → Config
apply_defaults cfg = record cfg {
  server = record {
    listen_addr = text_or cfg.server.listen_addr ":8443";
    health_addr = text_or cfg.server.health_addr ":8081";
    metrics_addr = text_or cfg.server.metrics_addr ":9090";
  };
  analysis = record cfg.analysis {
    batch_size = number_or cfg.analysis.batch_size (pos 50);
    flush_interval = number_or cfg.analysis.flush_interval (pos 5_000_000_000);
    circuit_breaker_threshold = number_or cfg.analysis.circuit_breaker_threshold (pos 5);
    circuit_breaker_cooldown = number_or cfg.analysis.circuit_breaker_cooldown (pos 30_000_000_000);
  };
  retention = record {
    default_ttl = number_or cfg.retention.default_ttl (pos 259_200_000_000_000);
    check_interval = number_or cfg.retention.check_interval (pos 3_600_000_000_000);
  };
  logging = record {
    format = text_or cfg.logging.format "json";
    level = text_or cfg.logging.level "info";
  };
}

pub data ConfigError : Type 0 where
  read_config : String → ConfigError
  parse_config : ConfigError

-- `file`: the text of the file, or none.
unfoldable pub load_config :
    (String → Option Config)
    → (String → String)
    → (String → String)
    → String
    → Option String
    → Result ConfigError Config
load_config unmarshal expand_env getenv path none = err (read_config path)
load_config unmarshal expand_env getenv path (some data_text) =
    elim (unmarshal (expand_env data_text)) [
      | none ↦ err parse_config
      | some cfg ↦ ok (apply_defaults (apply_env_overrides getenv cfg))
    ]

text_or-twice : (s default : String) → text_or (text_or s default) default ≡ text_or s default
text_or-twice s default = ground arith

number_or-twice : (n default : ℤ) → number_or (number_or n default) default ≡ number_or n default
number_or-twice n default = ground arith

override-twice : (v old : String) → override v (override v old) ≡ override v old
override-twice v old = ground arith
