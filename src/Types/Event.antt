-- ===== src/Types/Event.antt =====
-- internal/types/event.go: the records of the event schema. A pointer to a payload is an `Option`,
-- an `int` an integer, a `json.RawMessage` its text or `none` for nil, and a nil map or slice the
-- empty one. A `time.Time` is the nanoseconds since the zero time, January 1 of year 1 UTC.
use agent_transponder.Prelude.{String, Bool, Option, List}
use agent_transponder.Prelude.Int.{ℤ, pos, ltb_ℤ, eqb_ℤ}
use agent_transponder.Prelude.Maps.{Map}

abbrev pub Time : Type 0
Time = ℤ

abbrev pub Duration : Type 0
Duration = ℤ

abbrev pub second : Duration
second = pos 1_000_000_000

-- t.IsZero(), t.After(u), t.Before(u), t.Add(d)
abbrev pub is_zero : Time → Bool
is_zero t = eqb_ℤ t (pos 0)

abbrev pub after : Time → Time → Bool
after t u = ltb_ℤ u t

abbrev pub before : Time → Time → Bool
before t u = ltb_ℤ t u

abbrev pub EventType : Type 0
EventType = String

abbrev pub event_prompt : EventType
event_prompt = "prompt"

abbrev pub event_response : EventType
event_response = "response"

abbrev pub event_tool_call : EventType
event_tool_call = "tool_call"

abbrev pub event_tool_result : EventType
event_tool_result = "tool_result"

abbrev pub event_memory_read : EventType
event_memory_read = "memory_read"

abbrev pub event_memory_write : EventType
event_memory_write = "memory_write"

abbrev pub event_reasoning_step : EventType
event_reasoning_step = "reasoning_step"

abbrev pub event_error : EventType
event_error = "error"

abbrev pub event_retry : EventType
event_retry = "retry"

abbrev pub event_metadata : EventType
event_metadata = "metadata"

abbrev pub Severity : Type 0
Severity = String

abbrev pub severity_debug : Severity
severity_debug = "debug"

abbrev pub severity_info : Severity
severity_info = "info"

abbrev pub severity_warning : Severity
severity_warning = "warning"

abbrev pub severity_error : Severity
severity_error = "error"

abbrev pub severity_critical : Severity
severity_critical = "critical"

pub record PromptData : Type 0 where
  pub content : String
  pub role : String
  pub token_count : ℤ

pub record ResponseData : Type 0 where
  pub content : String
  pub finish_reason : String
  pub token_count : ℤ

pub record ToolCallData : Type 0 where
  pub tool_name : String
  pub error_msg : String
  pub arguments : Option String
  pub result : Option String
  pub retry_count : ℤ
  pub success : Bool

pub record MemoryData : Type 0 where
  pub operation : String
  pub key : String
  pub value : String

pub record ReasoningData : Type 0 where
  pub content : String
  pub step : ℤ

pub record ErrorData : Type 0 where
  pub code : String
  pub message : String
  pub stacktrace : String
  pub retryable : Bool

pub record TokenUsage : Type 0 where
  pub prompt_tokens : ℤ
  pub completion_tokens : ℤ
  pub total_tokens : ℤ

pub record Event : Type 0 where
  pub id : String
  pub session_id : String
  pub agent_id : String
  pub tenant_id : String
  pub type : EventType
  pub severity : Severity
  pub timestamp : Time
  pub received_at : Time
  pub prompt : Option PromptData
  pub response : Option ResponseData
  pub tool_call : Option ToolCallData
  pub memory : Option MemoryData
  pub reasoning : Option ReasoningData
  pub error : Option ErrorData
  pub model : String
  pub token_usage : Option TokenUsage
  pub labels : Map String
  pub run_id : String
  pub parent_run_id : String
  pub tags : List String
  pub hmac : String
  pub redacted_fields : List String
  pub duration : Duration
