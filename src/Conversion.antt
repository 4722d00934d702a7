-- ===== src/Conversion.antt =====
-- cmd/ingestion/analysis.go, the conversion helpers: events to the messages of
-- proto/agenttransponder/v1 and back.
pub mod Messages
pub mod Roundtrip
pub mod SecondTrip
use agent_transponder.Prelude.{
  ℕ, String, Bool, true, false, Option, none, some, List, [], ◌==◌, if◌then◌else◌,
}
use mathlib.Core.Option
use agent_transponder.Prelude.Int.{ℤ, pos, negsuc, ltb_ℤ, eqb_ℤ}
use agent_transponder.Types.Event.{
  EventType, Severity, PromptData, ResponseData, ToolCallData, MemoryData, ReasoningData, ErrorData,
  TokenUsage, Event, event_prompt, event_response, event_tool_call, event_tool_result,
  event_memory_read, event_memory_write, event_reasoning_step, event_error, event_retry,
  event_metadata, severity_debug, severity_info, severity_warning, severity_error,
  severity_critical,
}
use agent_transponder.Conversion.Messages.{
  WellKnown, ProtoEventType, ProtoSeverity, PromptMessage, ResponseMessage, MemoryMessage,
  ReasoningMessage, ErrorMessage, TokenUsageMessage, ToolCallMessage, EventMessage,
}

abbrev pub max_int32 : ℤ
max_int32 = pos 2_147_483_647

abbrev pub min_int32 : ℤ
min_int32 = negsuc 2_147_483_647

unfoldable pub safe_int32 : ℤ → ℤ
safe_int32 n = if ltb_ℤ max_int32 n then max_int32 else if ltb_ℤ n min_int32 then min_int32 else n

unfoldable pub event_type_to_proto : EventType → ProtoEventType
event_type_to_proto t =
    if t == event_prompt
    then pos 1
    else if t == event_response
    then pos 2
    else if t == event_tool_call
    then pos 3
    else if t == event_tool_result
    then pos 4
    else if t == event_memory_read
    then pos 5
    else if t == event_memory_write
    then pos 6
    else if t == event_reasoning_step
    then pos 7
    else if t == event_error
    then pos 8
    else if t == event_retry
    then pos 9
    else if t == event_metadata
    then pos 10
    else pos 0

unfoldable pub proto_to_event_type : ProtoEventType → EventType
proto_to_event_type t =
    if eqb_ℤ t (pos 1)
    then event_prompt
    else if eqb_ℤ t (pos 2)
    then event_response
    else if eqb_ℤ t (pos 3)
    then event_tool_call
    else if eqb_ℤ t (pos 4)
    then event_tool_result
    else if eqb_ℤ t (pos 5)
    then event_memory_read
    else if eqb_ℤ t (pos 6)
    then event_memory_write
    else if eqb_ℤ t (pos 7)
    then event_reasoning_step
    else if eqb_ℤ t (pos 8)
    then event_error
    else if eqb_ℤ t (pos 9)
    then event_retry
    else if eqb_ℤ t (pos 10)
    then event_metadata
    else ""

unfoldable pub severity_to_proto : Severity → ProtoSeverity
severity_to_proto s =
    if s == severity_debug
    then pos 1
    else if s == severity_info
    then pos 2
    else if s == severity_warning
    then pos 3
    else if s == severity_error
    then pos 4
    else if s == severity_critical
    then pos 5
    else pos 0

unfoldable pub proto_to_severity : ProtoSeverity → Severity
proto_to_severity s =
    if eqb_ℤ s (pos 1)
    then severity_debug
    else if eqb_ℤ s (pos 2)
    then severity_info
    else if eqb_ℤ s (pos 3)
    then severity_warning
    else if eqb_ℤ s (pos 4)
    then severity_error
    else if eqb_ℤ s (pos 5)
    then severity_critical
    else ""

abbrev pub prompt_to_proto : PromptData → PromptMessage
prompt_to_proto p = record {
  content = p.content;
  role = p.role;
  token_count = safe_int32 p.token_count;
}

abbrev pub response_to_proto : ResponseData → ResponseMessage
response_to_proto r = record {
  content = r.content;
  finish_reason = r.finish_reason;
  token_count = safe_int32 r.token_count;
}

abbrev pub memory_to_proto : MemoryData → MemoryMessage
memory_to_proto m = record { operation = m.operation; key = m.key; value = m.value }

abbrev pub reasoning_to_proto : ReasoningData → ReasoningMessage
reasoning_to_proto r = record { step = safe_int32 r.step; content = r.content }

abbrev pub error_to_proto : ErrorData → ErrorMessage
error_to_proto e = record {
  code = e.code;
  message = e.message;
  stacktrace = e.stacktrace;
  retryable = e.retryable;
}

abbrev pub token_usage_to_proto : TokenUsage → TokenUsageMessage
token_usage_to_proto u = record {
  prompt_tokens = safe_int32 u.prompt_tokens;
  completion_tokens = safe_int32 u.completion_tokens;
  total_tokens = safe_int32 u.total_tokens;
}

abbrev pub proto_to_prompt : PromptMessage → PromptData
proto_to_prompt p = record { content = p.content; role = p.role; token_count = p.token_count }

abbrev pub proto_to_response : ResponseMessage → ResponseData
proto_to_response r = record {
  content = r.content;
  finish_reason = r.finish_reason;
  token_count = r.token_count;
}

abbrev pub proto_to_memory : MemoryMessage → MemoryData
proto_to_memory m = record { operation = m.operation; key = m.key; value = m.value }

abbrev pub proto_to_reasoning : ReasoningMessage → ReasoningData
proto_to_reasoning r = record { step = r.step; content = r.content }

abbrev pub proto_to_error : ErrorMessage → ErrorData
proto_to_error e = record {
  code = e.code;
  message = e.message;
  stacktrace = e.stacktrace;
  retryable = e.retryable;
}

abbrev pub proto_to_token_usage : TokenUsageMessage → TokenUsage
proto_to_token_usage u = record {
  prompt_tokens = u.prompt_tokens;
  completion_tokens = u.completion_tokens;
  total_tokens = u.total_tokens;
}

module _ (lib : WellKnown) where
  open lib use {Struct}

  unfoldable pub json_to_struct : String → Option Struct
  json_to_struct raw = elim (lib.unmarshal_map raw) [ none ↦ none | some m ↦ lib.new_struct m ]

  unfoldable pub struct_to_json : Struct → Option String
  struct_to_json s = lib.marshal_struct s

  -- A nil text stays nil, and one that does not convert becomes nil.
  unfoldable pub raw_to_struct : Option String → Option Struct
  raw_to_struct none = none
  raw_to_struct (some raw) = json_to_struct raw

  unfoldable pub struct_to_raw : Option Struct → Option String
  struct_to_raw none = none
  struct_to_raw (some s) = struct_to_json s

  abbrev pub tool_call_to_proto : ToolCallData → ToolCallMessage lib
  tool_call_to_proto tc = record {
    tool_name = tc.tool_name;
    success = tc.success;
    error_msg = tc.error_msg;
    retry_count = safe_int32 tc.retry_count;
    arguments = raw_to_struct tc.arguments;
    result = raw_to_struct tc.result;
  }

  abbrev pub proto_to_tool_call : ToolCallMessage lib → ToolCallData
  proto_to_tool_call tc = record {
    tool_name = tc.tool_name;
    success = tc.success;
    error_msg = tc.error_msg;
    retry_count = tc.retry_count;
    arguments = struct_to_raw tc.arguments;
    result = struct_to_raw tc.result;
  }

  unfoldable pub event_to_proto : Event → EventMessage lib
  event_to_proto e = record {
    id = e.id;
    session_id = e.session_id;
    agent_id = e.agent_id;
    tenant_id = e.tenant_id;
    type = event_type_to_proto e.type;
    severity = severity_to_proto e.severity;
    timestamp = some (lib.new_timestamp e.timestamp);
    duration = some (lib.new_duration e.duration);
    model = e.model;
    hmac = e.hmac;
    labels = e.labels;
    run_id = e.run_id;
    parent_run_id = e.parent_run_id;
    tags = e.tags;
    prompt = Option.map prompt_to_proto e.prompt;
    response = Option.map response_to_proto e.response;
    tool_call = Option.map tool_call_to_proto e.tool_call;
    memory = Option.map memory_to_proto e.memory;
    reasoning = Option.map reasoning_to_proto e.reasoning;
    error = Option.map error_to_proto e.error;
    token_usage = Option.map token_usage_to_proto e.token_usage;
  }

  unfoldable pub proto_to_event : EventMessage lib → Event
  proto_to_event p = record {
    id = p.id;
    session_id = p.session_id;
    agent_id = p.agent_id;
    tenant_id = p.tenant_id;
    type = proto_to_event_type p.type;
    severity = proto_to_severity p.severity;
    timestamp = lib.as_time p.timestamp;
    duration = lib.as_duration p.duration;
    model = p.model;
    hmac = p.hmac;
    labels = p.labels;
    run_id = p.run_id;
    parent_run_id = p.parent_run_id;
    tags = p.tags;
    prompt = Option.map proto_to_prompt p.prompt;
    response = Option.map proto_to_response p.response;
    tool_call = Option.map proto_to_tool_call p.tool_call;
    memory = Option.map proto_to_memory p.memory;
    reasoning = Option.map proto_to_reasoning p.reasoning;
    error = Option.map proto_to_error p.error;
    token_usage = Option.map proto_to_token_usage p.token_usage;
    received_at = pos 0;
    redacted_fields = [];
  }
