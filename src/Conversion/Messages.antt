-- ===== src/Conversion/Messages.antt =====
-- proto/agenttransponder/v1/events.pb.go: the messages of an event, as the generated code declares
-- them. An enum is an integer, and a pointer to a message an `Option`. The well-known types
-- Timestamp, Duration and Struct, and encoding/json, are parameters.
use agent_transponder.Prelude.{String, Bool, Option, List}
use agent_transponder.Prelude.Int.{ℤ}
use agent_transponder.Prelude.Maps.{Map}
use agent_transponder.Types.Event.{Time, Duration}

-- timestamppb, durationpb, structpb and encoding/json. The methods are defined on nil as well.
pub record WellKnown : Type 1 where
  pub Timestamp : Type 0
  pub ProtoDuration : Type 0
  pub JsonMap : Type 0
  pub Struct : Type 0
  -- timestamppb.New, AsTime, durationpb.New, AsDuration
  pub new_timestamp : Time → Timestamp
  pub as_time : Option Timestamp → Time
  pub new_duration : Duration → ProtoDuration
  pub as_duration : Option ProtoDuration → Duration
  -- json.Unmarshal into a map[string]any, structpb.NewStruct, MarshalJSON
  pub unmarshal_map : String → Option JsonMap
  pub new_struct : JsonMap → Option Struct
  pub marshal_struct : Struct → Option String

abbrev pub ProtoEventType : Type 0
ProtoEventType = ℤ

abbrev pub ProtoSeverity : Type 0
ProtoSeverity = ℤ

pub record PromptMessage : Type 0 where
  pub content : String
  pub role : String
  pub token_count : ℤ

pub record ResponseMessage : Type 0 where
  pub content : String
  pub finish_reason : String
  pub token_count : ℤ

pub record MemoryMessage : Type 0 where
  pub operation : String
  pub key : String
  pub value : String

pub record ReasoningMessage : Type 0 where
  pub step : ℤ
  pub content : String

pub record ErrorMessage : Type 0 where
  pub code : String
  pub message : String
  pub stacktrace : String
  pub retryable : Bool

pub record TokenUsageMessage : Type 0 where
  pub prompt_tokens : ℤ
  pub completion_tokens : ℤ
  pub total_tokens : ℤ

module _ (lib : WellKnown) where
  open lib use {Timestamp, ProtoDuration, Struct}

  pub record ToolCallMessage : Type 0 where
    pub tool_name : String
    pub arguments : Option Struct
    pub result : Option Struct
    pub success : Bool
    pub error_msg : String
    pub retry_count : ℤ

  pub record EventMessage : Type 0 where
    pub id : String
    pub session_id : String
    pub agent_id : String
    pub tenant_id : String
    pub type : ProtoEventType
    pub severity : ProtoSeverity
    pub timestamp : Option Timestamp
    pub duration : Option ProtoDuration
    pub prompt : Option PromptMessage
    pub response : Option ResponseMessage
    pub tool_call : Option ToolCallMessage
    pub memory : Option MemoryMessage
    pub reasoning : Option ReasoningMessage
    pub error : Option ErrorMessage
    pub model : String
    pub token_usage : Option TokenUsageMessage
    pub labels : Map String
    pub hmac : String
    pub run_id : String
    pub parent_run_id : String
    pub tags : List String
