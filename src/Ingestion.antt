-- ===== src/Ingestion.antt =====
-- cmd/ingestion/pipeline.go: IngestionServer, which takes an event through identity, policy, HMAC,
-- schema, redaction, store, audit log and analysis. A counter is the list of the label values with
-- which it was incremented; log lines and the latency histogram are not modelled. The policy engine
-- is ConfigEngine, which returns no error.
pub mod Server
pub mod Pipeline
pub mod Config
pub mod Subsystems
pub mod Schema
pub mod Taken
pub mod Outcomes
pub mod Audited
pub mod Streamed
use agent_transponder.Prelude.{
  ℕ, suc, String, ◌==◌, str_append, Bool, true, false, Option, none, some, List, [], ◌∷◌, ◌++◌, any,
  length, ltb, if◌then◌else◌,
}
use agent_transponder.Prelude.Int.{ℤ, pos, inc64}
use agent_transponder.Prelude.Float.{Float}
use agent_transponder.Prelude.Result.{Result, ok, err}
use agent_transponder.Types.Event.{
  Event, EventType, Time, Duration, is_zero, event_prompt, event_response, event_tool_call,
  event_tool_result, event_memory_read, event_memory_write, event_reasoning_step, event_error,
  event_retry, event_metadata,
}
use agent_transponder.Types.Hmac.{Signing, verify_hmac}
use agent_transponder.Identity as Identity
use agent_transponder.Identity.{AgentIdentity, Certificate, TlsProvider, IdentityError, identify}
use agent_transponder.Policy.{
  ConfigEngine, EvalResult, Decision, decision_allow, decision_deny, decision_throttle, Reason,
  evaluate,
}
use agent_transponder.Audit.Entry.{
  Entry, Hashing, ActionType, Outcome, action_ingest_event, action_access_denied, outcome_success,
  outcome_denied,
}
use agent_transponder.Audit.Sink.{HashChainSink, Fault, log}
use agent_transponder.Conversion.Messages.{WellKnown, EventMessage}
use agent_transponder.Conversion.{proto_to_event}
use agent_transponder.Redaction.{Regexp, RegexRedactor, redact}
use agent_transponder.EventStore.{JsonlStore, Storage, StoreFault, StoreError, append}
use agent_transponder.Forwarder.{AnalysisForwarder, submit}

-- The packages that the pipeline rests on: net.SplitHostPort, and the text of a policy's reason.
pub record Packages : Type 1 where
  pub float : Float
  pub hashing : Hashing
  pub well_known : WellKnown
  pub storage : Storage
  pub regexp : Regexp
  pub signing : Signing
  pub split_host : String → Option String
  pub reason_text : Reason → String

-- The peer of a call: its address, and its certificates if it has TLS information.
pub record Peer : Type 0 where
  pub addr : Option String
  pub certificates : Option (List Certificate)

pub data PeerError : Type 0 where
  no_peer_info no_tls_info no_certificate_presented : PeerError
  not_identified : IdentityError → PeerError

pub data SchemaError : Type 0 where
  id_required session_id_required type_required timestamp_required : SchemaError
  unknown_event_type : EventType → SchemaError

-- The error text of a response, by what it is made from.
pub data ResponseError : Type 0 where
  no_error no_event hmac_failed hmac_mismatch : ResponseError
  identity_failed : PeerError → ResponseError
  denied : Reason → ResponseError
  rate_limited : Duration → ResponseError
  schema_failed : SchemaError → ResponseError

pub record IngestEventResponse : Type 0 where
  pub accepted : Bool
  pub event_id : String
  pub error : ResponseError
  pub rejection_reason : String

-- The error that the call returns.
pub data Status : Type 0 where
  status_ok resource_exhausted internal : Status

pub record Counters : Type 0 where
  pub events_rejected : List String
  pub throttled_requests : List String
  pub events_ingested : List (String × EventType)
  pub audit_entries_total : ℕ

-- What a call finds outside: the readings of the clock, and the faults of the store and the log.
pub record Surroundings : Type 0 where
  pub bucket_made_at : Time
  pub evaluated_at : Time
  pub received_at : Time
  pub logged_at : Time
  pub store_fault : StoreFault
  pub audit_fault : Fault

abbrev pub known_event_types : List EventType
known_event_types =
    event_prompt ∷ event_response ∷ event_tool_call ∷ event_tool_result ∷ event_memory_read
    ∷ event_memory_write ∷ event_reasoning_step ∷ event_error ∷ event_retry ∷ event_metadata ∷ []

unfoldable pub validate_event : Event → Option SchemaError
validate_event e =
    if e.id == ""
    then some id_required
    else if e.session_id == ""
    then some session_id_required
    else if e.type == ""
    then some type_required
    else if any (λ known. e.type == known) known_event_types
    then if is_zero e.timestamp then some timestamp_required else none
    else some (unknown_event_type e.type)

abbrev pub rejected_with : String → ResponseError → IngestEventResponse
rejected_with reason error = record {
  accepted = false;
  event_id = "";
  error = error;
  rejection_reason = reason;
}
