-- ===== src/Examples/ForwarderExamples.antt =====
-- The theorems on cmd/ingestion/analysis.go at concrete inputs, with toy well-known types.
use agent_transponder.Prelude.{
  ◌≡◌, refl, String, true, false, Option, none, some, List, [], ◌∷◌, ◌++◌, map, ◌≤◌, arith,
}
use agent_transponder.Prelude.Int.{pos, ◌+ℤ◌}
use agent_transponder.Types.Event.{Event, Time, Duration}
use agent_transponder.Conversion.Messages.{WellKnown}
use agent_transponder.Conversion.{
  json_to_struct, raw_to_struct, struct_to_raw, struct_to_json, event_to_proto, proto_to_event,
}
use agent_transponder.Conversion.Roundtrip.{
  KeepsTimes, IsForwardable, IsCanonical, proto_to_event-event_to_proto,
}
use agent_transponder.Forwarder.{
  AnalysisConfig, AnalysisForwarder, AnalyzeBatchRequest, Outside, circuit_closed, circuit_open,
  new_analysis_forwarder, flush,
}
use agent_transponder.Forwarder.Batcher.{
  Step, submitted, received, ticked, cancelled, run, start, step,
}
use agent_transponder.Forwarder.Conserved.{IsConserved}
use agent_transponder.Forwarder.Delivery.{run-IsConserved, stop-flushed}
use agent_transponder.Forwarder.Sessions.{session_events, sent_to, requests_to, flush-sent}
use agent_transponder.Forwarder.Breaker.{IsBreaker}
use agent_transponder.Forwarder.Trips.{Attempt, attempt, attempts, breaker_trips}

abbrev pub lib : WellKnown
lib = record {
  Timestamp = Time;
  ProtoDuration = Duration;
  JsonMap = String;
  Struct = String;
  new_timestamp = λ t. t;
  as_time = λ t. elim t [ none ↦ pos 62_135_596_800_000_000_000 | some t ↦ t ];
  new_duration = λ d. d;
  as_duration = λ d. elim d [ none ↦ pos 0 | some d ↦ d ];
  unmarshal_map = λ raw. some raw;
  new_struct = λ m. some m;
  marshal_struct = λ s. some s;
}

abbrev pub event : Event
event = record {
  id = "e1";
  session_id = "s1";
  agent_id = "sdk-demo";
  tenant_id = "my-team";
  type = "tool_call";
  severity = "info";
  timestamp = pos 63_900_000_000_000_000_000;
  received_at = pos 1;
  prompt = some (record { content = "hello"; role = "user"; token_count = pos 3 });
  response = none;
  tool_call = some (record {
    tool_name = "search";
    error_msg = "";
    arguments = some "{}";
    result = none;
    retry_count = pos 1;
    success = true;
  });
  memory = none;
  reasoning = none;
  error = none;
  model = "m";
  token_usage = none;
  labels = ("env", "test") ∷ [];
  run_id = "";
  parent_run_id = "";
  tags = [];
  hmac = "";
  redacted_fields = "prompt.content" ∷ [];
  duration = pos 5;
}

abbrev pub other_event : Event
other_event = record event { id = "e2"; session_id = "s2"; type = "unheard_of" }

keeps : KeepsTimes lib
keeps = record { timestamps = λ t. refl; durations = λ d. refl }

canonical : (json : Option String) → IsCanonical lib json
unfolding raw_to_struct struct_to_raw struct_to_json json_to_struct
canonical none = refl
canonical (some raw) = refl

forwardable : IsForwardable lib event
unfolding raw_to_struct struct_to_raw struct_to_json json_to_struct
forwardable = record {
  known_type = refl;
  known_severity = refl;
  prompt_fits = λ p is. ground (arith, is);
  response_fits = λ r is. ground (arith, is);
  tool_call_fits = λ t is. (ground (arith, is), canonical t.arguments, canonical t.result);
  reasoning_fits = λ r is. ground (arith, is);
  usage_fits = λ u is. ground (arith, is);
}

proto_to_event-event_to_proto_example :
    proto_to_event lib (event_to_proto lib event)
    ≡ record event { received_at = pos 0; redacted_fields = [] }
proto_to_event-event_to_proto_example = proto_to_event-event_to_proto lib keeps event forwardable

abbrev cfg : AnalysisConfig
cfg = record {
  circuit_breaker_cooldown = pos 30;
  batch_size = pos 2;
  circuit_breaker_threshold = pos 2;
}

abbrev pub forwarder : AnalysisForwarder lib
forwarder = new_analysis_forwarder lib cfg true

abbrev refusing : Outside
refusing = record { asked_at = pos 100; failed_at = pos 101; dialed = true; takes = λ s. false }

abbrev submits : List Step
submits = submitted event ∷ submitted other_event ∷ []

abbrev steps : List Step
steps =
    submitted event
    ∷ submitted other_event
    ∷ received refusing
    ∷ received refusing
    ∷ submitted event
    ∷ ticked refusing
    ∷ []

run-IsConserved_example : IsConserved lib cfg (run lib steps (start lib forwarder))
run-IsConserved_example = run-IsConserved lib forwarder steps refl

stop-flushed_example :
    let b = run lib submits (start lib forwarder) in
    (step lib (cancelled refusing) b).flushed ≡ b.accepted
unfolding run step
stop-flushed_example = stop-flushed lib forwarder submits refusing refl refl

flush-sent_example :
    (added : List (AnalyzeBatchRequest lib)) × ((flush lib refusing
        (event ∷ other_event ∷ [])
        forwarder).requests
      ≡ [] ++ added)
    × ((s : String)
        → (sent_to lib s added
            ≡ map (event_to_proto lib) (session_events s (event ∷ other_event ∷ [])))
          × (requests_to lib s added ≤ 1))
flush-sent_example = flush-sent lib refusing (event ∷ other_event ∷ []) forwarder refl refl

breaker : IsBreaker lib 1 forwarder
breaker = record {
  threshold = refl;
  fits = omega arith;
  count = 0;
  counted = refl;
  open_full = λ tripped. ground (arith, tripped);
  closed_below = λ _. omega arith;
}

abbrev refused : Attempt
refused = record { out = refusing; first = event; others = [] }

breaker_trips_example :
    ((attempts lib (refused ∷ []) forwarder).circuit ≡ circuit_closed)
    × ((attempt lib refused (attempts lib (refused ∷ []) forwarder)).circuit ≡ circuit_open)
    × (attempts lib (refused ∷ []) (attempt lib refused (attempts lib (refused ∷ []) forwarder))
        ≡ attempt lib refused (attempts lib (refused ∷ []) forwarder))
unfolding ◌+ℤ◌
breaker_trips_example =
    breaker_trips lib 1 forwarder (refused ∷ []) refused (refused ∷ []) refl (omega arith) refl refl
      refl (λ s. refl, tt) (λ s. refl) (refl, tt)
