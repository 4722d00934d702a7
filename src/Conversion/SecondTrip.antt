-- ===== src/Conversion/SecondTrip.antt =====
-- A second round trip of an event through its message, cmd/ingestion/analysis.go.
use agent_transponder.Prelude.{
  String, ◌≡◌, refl, sym, ◌∙◌, ap, Option, none, some, ◌==◌, any, inl, inr, Bool-cases,
  Option-cases,
}
use mathlib.Core.Option
use agent_transponder.Prelude.Int.{ℤ}
use agent_transponder.Types.Event.{EventType, Severity, Event, ToolCallData, TokenUsage}
use agent_transponder.Conversion.Messages.{WellKnown}
use agent_transponder.Conversion.Roundtrip.{
  known_types, known_severities, KeepsTimes, safe_int32-id, safe_int32-FitsInt32, type_trip-known,
  type_trip-unknown, severity_trip-known, severity_trip-unknown,
}
use agent_transponder.Conversion.{
  safe_int32, event_type_to_proto, proto_to_event_type, severity_to_proto, proto_to_severity,
  json_to_struct, raw_to_struct, struct_to_raw, struct_to_json, event_to_proto, proto_to_event,
  prompt_to_proto, response_to_proto, tool_call_to_proto, memory_to_proto, reasoning_to_proto,
  error_to_proto, token_usage_to_proto, proto_to_prompt, proto_to_response, proto_to_tool_call,
  proto_to_memory, proto_to_reasoning, proto_to_error, proto_to_token_usage,
}

safe_int32_idem : (n : ℤ) → safe_int32 (safe_int32 n) ≡ safe_int32 n
safe_int32_idem n = safe_int32-id (safe_int32 n) (safe_int32-FitsInt32 n)

type_trip_idem :
    (t : EventType)
    → proto_to_event_type (event_type_to_proto (proto_to_event_type (event_type_to_proto t)))
      ≡ proto_to_event_type (event_type_to_proto t)
unfolding event_type_to_proto proto_to_event_type
type_trip_idem t = elim (Bool-cases (any (λ k. t == k) known_types)) [
  | inl known ↦ ap (λ s. proto_to_event_type (event_type_to_proto s)) (type_trip-known t known)
  | inr unknown ↦
      ap (λ s. proto_to_event_type (event_type_to_proto s)) (type_trip-unknown t unknown)
      ∙ sym (type_trip-unknown t unknown)
]

severity_trip_idem :
    (s : Severity)
    → proto_to_severity (severity_to_proto (proto_to_severity (severity_to_proto s)))
      ≡ proto_to_severity (severity_to_proto s)
unfolding severity_to_proto proto_to_severity
severity_trip_idem s = elim (Bool-cases (any (λ k. s == k) known_severities)) [
  | inl known ↦ ap (λ s. proto_to_severity (severity_to_proto s)) (severity_trip-known s known)
  | inr unknown ↦
      ap (λ s. proto_to_severity (severity_to_proto s)) (severity_trip-unknown s unknown)
      ∙ sym (severity_trip-unknown s unknown)
]

map_twice {ℓ ℓ'} :
    {A : Type ℓ} {B : Type ℓ'} (f : A → B) (g : B → A) (o : Option A)
    → ((x : A) → g (f (g (f x))) ≡ g (f x))
    → Option.map g (Option.map f (Option.map g (Option.map f o))) ≡ Option.map g (Option.map f o)
map_twice f g none h = refl
map_twice f g (some x) h = ap some (h x)

module _ (lib : WellKnown) where
  -- What protojson prints of a Struct is read back as that Struct.
  abbrev pub ReadsBack : Type 0
  ReadsBack =
      (s : lib.Struct) (raw : String)
      → lib.marshal_struct s ≡ some raw
      → json_to_struct lib raw ≡ some s

  raw_trip_idem :
      ReadsBack
      → (json : Option String)
      → struct_to_raw lib (raw_to_struct lib (struct_to_raw lib (raw_to_struct lib json)))
        ≡ struct_to_raw lib (raw_to_struct lib json)
  unfolding raw_to_struct struct_to_raw struct_to_json
  raw_trip_idem reads none = refl
  raw_trip_idem reads (some raw) = elim (Option-cases (json_to_struct lib raw)) [
    | inl nothing ↦ rw nothing refl
    | inr (s, parsed) ↦ elim (Option-cases (lib.marshal_struct s)) [
      | inl fails ↦ rw (parsed, fails) refl
      | inr (text, printed) ↦ rw (parsed, printed, reads s text printed, printed) refl
    ]
  ]

  tool_call_idem :
      ReadsBack
      → (t : ToolCallData)
      → proto_to_tool_call lib
          (tool_call_to_proto lib (proto_to_tool_call lib (tool_call_to_proto lib t)))
        ≡ proto_to_tool_call lib (tool_call_to_proto lib t)
  tool_call_idem reads t =
      rw
        (
          safe_int32_idem t.retry_count,
          raw_trip_idem reads t.arguments,
          raw_trip_idem reads t.result,
        )
        refl

  token_usage_idem :
      (u : TokenUsage)
      → proto_to_token_usage (token_usage_to_proto (proto_to_token_usage (token_usage_to_proto u)))
        ≡ proto_to_token_usage (token_usage_to_proto u)
  token_usage_idem u =
      rw
        (
          safe_int32_idem u.prompt_tokens,
          safe_int32_idem u.completion_tokens,
          safe_int32_idem u.total_tokens,
        )
        refl

  -- Whatever an event loses in its message it loses the first time: a second trip changes nothing.
  pub trip_twice :
      KeepsTimes lib
      → ReadsBack
      → (e : Event)
      → let trip = λ (x : Event). proto_to_event lib (event_to_proto lib x) in
        trip (trip e) ≡ trip e
  unfolding event_to_proto proto_to_event
  trip_twice keeps reads e =
      rw
        (
          type_trip_idem e.type,
          severity_trip_idem e.severity,
          keeps.timestamps e.timestamp,
          keeps.timestamps e.timestamp,
          keeps.durations e.duration,
          keeps.durations e.duration,
          map_twice prompt_to_proto proto_to_prompt e.prompt
              (λ p. rw (safe_int32_idem p.token_count) refl),
          map_twice response_to_proto proto_to_response e.response
              (λ r. rw (safe_int32_idem r.token_count) refl),
          map_twice (tool_call_to_proto lib) (proto_to_tool_call lib) e.tool_call
              (tool_call_idem reads),
          map_twice memory_to_proto proto_to_memory e.memory (λ m. refl),
          map_twice reasoning_to_proto proto_to_reasoning e.reasoning
              (λ r. rw (safe_int32_idem r.step) refl),
          map_twice error_to_proto proto_to_error e.error (λ x. refl),
          map_twice token_usage_to_proto proto_to_token_usage e.token_usage token_usage_idem,
        )
        refl
