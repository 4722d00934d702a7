-- ===== src/Conversion/Roundtrip.antt =====
-- The round trip of an event through its message, by the conversion helpers of
-- cmd/ingestion/analysis.go.
use agent_transponder.Prelude.{
  String, ◌≡◌, refl, sym, ap, true, false, Option, none, some, List, [], ◌∷◌, ◌==◌, eq_iff, arith,
  any, All, subst, inl, inr, Bool-cases,
}
use mathlib.Core.Option
use agent_transponder.Prelude.Int.{ℤ, pos, ◌≤ℤ◌}
use agent_transponder.Types.Event.{
  EventType, Severity, PromptData, ResponseData, ToolCallData, ReasoningData, TokenUsage, Event,
  Time, Duration, event_prompt, event_response, event_tool_call, event_tool_result,
  event_memory_read, event_memory_write, event_reasoning_step, event_error, event_retry,
  event_metadata, severity_debug, severity_info, severity_warning, severity_error,
  severity_critical,
}
use agent_transponder.Conversion.Messages.{WellKnown}
use agent_transponder.Conversion.{
  max_int32, min_int32, safe_int32, event_type_to_proto, proto_to_event_type, severity_to_proto,
  proto_to_severity, raw_to_struct, struct_to_raw, event_to_proto, proto_to_event, prompt_to_proto,
  response_to_proto, tool_call_to_proto, memory_to_proto, reasoning_to_proto, error_to_proto,
  token_usage_to_proto, proto_to_prompt, proto_to_response, proto_to_tool_call, proto_to_memory,
  proto_to_reasoning, proto_to_error, proto_to_token_usage,
}

abbrev pub known_types : List EventType
known_types =
    event_prompt ∷ event_response ∷ event_tool_call ∷ event_tool_result ∷ event_memory_read
    ∷ event_memory_write ∷ event_reasoning_step ∷ event_error ∷ event_retry ∷ event_metadata ∷ []

abbrev pub known_severities : List Severity
known_severities =
    severity_debug ∷ severity_info ∷ severity_warning ∷ severity_error ∷ severity_critical ∷ []

abbrev pub FitsInt32 : ℤ → Type 0
FitsInt32 n = (min_int32 ≤ℤ n) × (n ≤ℤ max_int32)

pub safe_int32-id : (n : ℤ) → FitsInt32 n → safe_int32 n ≡ n
unfolding safe_int32
safe_int32-id n h = ground arith

pub safe_int32-FitsInt32 : (n : ℤ) → FitsInt32 (safe_int32 n)
unfolding safe_int32
safe_int32-FitsInt32 n = ground arith

pub All-any {ℓ} :
    (P : String → Type ℓ) (t : String) (known : List String)
    → All P known
    → any (λ k. t == k) known ≡ true
    → P t
All-any P t [] h e = ground arith
All-any P t (k ∷ known) (p, h) e = elim (Bool-cases (t == k)) [
  | inl here ↦ subst P (sym ((eq_iff t k).0 here)) p
  | inr there ↦ All-any P t known h (ground arith)
]

All-none :
    (t : String) (known : List String)
    → any (λ k. t == k) known ≡ false
    → All (λ k. (t == k) ≡ false) known
All-none t [] h = tt
All-none t (k ∷ known) h = (ground arith, All-none t known (ground arith))

-- A known type comes back, any other as the empty text.
pub type_trip-known :
    (t : EventType)
    → any (λ k. t == k) known_types ≡ true
    → proto_to_event_type (event_type_to_proto t) ≡ t
unfolding event_type_to_proto proto_to_event_type
type_trip-known t =
    All-any (λ t. proto_to_event_type (event_type_to_proto t) ≡ t) t known_types
      (refl, (refl, (refl, (refl, (refl, (refl, (refl, (refl, (refl, (refl, tt))))))))))

pub type_trip-unknown :
    (t : EventType)
    → any (λ k. t == k) known_types ≡ false
    → proto_to_event_type (event_type_to_proto t) ≡ ""
unfolding event_type_to_proto proto_to_event_type
type_trip-unknown t h =
    let (h₀, (h₁, (h₂, (h₃, (h₄, (h₅, (h₆, (h₇, (h₈, (h₉, _)))))))))) = All-none t known_types h in
    rw (h₀, h₁, h₂, h₃, h₄, h₅, h₆, h₇, h₈, h₉) refl

pub severity_trip-known :
    (s : Severity)
    → any (λ k. s == k) known_severities ≡ true
    → proto_to_severity (severity_to_proto s) ≡ s
unfolding severity_to_proto proto_to_severity
severity_trip-known s =
    All-any (λ s. proto_to_severity (severity_to_proto s) ≡ s) s known_severities
      (refl, (refl, (refl, (refl, (refl, tt)))))

pub severity_trip-unknown :
    (s : Severity)
    → any (λ k. s == k) known_severities ≡ false
    → proto_to_severity (severity_to_proto s) ≡ ""
unfolding severity_to_proto proto_to_severity
severity_trip-unknown s h =
    let (h₀, (h₁, (h₂, (h₃, (h₄, _))))) = All-none s known_severities h in
    rw (h₀, h₁, h₂, h₃, h₄) refl

-- What a payload loses, it loses once.
map-map {ℓ ℓ'} :
    {A : Type ℓ} {B : Type ℓ'} (f : A → B) (g : B → A) (o : Option A)
    → ((x : A) → o ≡ some x → g (f x) ≡ x)
    → Option.map g (Option.map f o) ≡ o
map-map f g none h = refl
map-map f g (some x) h = ap some (h x refl)

-- What a trip keeps: known types and severities, numbers of 32 bits, and arguments and results
-- that the two JSON libraries print as they read them.
module _ (lib : WellKnown) where
  abbrev pub IsCanonical : Option String → Type 0
  IsCanonical json = struct_to_raw lib (raw_to_struct lib json) ≡ json

  pub record IsForwardable (e : Event) : Type 0 where
    pub known_type : any (λ k. e.type == k) known_types ≡ true
    pub known_severity : any (λ k. e.severity == k) known_severities ≡ true
    pub prompt_fits : (p : PromptData) → e.prompt ≡ some p → FitsInt32 p.token_count
    pub response_fits : (r : ResponseData) → e.response ≡ some r → FitsInt32 r.token_count
    pub tool_call_fits :
        (t : ToolCallData)
        → e.tool_call ≡ some t
        → FitsInt32 t.retry_count × IsCanonical t.arguments × IsCanonical t.result
    pub reasoning_fits : (r : ReasoningData) → e.reasoning ≡ some r → FitsInt32 r.step
    pub usage_fits :
        (u : TokenUsage)
        → e.token_usage ≡ some u
        → FitsInt32 u.prompt_tokens × FitsInt32 u.completion_tokens × FitsInt32 u.total_tokens

  -- timestamppb and durationpb keep every time and duration.
  pub record KeepsTimes : Type 0 where
    pub timestamps : (t : Time) → lib.as_time (some (lib.new_timestamp t)) ≡ t
    pub durations : (d : Duration) → lib.as_duration (some (lib.new_duration d)) ≡ d

  tool_call-fits :
      (t : ToolCallData)
      → FitsInt32 t.retry_count × IsCanonical t.arguments × IsCanonical t.result
      → proto_to_tool_call lib (tool_call_to_proto lib t) ≡ t
  tool_call-fits t (fits, arguments, result) =
      rw (safe_int32-id t.retry_count fits, arguments, result) refl

  token_usage-fits :
      (u : TokenUsage)
      → FitsInt32 u.prompt_tokens × FitsInt32 u.completion_tokens × FitsInt32 u.total_tokens
      → proto_to_token_usage (token_usage_to_proto u) ≡ u
  token_usage-fits u (p, c, t) =
      rw
        (
          safe_int32-id u.prompt_tokens p,
          safe_int32-id u.completion_tokens c,
          safe_int32-id u.total_tokens t,
        )
        refl

  -- An event with a known type and severity, counts of 32 bits and canonical JSON comes back from
  -- its message as it was, only without the time of receipt and the list of redacted fields.
  pub proto_to_event-event_to_proto :
      KeepsTimes
      → (e : Event) → IsForwardable e
      → proto_to_event lib (event_to_proto lib e)
        ≡ record e { received_at = pos 0; redacted_fields = [] }
  unfolding event_to_proto proto_to_event
  proto_to_event-event_to_proto keeps e f =
      rw
        (
          type_trip-known e.type f.known_type,
          severity_trip-known e.severity f.known_severity,
          keeps.timestamps e.timestamp,
          keeps.durations e.duration,
          map-map prompt_to_proto proto_to_prompt e.prompt
              (λ p is. rw (safe_int32-id p.token_count (f.prompt_fits p is)) refl),
          map-map response_to_proto proto_to_response e.response
              (λ r is. rw (safe_int32-id r.token_count (f.response_fits r is)) refl),
          map-map (tool_call_to_proto lib) (proto_to_tool_call lib) e.tool_call
              (λ t is. tool_call-fits t (f.tool_call_fits t is)),
          map-map memory_to_proto proto_to_memory e.memory (λ m is. refl),
          map-map reasoning_to_proto proto_to_reasoning e.reasoning
              (λ r is. rw (safe_int32-id r.step (f.reasoning_fits r is)) refl),
          map-map error_to_proto proto_to_error e.error (λ x is. refl),
          map-map token_usage_to_proto proto_to_token_usage e.token_usage
              (λ u is. token_usage-fits u (f.usage_fits u is)),
        )
        refl
