-- ===== src/Redaction/Reported.antt =====
-- internal/redaction/redactor.go: the fields that Redact reports, and those that it changes.
use agent_transponder.Prelude.{
  ◌≡◌, refl, ◌↔◌, String, eq_iff, Bool, false, Option, none, some, List, [], ◌∷◌, ◌++◌, arith,
}
use agent_transponder.Types.Event.{
  Event, PromptData, ResponseData, ToolCallData, MemoryData, ReasoningData, ErrorData,
}
use agent_transponder.Redaction.{
  Regexp, RegexRedactor, scrub, scrub_raw, reported, redact_prompt, redact_response,
  redact_tool_call, redact_tool, redact_memory, redact_reasoning, redact_error, redact, replaced,
}

append-none {ℓ} : {A : Type ℓ} (xs ys : List A) → (xs ++ ys ≡ []) ↔ ((xs ≡ []) × (ys ≡ []))
append-none [] ys = (λ h. (refl, h), λ h. h.1)
append-none (x ∷ xs) ys = (λ h. absurd (ground (arith, h)), λ h. absurd (ground (arith, h.0)))

module _ (lib : Regexp) where
  -- A text is reported exactly if it changed.
  scrub-same :
      (r : RegexRedactor lib) (text : String)
      → ((scrub lib r text).1 ≡ false) ↔ ((scrub lib r text).0 ≡ text)
  unfolding scrub
  scrub-same r text = ground (arith, eq_iff (replaced lib r.marker r.patterns text) text)

  reported-none :
      (name : String) (changed : Bool) → (reported lib name changed ≡ []) ↔ (changed ≡ false)
  unfolding reported
  reported-none name changed = ground arith

  -- What a part of Redact reports is nothing exactly if it left its payload as it was.
  abbrev IsHonest {ℓ} : {A : Type ℓ} → A → A × List String → Type ℓ
  IsHonest payload (payload', names) = (names ≡ []) ↔ (payload' ≡ payload)

  prompt-IsHonest :
      (r : RegexRedactor lib) (p : Option PromptData) → IsHonest p (redact_prompt lib r p)
  unfolding redact_prompt
  prompt-IsHonest r none = (λ h. refl, λ h. refl)
  prompt-IsHonest r (some p) =
      ground
        (arith, scrub-same r p.content, reported-none "prompt.content" (scrub lib r p.content).1)

  response-IsHonest :
      (r : RegexRedactor lib) (p : Option ResponseData) → IsHonest p (redact_response lib r p)
  unfolding redact_response
  response-IsHonest r none = (λ h. refl, λ h. refl)
  response-IsHonest r (some p) =
      ground
        (arith, scrub-same r p.content, reported-none "response.content" (scrub lib r p.content).1)

  memory-IsHonest :
      (r : RegexRedactor lib) (p : Option MemoryData) → IsHonest p (redact_memory lib r p)
  unfolding redact_memory
  memory-IsHonest r none = (λ h. refl, λ h. refl)
  memory-IsHonest r (some p) =
      ground (arith, scrub-same r p.value, reported-none "memory.value" (scrub lib r p.value).1)

  reasoning-IsHonest :
      (r : RegexRedactor lib) (p : Option ReasoningData) → IsHonest p (redact_reasoning lib r p)
  unfolding redact_reasoning
  reasoning-IsHonest r none = (λ h. refl, λ h. refl)
  reasoning-IsHonest r (some p) =
      ground
        (arith, scrub-same r p.content, reported-none "reasoning.content" (scrub lib r p.content).1)

  error-IsHonest :
      (r : RegexRedactor lib) (p : Option ErrorData) → IsHonest p (redact_error lib r p)
  unfolding redact_error
  error-IsHonest r none = (λ h. refl, λ h. refl)
  error-IsHonest r (some p) =
      let names =
        append-none (reported lib "error.message" (scrub lib r p.message).1)
          (reported lib "error.stacktrace" (scrub lib r p.stacktrace).1) in
      ground (
        arith,
        names,
        scrub-same r p.message,
        scrub-same r p.stacktrace,
        reported-none "error.message" (scrub lib r p.message).1,
        reported-none "error.stacktrace" (scrub lib r p.stacktrace).1,
      )

  scrub_raw-same :
      (r : RegexRedactor lib) (raw : Option String)
      → ((scrub_raw lib r raw).1 ≡ false) ↔ ((scrub_raw lib r raw).0 ≡ raw)
  unfolding scrub_raw
  scrub_raw-same r none = (λ h. refl, λ h. refl)
  scrub_raw-same r (some raw) = ground (arith, scrub-same r raw)

  tool_call-IsHonest :
      (r : RegexRedactor lib) (tc : ToolCallData) → IsHonest tc (redact_tool_call lib r tc)
  unfolding redact_tool_call
  tool_call-IsHonest r tc =
      let first = reported lib "tool_call.arguments" (scrub_raw lib r tc.arguments).1 in
      let second = reported lib "tool_call.result" (scrub_raw lib r tc.result).1 in
      let third = reported lib "tool_call.error_msg" (scrub lib r tc.error_msg).1 in
      ground (
        arith,
        append-none first (second ++ third),
        append-none second third,
        scrub_raw-same r tc.arguments,
        scrub_raw-same r tc.result,
        scrub-same r tc.error_msg,
        reported-none "tool_call.arguments" (scrub_raw lib r tc.arguments).1,
        reported-none "tool_call.result" (scrub_raw lib r tc.result).1,
        reported-none "tool_call.error_msg" (scrub lib r tc.error_msg).1,
      )

  tool-IsHonest :
      (r : RegexRedactor lib) (p : Option ToolCallData) → IsHonest p (redact_tool lib r p)
  unfolding redact_tool
  tool-IsHonest r none = (λ h. refl, λ h. refl)
  tool-IsHonest r (some tc) = ground (arith, tool_call-IsHonest r tc)

  -- Redact reports no field exactly if it leaves the whole event as it was.
  pub redact-none_iff :
      (r : RegexRedactor lib) (event : Event)
      → ((redact lib r event).1 ≡ []) ↔ ((redact lib r event).0 ≡ event)
  unfolding redact
  redact-none_iff r event =
      let names₁ = (redact_prompt lib r event.prompt).1 in
      let names₂ = (redact_response lib r event.response).1 in
      let names₃ = (redact_tool lib r event.tool_call).1 in
      let names₄ = (redact_memory lib r event.memory).1 in
      let names₅ = (redact_reasoning lib r event.reasoning).1 in
      let names₆ = (redact_error lib r event.error).1 in
      ground (
        arith,
        append-none names₁ (names₂ ++ (names₃ ++ (names₄ ++ (names₅ ++ names₆)))),
        append-none names₂ (names₃ ++ (names₄ ++ (names₅ ++ names₆))),
        append-none names₃ (names₄ ++ (names₅ ++ names₆)),
        append-none names₄ (names₅ ++ names₆),
        append-none names₅ names₆,
        prompt-IsHonest r event.prompt,
        response-IsHonest r event.response,
        tool-IsHonest r event.tool_call,
        memory-IsHonest r event.memory,
        reasoning-IsHonest r event.reasoning,
        error-IsHonest r event.error,
      )
