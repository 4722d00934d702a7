-- ===== src/Redaction.antt =====
-- internal/redaction/redactor.go: secrets in the texts of an event are replaced by a marker. The
-- package regexp is a parameter.
pub mod Reported
pub mod Built
use agent_transponder.Prelude.{
  String, ◌==◌, Bool, true, false, not, Option, none, some, List, [], ◌∷◌, ◌++◌, map, ltb, length,
  if◌then◌else◌,
}
use agent_transponder.Types.Event.{
  Event, PromptData, ResponseData, ToolCallData, MemoryData, ReasoningData, ErrorData,
}

-- regexp.Compile, ReplaceAllString and MatchString.
pub record Regexp : Type 1 where
  pub Regex : Type 0
  pub compile : String → Option Regex
  pub replace_all_string : Regex → String → String → String
  pub match_string : Regex → String → Bool

module _ (lib : Regexp) where
  open lib use {Regex}

  pub record Pattern : Type 0 where
    pub name : String
    pub regex : Regex
    pub raw_expr : String

  pub record RegexRedactor : Type 0 where
    pub patterns : List Pattern
    pub marker : String

  -- The loop of scrub over the patterns.
  unfoldable pub replaced : String → List Pattern → String → String
  replaced marker [] text = text
  replaced marker (p ∷ patterns) text =
      replaced marker patterns (lib.replace_all_string p.regex text marker)

  -- The new text, and whether it differs.
  unfoldable pub scrub : RegexRedactor → String → String × Bool
  scrub r text =
      if text == ""
      then (text, false)
      else let text' = replaced r.marker r.patterns text in (text', not (text' == text))

  -- The name of a field, if it was redacted.
  unfoldable pub reported : String → Bool → List String
  reported name changed = if changed then name ∷ [] else []

  unfoldable pub redact_prompt : RegexRedactor → Option PromptData → Option PromptData × List String
  redact_prompt r none = (none, [])
  redact_prompt r (some p) =
      let (text, changed) = scrub r p.content in
      (some (record p { content = text }), reported "prompt.content" changed)

  unfoldable pub redact_response :
      RegexRedactor → Option ResponseData → Option ResponseData × List String
  redact_response r none = (none, [])
  redact_response r (some p) =
      let (text, changed) = scrub r p.content in
      (some (record p { content = text }), reported "response.content" changed)

  -- A nil text is scrubbed as the empty one, which does not change it.
  unfoldable pub scrub_raw : RegexRedactor → Option String → Option String × Bool
  scrub_raw r none = (none, false)
  scrub_raw r (some raw) = let (text, changed) = scrub r raw in (some text, changed)

  unfoldable pub redact_tool_call : RegexRedactor → ToolCallData → ToolCallData × List String
  redact_tool_call r tc =
      let (arguments, changed) = scrub_raw r tc.arguments in
      let (result, changed') = scrub_raw r tc.result in
      let (error_msg, changed'') = scrub r tc.error_msg in
      (
        record tc { arguments = arguments; result = result; error_msg = error_msg },
        reported "tool_call.arguments" changed
            ++ (reported "tool_call.result" changed' ++ reported "tool_call.error_msg" changed''),
      )

  unfoldable pub redact_tool :
      RegexRedactor → Option ToolCallData → Option ToolCallData × List String
  redact_tool r none = (none, [])
  redact_tool r (some tc) = let (tc', names) = redact_tool_call r tc in (some tc', names)

  unfoldable pub redact_memory : RegexRedactor → Option MemoryData → Option MemoryData × List String
  redact_memory r none = (none, [])
  redact_memory r (some p) =
      let (text, changed) = scrub r p.value in
      (some (record p { value = text }), reported "memory.value" changed)

  unfoldable pub redact_reasoning :
      RegexRedactor → Option ReasoningData → Option ReasoningData × List String
  redact_reasoning r none = (none, [])
  redact_reasoning r (some p) =
      let (text, changed) = scrub r p.content in
      (some (record p { content = text }), reported "reasoning.content" changed)

  unfoldable pub redact_error : RegexRedactor → Option ErrorData → Option ErrorData × List String
  redact_error r none = (none, [])
  redact_error r (some p) =
      let (message, changed) = scrub r p.message in
      let (stacktrace, changed') = scrub r p.stacktrace in
      (
        some (record p { message = message; stacktrace = stacktrace }),
        reported "error.message" changed ++ reported "error.stacktrace" changed',
      )

  -- The event is redacted in place; the names of the redacted fields are returned.
  unfoldable pub redact : RegexRedactor → Event → Event × List String
  redact r event =
      let (prompt, names₁) = redact_prompt r event.prompt in
      let (response, names₂) = redact_response r event.response in
      let (tool_call, names₃) = redact_tool r event.tool_call in
      let (memory, names₄) = redact_memory r event.memory in
      let (reasoning, names₅) = redact_reasoning r event.reasoning in
      let (error, names₆) = redact_error r event.error in
      (
        record event {
          prompt = prompt;
          response = response;
          tool_call = tool_call;
          memory = memory;
          reasoning = reasoning;
          error = error;
        },
        names₁ ++ (names₂ ++ (names₃ ++ (names₄ ++ (names₅ ++ names₆)))),
      )

  unfoldable pub add_pattern : String → String → RegexRedactor → RegexRedactor × Bool
  add_pattern name expr r = elim (lib.compile expr) [
    | none ↦ (r, false)
    | some regex ↦ (
      record r {
        patterns = r.patterns ++ record { name = name; regex = regex; raw_expr = expr } ∷ [];
      },
      true,
    )
  ]

  unfoldable pub pattern_names : RegexRedactor → List String
  pattern_names r = map (λ (p : Pattern). p.name) r.patterns

  -- The loop of ContainsSensitiveData.
  unfoldable pub matched : List Pattern → String → List String
  matched [] s = []
  matched (p ∷ patterns) s =
      let rest = matched patterns s in if lib.match_string p.regex s then p.name ∷ rest else rest

  unfoldable pub contains_sensitive_data : RegexRedactor → String → Bool × List String
  contains_sensitive_data r s = let names = matched r.patterns s in (ltb 0 (length names), names)
