-- ===== src/Detectors/Finding.antt =====
-- internal/analyzer/detector.go and the detection types of internal/types/event.go. A text that
-- fmt.Sprintf makes is its format and its arguments.
use agent_transponder.Prelude.{String, ◌==◌, Bool, List, [], ◌∷◌, ◌++◌, any, if◌then◌else◌}
use agent_transponder.Prelude.Int.{ℤ}
use agent_transponder.Prelude.Float.{Float}
use agent_transponder.Types.Event.{Time, Severity}

abbrev pub detection_loop : String
detection_loop = "task_loop"

abbrev pub detection_tool_misuse : String
detection_tool_misuse = "tool_misuse"

abbrev pub detection_goal_drift : String
detection_goal_drift = "goal_drift"

pub data Arg (F : Type 0) : Type 0 where
  text : String → Arg F
  texts : List String → Arg F
  number : ℤ → Arg F
  float : F → Arg F

pub record Formatted (F : Type 0) : Type 0 where
  pub format : String
  pub args : List (Arg F)

pub record Finding (F : Type 0) : Type 0 where
  pub id : Formatted F
  pub session_id : String
  pub agent_id : String
  pub tenant_id : String
  pub timestamp : Time
  pub detector : String
  pub type : String
  pub severity : Severity
  pub confidence : F
  pub message : Formatted F
  pub event_ids : List String
  pub evidence : Formatted F

module _ (fl : Float) where
  open fl use {F, of_int, lit, add, mul, div, lt, trunc}

  -- min(a, b)
  unfoldable pub min_float : F → F → F
  min_float a b = if lt b a then b else a

  unfoldable pub round2 : F → F
  round2 f = div (of_int (trunc (add (mul f (lit 100 0)) (lit 5 1)))) (lit 100 0)

-- A Go `map[string]struct{}` is a list without repetitions.
abbrev pub has : String → List String → Bool
has k set = any (λ key. k == key) set

abbrev pub put : String → List String → List String
put k set = if has k set then set else set ++ k ∷ []
