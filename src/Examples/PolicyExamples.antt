-- ===== src/Examples/PolicyExamples.antt =====
-- The theorems on internal/policy at concrete inputs, with float64 as thousandths.
use agent_transponder.Prelude.{◌≡◌, refl, ◌↔◌, none, some, [], ◌∷◌, eq_iff, arith}
use agent_transponder.Prelude.Maps.{lookup}
use agent_transponder.Prelude.Int.{pos}
use agent_transponder.Prelude.Float.{milli}
use agent_transponder.Identity.{AgentIdentity}
use agent_transponder.Policy.Bucket.{seconds}
use agent_transponder.Policy.{
  decision_allow, decision_deny, decision_throttle, EvalRequest, RateLimitConfig, PolicyRules,
  ConfigEngine, rate_limit_of, evaluate,
}
use agent_transponder.Policy.Access.{IsAuthorized, evaluate-deny_iff}
use agent_transponder.Policy.Limits.{OrderLaws, IsBounded, evaluate-IsBounded}
use agent_transponder.Policy.Burst.{ExactIntegers, decisions, burst_at_once}

abbrev cfg : RateLimitConfig milli
cfg = record { events_per_second = 10_000; burst_size = pos 2 }

abbrev rules : PolicyRules milli
rules = record {
  agent_overrides = [];
  allowed_actions = ("reader", "query" ∷ []) ∷ [];
  deny_list = "mallory" ∷ [];
  default_rate_limit = cfg;
}

abbrev engine : ConfigEngine milli
engine = record { buckets = []; rules = rules }

abbrev agent : AgentIdentity
agent = record {
  agent_id = "sdk-demo";
  tenant_id = "my-team";
  raw = "CN=sdk-demo";
  hmac_key = 1 ∷ [];
}

abbrev ingest : EvalRequest
ingest = record { agent = some agent; action = "ingest"; resource = "events" }

milli_order : OrderLaws milli
milli_order = record { lt_irrefl = λ x. ground arith; lt-sub_one = λ m x h. ground arith }

milli_exact : ExactIntegers milli 10_000 2
unfolding seconds
milli_exact = record {
  no_refill = λ n h. omega arith;
  sub_one = λ n h. omega arith;
  lt_int = λ n h. ground arith;
  le_one = λ n h. ground arith;
}

evaluate-deny_iff_example :
    ((evaluate milli (pos 5) (pos 5) engine ingest).1.decision ≡ decision_deny)
    ↔ (¬ IsAuthorized milli rules "sdk-demo" "ingest")
evaluate-deny_iff_example = evaluate-deny_iff milli (pos 5) (pos 5) engine agent "ingest" "events"

no_buckets : IsBounded milli engine
unfolding lookup
no_buckets id b found = cc

evaluate-IsBounded_example : IsBounded milli (evaluate milli (pos 5) (pos 5) engine ingest).0
evaluate-IsBounded_example =
    evaluate-IsBounded milli milli_order (pos 5) (pos 5) engine ingest no_buckets

authorized : IsAuthorized milli rules "sdk-demo" "ingest"
unfolding lookup
authorized = record {
  not_denied = λ h. ground (arith, eq_iff "sdk-demo" "mallory");
  permitted = λ allowed e. cc;
}

no_bucket : lookup "sdk-demo" engine.buckets ≡ none
unfolding lookup
no_bucket = refl

demo_rate : rate_limit_of milli rules "sdk-demo" ≡ cfg
unfolding rate_limit_of lookup
demo_rate = refl

burst_at_once_example :
    decisions milli 3 (pos 5) engine ingest
    ≡ decision_allow ∷ decision_allow ∷ decision_throttle ∷ []
burst_at_once_example =
    burst_at_once milli 10_000 2 milli_exact (pos 5) agent "ingest" "events" 3 engine authorized
      no_bucket demo_rate
