-- ===== src/Policy/Burst.antt =====
-- How many requests the token bucket of internal/policy/config.go lets pass at one instant.
use Prim.Native.Nat.{min}
use agent_transponder.Prelude.{
  ℕ, zero, suc, ◌-◌, ◌≤◌, ◌<◌, ◌≡◌, ap, ap₂, ◌∙◌, true, false, none, some, List, [], ◌∷◌, ◌++◌,
  String, eq_refl, arith, leb, ltb, replicate,
}
use agent_transponder.Prelude.Maps.{lookup, insert, lookup-insert}
use agent_transponder.Prelude.Int.{pos, ◌-ℤ◌}
use agent_transponder.Prelude.Float.{Float}
use agent_transponder.Types.Event.{Time}
use agent_transponder.Identity.{AgentIdentity}
use agent_transponder.Policy.Bucket.{
  TokenBucket, new_token_bucket, refill, allow, elapsed_since, seconds,
}
use agent_transponder.Policy.{
  Decision, decision_allow, decision_throttle, EvalRequest, ConfigEngine, rate_limit_of, get_bucket,
  rate_limit, evaluate,
}
use agent_transponder.Policy.Access.{IsAuthorized, refusal-none}

elapsed_since_self : (now : Time) → elapsed_since now now ≡ pos 0
unfolding elapsed_since ◌-ℤ◌
elapsed_since_self now = ground arith

module _ (float : Float) where
  open float use {F, of_int, add, sub, mul, lt, le}

  -- IEEE 754: the integers up to 2 ^ 53 are exact, and so are their differences and order, and a
  -- finite rate times no time adds nothing to them.
  pub record ExactIntegers (rate : F) (cap : ℕ) : Type 0 where
    pub no_refill :
        (n : ℕ) → n ≤ cap → add (of_int (pos n)) (mul (seconds float (pos 0)) rate) ≡ of_int (pos n)
    pub sub_one : (n : ℕ) → n < cap → sub (of_int (pos (suc n))) (of_int (pos 1)) ≡ of_int (pos n)
    pub lt_int : (n : ℕ) → n ≤ cap → lt (of_int (pos cap)) (of_int (pos n)) ≡ ltb cap n
    pub le_one : (n : ℕ) → n ≤ cap → le (of_int (pos 1)) (of_int (pos n)) ≡ leb 1 n

  -- The decisions on the same request, again and again at one instant.
  pub decisions : ℕ → Time → ConfigEngine float → EvalRequest → List Decision
  decisions zero now e req = []
  decisions (suc k) now e req =
      let (e', result) = evaluate float now now e req in result.decision ∷ decisions k now e' req

  -- A bucket with n of its `cap` tokens, filled at the instant.
  abbrev pub level : F → ℕ → Time → ℕ → TokenBucket float
  level rate cap now n = record {
    last_fill = now;
    tokens = of_int (pos n);
    max = of_int (pos cap);
    rate = rate;
  }

  module _ (rate : F) (cap : ℕ) (exact : ExactIntegers rate cap) (now : Time) where
    refill-level :
        (n : ℕ) → n ≤ cap → refill float now (level rate cap now n) ≡ level rate cap now n
    unfolding refill
    refill-level n h = ground (arith, elapsed_since_self now, exact.no_refill n h, exact.lt_int n h)

    allow-level-zero : allow float now (level rate cap now 0) ≡ (level rate cap now 0, false)
    unfolding allow
    allow-level-zero = rw (refill-level 0 (omega arith)) (rw (exact.le_one 0 (omega arith)))

    pub allow-level-suc :
        (n : ℕ)
        → n < cap
        → allow float now (level rate cap now (suc n)) ≡ (level rate cap now n, true)
    unfolding allow
    allow-level-suc n h =
        rw (refill-level (suc n) h) (ground (arith, exact.le_one (suc n) h, exact.sub_one n h))

    module _ (agent : AgentIdentity) (action resource : String) where
      abbrev req : EvalRequest
      req = record { agent = some agent; action = action; resource = resource }

      evaluate-authorized :
          (e : ConfigEngine float)
          → IsAuthorized float e.rules agent.agent_id action
          → evaluate float now now e req ≡ rate_limit float now now e agent.agent_id
      unfolding evaluate
      evaluate-authorized e ok = rw (refusal-none float e.rules agent.agent_id action ok, evaluate)

      -- The bucket that an evaluation of the agent uses.
      abbrev bucket : ConfigEngine float → TokenBucket float
      bucket e = (get_bucket float e agent.agent_id now).0

      get_bucket-insert :
          (e : ConfigEngine float) (b : TokenBucket float) (m : List (String × TokenBucket float))
          → bucket (record e { buckets = insert agent.agent_id b m }) ≡ b
      unfolding get_bucket
      get_bucket-insert e b m =
          ground (arith, eq_refl agent.agent_id, lookup-insert agent.agent_id agent.agent_id b m)

      bucket-rate_limit :
          (e : ConfigEngine float)
          → bucket (rate_limit float now now e agent.agent_id).0 ≡ (allow float now (bucket e)).0
      unfolding rate_limit
      bucket-rate_limit e = get_bucket-insert e _ _

      bucket-fresh :
          (e : ConfigEngine float)
          → lookup agent.agent_id e.buckets ≡ none
          → rate_limit_of float e.rules agent.agent_id
            ≡ record { events_per_second = rate; burst_size = pos cap }
          → bucket e ≡ level rate cap now cap
      unfolding get_bucket new_token_bucket
      bucket-fresh e fresh cfg = ground arith

      -- One more request, with `n` tokens left: what is decided, and what is left.
      decided : ℕ → Decision
      decided zero = decision_throttle
      decided (suc n) = decision_allow

      left : ℕ → ℕ
      left zero = zero
      left (suc n) = n

      rate_limit-level :
          (e : ConfigEngine float) (n : ℕ)
          → n ≤ cap
          → bucket e ≡ level rate cap now n
          → ((rate_limit float now now e agent.agent_id).1.decision ≡ decided n)
            × (bucket (rate_limit float now now e agent.agent_id).0 ≡ level rate cap now (left n))
      unfolding rate_limit decided left
      rate_limit-level e zero h at = (
        rw at (rw allow-level-zero),
        bucket-rate_limit e ∙ ap (λ b. (allow float now b).0) at ∙ ap (λ p. p.0) allow-level-zero,
      )
      rate_limit-level e (suc n) h at = (
        rw at (rw (allow-level-suc n h)),
        bucket-rate_limit e
            ∙ ap (λ b. (allow float now b).0) at
            ∙ ap (λ p. p.0) (allow-level-suc n h),
      )

      left-le : (n : ℕ) → n ≤ cap → left n ≤ cap
      unfolding left
      left-le zero h = h
      left-le (suc n) h = omega arith

      decided-first :
          (k n : ℕ)
          → decided n
              ∷ (replicate (min k (left n)) decision_allow
                  ++ replicate (k - left n) decision_throttle)
            ≡ replicate (min (suc k) n) decision_allow ++ replicate (suc k - n) decision_throttle
      unfolding decided left
      decided-first k zero =
          let m : min k 0 ≡ 0 = omega arith in
          let m' : min (suc k) 0 ≡ 0 = omega arith in
          let d : k - 0 ≡ k = omega arith in
          let d' : suc k - 0 ≡ suc k = omega arith in rw (m, m', d, d')
      decided-first k (suc n) =
          let m : min (suc k) (suc n) ≡ suc (min k n) = omega arith in
          let d : suc k - suc n ≡ k - n = omega arith in rw (m, d)

      decisions-level :
          (k : ℕ) (e : ConfigEngine float) (n : ℕ)
          → IsAuthorized float e.rules agent.agent_id action
          → n ≤ cap
          → bucket e ≡ level rate cap now n
          → decisions k now e req
            ≡ replicate (min k n) decision_allow ++ replicate (k - n) decision_throttle
      unfolding decisions rate_limit
      decisions-level zero e n ok h at =
          let m : min 0 n ≡ 0 = omega arith in let d : 0 - n ≡ 0 = omega arith in rw (m, d)
      decisions-level (suc k) e n ok h at =
          let step = rate_limit-level e n h at in
          let same = evaluate-authorized e ok in
          let e' : ConfigEngine float = (rate_limit float now now e agent.agent_id).0 in
          rw same (
            ap₂ ◌∷◌ step.0 (decisions-level k e' (left n) ok (left-le n h) step.1)
            ∙ decided-first k n)

      -- An authorized agent without a bucket yet, whose configured burst is `cap`, asks k times at
      -- one instant, each request being evaluated after the one before it has returned: the first
      -- `cap` requests are allowed and all later ones are throttled. The integers up to `cap` are
      -- taken to be exact in float64.
      pub burst_at_once :
          (k : ℕ) (e : ConfigEngine float)
          → IsAuthorized float e.rules agent.agent_id action
          → lookup agent.agent_id e.buckets ≡ none
          → rate_limit_of float e.rules agent.agent_id
            ≡ record { events_per_second = rate; burst_size = pos cap }
          → decisions k now e req
            ≡ replicate (min k cap) decision_allow ++ replicate (k - cap) decision_throttle
      burst_at_once k e ok fresh cfg =
          decisions-level k e cap ok (omega arith) (bucket-fresh e fresh cfg)
