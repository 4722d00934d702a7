-- ===== src/Policy/Limits.antt =====
-- The token buckets of internal/policy/config.go: their bound, whose bucket an evaluation
-- touches, and how many requests pass at one instant.
use agent_transponder.Prelude.{
  ◌≡◌, refl, ◌≢◌, inl, inr, false, some, String, eq_iff, arith, Bool-cases, Option-cases,
}
use agent_transponder.Prelude.Maps.{lookup, lookup-insert}
use agent_transponder.Prelude.Int.{ℤ, pos}
use agent_transponder.Prelude.Float.{Float}
use agent_transponder.Types.Event.{Time}
use agent_transponder.Identity.{AgentIdentity}
use agent_transponder.Policy.Bucket.{
  TokenBucket, new_token_bucket, refill, allow, elapsed_since, seconds,
}
use agent_transponder.Policy.{
  decision_deny, EvalRequest, ConfigEngine, rate_limit_of, get_bucket, refusal, rate_limit,
  evaluate,
}
use agent_transponder.Policy.Access.{rate_limit-ne-deny}

module _ (float : Float) where
  open float use {F, of_int, add, sub, mul, lt}

  -- IEEE 754: nothing is below itself, and taking 1 away brings nothing above a bound.
  pub record OrderLaws : Type 0 where
    pub lt_irrefl : (x : F) → lt x x ≡ false
    pub lt-sub_one : (m x : F) → lt m x ≡ false → lt m (sub x (of_int (pos 1))) ≡ false

  -- No bucket holds more than its maximum.
  abbrev pub IsBounded : ConfigEngine float → Type 0
  IsBounded e =
      (id : String) (b : TokenBucket float)
      → lookup id e.buckets ≡ some b
      → lt b.max b.tokens ≡ false

  module _ (laws : OrderLaws) where
    new_token_bucket-bounded :
        (rate : F) (burst : ℤ) (now : Time)
        → let b = new_token_bucket float rate burst now in lt b.max b.tokens ≡ false
    unfolding new_token_bucket
    new_token_bucket-bounded rate burst now = laws.lt_irrefl (of_int burst)

    refill-bounded :
        (now : Time) (b : TokenBucket float)
        → lt (refill float now b).max (refill float now b).tokens ≡ false
    unfolding refill
    refill-bounded now b = ground (
      arith,
      laws.lt_irrefl b.max,
      Bool-cases
          (lt b.max (add b.tokens (mul (seconds float (elapsed_since now b.last_fill)) b.rate))),
    )

    allow-bounded :
        (now : Time) (b : TokenBucket float)
        → lt (allow float now b).0.max (allow float now b).0.tokens ≡ false
    unfolding allow
    allow-bounded now b = ground (
      arith,
      refill-bounded now b,
      laws.lt-sub_one (refill float now b).max (refill float now b).tokens,
    )

    get_bucket-bounded :
        (e : ConfigEngine float) (id : String) (created : Time)
        → IsBounded e
        → (j : String) (b : TokenBucket float) → lookup j (get_bucket float e id created).1 ≡ some b
        → lt b.max b.tokens ≡ false
    unfolding get_bucket rate_limit_of
    get_bucket-bounded e id created h j b found = elim (Option-cases (lookup id e.buckets)) [
      | inl fresh ↦
          let cfg = rate_limit_of float e.rules id in
          ground (
            arith,
            eq_iff j id,
            h j b,
            new_token_bucket-bounded cfg.events_per_second cfg.burst_size created,
            lookup-insert id j (new_token_bucket float cfg.events_per_second cfg.burst_size created)
                e.buckets,
          )
      | inr (b', old) ↦ h j b (ground arith)
    ]

    rate_limit-IsBounded :
        (created now : Time) (e : ConfigEngine float) (id : String)
        → IsBounded e
        → IsBounded (rate_limit float created now e id).0
    unfolding rate_limit
    rate_limit-IsBounded created now e id h j b found = ground (
      arith,
      allow-bounded now (get_bucket float e id created).0,
      eq_iff j id,
      lookup-insert id j (allow float now (get_bucket float e id created).0).0
          (get_bucket float e id created).1,
      get_bucket-bounded e id created h j b,
    )

    -- After an evaluation, of any agent and with any outcome, no bucket holds more than its
    -- maximum if none did before.
    pub evaluate-IsBounded :
        (created now : Time) (e : ConfigEngine float) (req : EvalRequest)
        → IsBounded e
        → IsBounded (evaluate float created now e req).0
    unfolding evaluate
    evaluate-IsBounded created now e req h = elim (Option-cases req.agent) [
      | inl nobody ↦ rw (nobody, evaluate) h
      | inr (agent, known) ↦ elim (Option-cases (refusal float e.rules agent.agent_id req.action)) [
        | inl passed ↦
            rw (known, passed, evaluate) (rate_limit-IsBounded created now e agent.agent_id h)
        | inr (reason, refused) ↦ rw (known, refused, evaluate) h
      ]
    ]

  get_bucket-lookup_ne :
      (e : ConfigEngine float) (id j : String) (created : Time)
      → j ≢ id
      → lookup j (get_bucket float e id created).1 ≡ lookup j e.buckets
  unfolding get_bucket rate_limit_of
  get_bucket-lookup_ne e id j created ne = ground (
    arith,
    eq_iff j id,
    lookup-insert id j
        (new_token_bucket float (rate_limit_of float e.rules id).events_per_second
          (rate_limit_of float e.rules id).burst_size created)
        e.buckets,
  )

  rate_limit_isolated :
      (created now : Time) (e : ConfigEngine float) (id j : String)
      → j ≢ id
      → lookup j (rate_limit float created now e id).0.buckets ≡ lookup j e.buckets
  unfolding rate_limit
  rate_limit_isolated created now e id j ne = ground (
    arith,
    eq_iff j id,
    lookup-insert id j (allow float now (get_bucket float e id created).0).0
        (get_bucket float e id created).1,
    get_bucket-lookup_ne e id j created ne,
  )

  rate_limit-rules :
      (created now : Time) (e : ConfigEngine float) (id : String)
      → (rate_limit float created now e id).0.rules ≡ e.rules
  unfolding rate_limit
  rate_limit-rules created now e id = refl

  -- An evaluation leaves the rules and the bucket of every other agent as they were, and one that
  -- denies leaves the whole engine as it was.
  pub evaluate_isolated :
      (created now : Time) (e : ConfigEngine float) (agent : AgentIdentity)
      (action resource : String)
      → let req : EvalRequest = record {
        agent = some agent;
        action = action;
        resource = resource;
      } in
        let (e', result) = evaluate float created now e req in
        ((j : String) → j ≢ agent.agent_id → lookup j e'.buckets ≡ lookup j e.buckets)
        × (e'.rules ≡ e.rules)
        × (result.decision ≡ decision_deny → e' ≡ e)
  unfolding evaluate
  evaluate_isolated created now e agent action resource =
      let id = agent.agent_id in
      elim (Option-cases (refusal float e.rules id action)) [
        | inl passed ↦ (
          λ j ne. rw (passed, evaluate) (rate_limit_isolated created now e id j ne),
          rw (passed, evaluate) (rate_limit-rules created now e id),
          λ d. absurd (rate_limit-ne-deny float created now e id (ground arith)),
        )
        | inr (reason, refused) ↦
            (λ j ne. rw (refused, evaluate), rw (refused, evaluate), λ d. rw (refused, evaluate))
      ]
