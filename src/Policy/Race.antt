-- ===== src/Policy/Race.antt =====
-- internal/policy/config.go: requests of an agent without a bucket that are evaluated at once. Evaluate
-- holds the read lock only, while getBucket writes the map.
use agent_transponder.Prelude.{
  ℕ, zero, suc, ◌≤◌, ◌≡◌, refl, ap, ap₂, ◌∙◌, Bool, true, List, [], ◌∷◌, String, replicate, arith,
}
use agent_transponder.Prelude.Maps.{insert}
use agent_transponder.Prelude.Int.{pos}
use agent_transponder.Prelude.Float.{Float}
use agent_transponder.Types.Event.{Time}
use agent_transponder.Policy.Bucket.{new_token_bucket, allow}
use agent_transponder.Policy.{ConfigEngine, rate_limit_of, make_bucket}
use agent_transponder.Policy.Burst.{ExactIntegers, level, allow-level-suc}

module _ (float : Float) where
  open float use {F}

  -- k calls that have all looked for the agent's bucket before one of them has put it into the map:
  -- each makes a bucket, puts it there and takes from it, one call after the other. The bucket in the
  -- map is the one that its maker takes from.
  pub evaluate_at_once : ℕ → Time → ConfigEngine float → String → ConfigEngine float × List Bool
  evaluate_at_once zero now e agent_id = (e, [])
  evaluate_at_once (suc k) now e agent_id =
      let (b, allowed) = allow float now (make_bucket float e agent_id now) in
      let (e', more) =
        evaluate_at_once k now (record e { buckets = insert agent_id b e.buckets }) agent_id in
      (e', allowed ∷ more)

  -- However small the configured burst is, if it is not zero: k requests of an agent that has no
  -- bucket yet are all allowed when each of them has looked for the bucket before one of them has
  -- put it into the map. The integers up to the burst are taken to be exact in float64.
  pub burst_exceeded :
      (rate : F) (cap : ℕ) (now : Time) (k : ℕ) (e : ConfigEngine float) (agent_id : String)
      → ExactIntegers float rate cap
      → 1 ≤ cap
      → rate_limit_of float e.rules agent_id
        ≡ record { events_per_second = rate; burst_size = pos cap }
      → (evaluate_at_once k now e agent_id).1 ≡ replicate k true
  unfolding evaluate_at_once new_token_bucket
  burst_exceeded rate zero now k e agent_id exact some_burst cfg =
      absurd (omega (arith, some_burst))
  burst_exceeded rate (suc cap) now zero e agent_id exact some_burst cfg = refl
  burst_exceeded rate (suc cap) now (suc k) e agent_id exact some_burst cfg =
      let (b, allowed) = allow float now (make_bucket float e agent_id now) in
      let full : make_bucket float e agent_id now ≡ level float rate (suc cap) now (suc cap) =
        ap (λ c. new_token_bucket float c.events_per_second c.burst_size now) cfg in
      let taken : allowed ≡ true =
        ap (λ t. (allow float now t).1) full
        ∙ ap (λ p. p.1) (allow-level-suc float rate (suc cap) exact now cap (omega arith)) in
      ap₂ ◌∷◌ taken (
        burst_exceeded rate (suc cap) now k (record e { buckets = insert agent_id b e.buckets })
          agent_id exact some_burst cfg)
