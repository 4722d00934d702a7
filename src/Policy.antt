-- ===== src/Policy.antt =====
-- internal/policy/engine.go and config.go: access control and token buckets. The engine's clock
-- is read twice in an evaluation at most, once when a bucket is made and once when it is filled;
-- the two readings are arguments. A reason is kept as the arguments of its text. Reading and
-- parsing the YAML file are not modelled: a reload is given what they return.
pub mod Bucket
pub mod Access
pub mod Limits
pub mod Burst
pub mod Race
use agent_transponder.Prelude.{
  Bool, true, false, ◌||◌, Option, none, some, List, [], String, ◌==◌, any, if◌then◌else◌,
}
use agent_transponder.Prelude.Maps.{Map, lookup, insert}
use agent_transponder.Prelude.Int.{ℤ, pos, eqb_ℤ}
use agent_transponder.Prelude.Float.{Float}
use agent_transponder.Types.Event.{Time, Duration}
use agent_transponder.Identity.{AgentIdentity}
use agent_transponder.Policy.Bucket.{TokenBucket, new_token_bucket, allow, retry_after}

pub data Decision : Type 0 where
  decision_allow decision_deny decision_throttle : Decision

pub data Reason : Type 0 where
  no_reason no_agent_identity on_deny_list rate_limit_exceeded : Reason
  not_authorized : String → String → Reason

pub record EvalResult : Type 0 where
  pub decision : Decision
  pub reason : Reason
  pub retry_after : Duration

pub record EvalRequest : Type 0 where
  pub agent : Option AgentIdentity
  pub action : String
  pub resource : String

pub deny : Reason → EvalResult
deny reason = record { decision = decision_deny; reason = reason; retry_after = pos 0 }

-- The loop over `allowed`.
unfoldable pub action_allowed : String → List String → Bool
action_allowed action = any (λ a. a == action || a == "*")

module _ (float : Float) where
  open float use {F, of_int, eq}

  pub record RateLimitConfig : Type 0 where
    pub events_per_second : F
    pub burst_size : ℤ

  pub record PolicyRules : Type 0 where
    pub agent_overrides : Map RateLimitConfig
    pub allowed_actions : Map (List String)
    pub deny_list : List String
    pub default_rate_limit : RateLimitConfig

  pub record ConfigEngine : Type 0 where
    pub buckets : Map (TokenBucket float)
    pub rules : PolicyRules

  -- The configuration of an agent's bucket.
  unfoldable pub rate_limit_of : PolicyRules → String → RateLimitConfig
  rate_limit_of rules agent_id = elim (lookup agent_id rules.agent_overrides) [
    | none ↦ rules.default_rate_limit
    | some override ↦ override
  ]

  -- A bucket for an agent that has none.
  abbrev pub make_bucket : ConfigEngine → String → Time → TokenBucket float
  make_bucket e agent_id created =
      let cfg = rate_limit_of e.rules agent_id in
      new_token_bucket float cfg.events_per_second cfg.burst_size created

  -- The bucket, and the map that holds it afterwards.
  unfoldable pub get_bucket :
      ConfigEngine → String → Time → TokenBucket float × Map (TokenBucket float)
  unfolding rate_limit_of
  get_bucket e agent_id created = elim (lookup agent_id e.buckets) [
    | some b ↦ (b, e.buckets)
    | none ↦ let b = make_bucket e agent_id created in (b, insert agent_id b e.buckets)
  ]

  -- The engine shares the bucket with its map, so what `allow` changes is written back.
  unfoldable pub rate_limit : Time → Time → ConfigEngine → String → ConfigEngine × EvalResult
  rate_limit created now e agent_id =
      let (b, buckets) = get_bucket e agent_id created in
      let (b', allowed) = allow float now b in
      (
        record e { buckets = insert agent_id b' buckets },
        if allowed
            then record { decision = decision_allow; reason = no_reason; retry_after = pos 0 }
            else record {
              decision = decision_throttle;
              reason = rate_limit_exceeded;
              retry_after = retry_after float b';
            },
      )

  -- The deny list, then the allowed actions, for an agent that is known: a reason to deny.
  unfoldable pub refusal : PolicyRules → String → String → Option Reason
  unfolding action_allowed
  refusal rules agent_id action =
      if any (λ denied. agent_id == denied) rules.deny_list
      then some on_deny_list
      else elim (lookup agent_id rules.allowed_actions) [
        | none ↦ none
        | some allowed ↦
            if action_allowed action allowed then none else some (not_authorized agent_id action)
      ]

  unfoldable pub evaluate : Time → Time → ConfigEngine → EvalRequest → ConfigEngine × EvalResult
  unfolding deny
  evaluate created now e req = elim req.agent [
    | none ↦ (e, deny no_agent_identity)
    | some agent ↦ elim (refusal e.rules agent.agent_id req.action) [
      | some reason ↦ (e, deny reason)
      | none ↦ rate_limit created now e agent.agent_id
    ]
  ]

  -- The defaults that Reload fills in.
  unfoldable pub with_defaults : PolicyRules → PolicyRules
  with_defaults rules =
      let cfg = rules.default_rate_limit in
      record rules {
        default_rate_limit = record {
          events_per_second =
              if eq cfg.events_per_second (of_int (pos 0))
              then of_int (pos 100)
              else cfg.events_per_second;
          burst_size = if eqb_ℤ cfg.burst_size (pos 0) then pos 500 else cfg.burst_size;
        };
      }

  -- `none`: the file could not be read or parsed, and the error leaves the engine as it was.
  unfoldable pub reload : Option PolicyRules → ConfigEngine → ConfigEngine × Bool
  unfolding with_defaults
  reload none e = (e, false)
  reload (some rules) e = (record { rules = with_defaults rules; buckets = [] }, true)
