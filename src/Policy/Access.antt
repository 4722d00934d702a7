-- ===== src/Policy/Access.antt =====
-- Who may do what, by the rules of internal/policy/config.go.
use agent_transponder.Prelude.{
  ◌≡◌, ◌↔◌, ◌≢◌, ◌⊎◌, inl, inr, true, none, some, List, [], ◌∷◌, String, ◌==◌, eq_iff, arith, any,
  Any, Bool-cases, Option-cases,
}
use agent_transponder.Prelude.Maps.{lookup}
use agent_transponder.Prelude.Float.{Float}
use agent_transponder.Types.Event.{Time}
use agent_transponder.Identity.{AgentIdentity}
use agent_transponder.Policy.{
  decision_deny, EvalRequest, action_allowed, PolicyRules, ConfigEngine, refusal, rate_limit,
  evaluate,
}

-- One of the actions is the one asked for, or the wildcard.
abbrev pub Permits : String → List String → Type 0
Permits action = Any (λ a. (a ≡ action) ⊎ (a ≡ "*"))

action_allowed→Permits :
    (action : String) (allowed : List String)
    → action_allowed action allowed ≡ true
    → Permits action allowed
unfolding action_allowed
action_allowed→Permits action [] h = cc
action_allowed→Permits action (a ∷ as') h =
    ground (arith, eq_iff a action, eq_iff a "*", action_allowed→Permits action as')

Permits→action_allowed :
    (action : String) (allowed : List String)
    → Permits action allowed
    → action_allowed action allowed ≡ true
unfolding action_allowed
Permits→action_allowed action [] h = absurd h
Permits→action_allowed action (a ∷ as') (inl h) = ground (arith, eq_iff a action, eq_iff a "*")
Permits→action_allowed action (a ∷ as') (inr h) =
    ground (arith, Permits→action_allowed action as' h)

listed→Any :
    (id : String) (ids : List String) → any (λ d. id == d) ids ≡ true → Any (λ d. id ≡ d) ids
listed→Any id [] h = cc
listed→Any id (d ∷ ds) h = ground (arith, eq_iff id d, listed→Any id ds)

Any→listed :
    (id : String) (ids : List String) → Any (λ d. id ≡ d) ids → any (λ d. id == d) ids ≡ true
Any→listed id [] h = absurd h
Any→listed id (d ∷ ds) (inl h) = ground (arith, eq_iff id d)
Any→listed id (d ∷ ds) (inr h) = ground (arith, Any→listed id ds h)

module _ (float : Float) where
  -- The agent is not on the deny list, and has the action if its actions are configured.
  pub record IsAuthorized (rules : PolicyRules float) (id : String) (action : String) : Type 0 where
    pub not_denied : ¬ Any (λ d. id ≡ d) rules.deny_list
    pub permitted :
        (allowed : List String)
        → lookup id rules.allowed_actions ≡ some allowed
        → Permits action allowed

  pub refusal-none :
      (rules : PolicyRules float) (id action : String)
      → IsAuthorized rules id action
      → refusal float rules id action ≡ none
  unfolding refusal
  refusal-none rules id action h = elim (Bool-cases (any (λ d. id == d) rules.deny_list)) [
    | inl listed ↦ absurd (h.not_denied (listed→Any id rules.deny_list listed))
    | inr free ↦ elim (Option-cases (lookup id rules.allowed_actions)) [
      | inl open' ↦ ground arith
      | inr (allowed, e) ↦
          ground (arith, Permits→action_allowed action allowed (h.permitted allowed e))
    ]
  ]

  refusal-none_inv :
      (rules : PolicyRules float) (id action : String)
      → refusal float rules id action ≡ none
      → IsAuthorized rules id action
  unfolding refusal
  refusal-none_inv rules id action h = record {
    not_denied = λ m. ground (arith, Any→listed id rules.deny_list m);
    permitted = λ allowed e. action_allowed→Permits action allowed (ground arith);
  }

  pub rate_limit-ne-deny :
      (created now : Time) (e : ConfigEngine float) (id : String)
      → (rate_limit float created now e id).1.decision ≢ decision_deny
  unfolding rate_limit
  rate_limit-ne-deny created now e id h = ground arith

  -- A request of a known agent is denied exactly when the rules do not authorize it: whatever the
  -- buckets hold, and however the clock stands.
  pub evaluate-deny_iff :
      (created now : Time) (e : ConfigEngine float) (agent : AgentIdentity)
      (action resource : String)
      → let req : EvalRequest = record {
        agent = some agent;
        action = action;
        resource = resource;
      } in
        ((evaluate float created now e req).1.decision ≡ decision_deny)
        ↔ (¬ IsAuthorized e.rules agent.agent_id action)
  unfolding evaluate
  evaluate-deny_iff created now e agent action resource =
      elim (Option-cases (refusal float e.rules agent.agent_id action)) [
        | inl passed ↦ (
          λ h. absurd (rate_limit-ne-deny created now e agent.agent_id (ground arith)),
          λ h. absurd (h (refusal-none_inv e.rules agent.agent_id action passed)),
        )
        | inr (reason, refused) ↦ (
          λ h a. cc (refused, refusal-none e.rules agent.agent_id action a),
          λ h. rw (refused, evaluate),
        )
      ]
