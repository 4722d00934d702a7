-- ===== src/Ingestion/Outcomes.antt =====
-- cmd/ingestion/pipeline.go: what IngestEvent leaves behind for an event that it accepts, and for
-- one that it does not.
use agent_transponder.Prelude.{
  String, ◌≡◌, ◌≢◌, refl, true, false, ◌⊎◌, inl, inr, Option, some, arith,
}
use agent_transponder.Prelude.Result.{Result, ok, err}
use agent_transponder.Types.Event.{Event}
use agent_transponder.Identity.{AgentIdentity}
use agent_transponder.Policy.{
  ConfigEngine, EvalResult, Decision, decision_allow, decision_deny, decision_throttle, evaluate,
}
use agent_transponder.Conversion.Messages.{EventMessage}
use agent_transponder.Conversion.{proto_to_event}
use agent_transponder.Ingestion.{Packages, Peer, PeerError, Surroundings}
use agent_transponder.Ingestion.Server.{
  IngestionServer, extract_identity, log_audit, count_rejected, reject,
}
use agent_transponder.Ingestion.Pipeline.{check_hmac, decided, identified, ingest_event}
use agent_transponder.Ingestion.Taken.{
  is_accepted, Persisted, Untouched, IsSigned, NotTaken, Either, Either-map, SignedAndPersisted,
  check_hmac-Taken,
}

module _ (pkg : Packages) (out : Surroundings) where
  -- The decision of the policy engine on this agent's event.
  abbrev pub decision_on : IngestionServer pkg → AgentIdentity → Decision
  decision_on s agent =
      (evaluate pkg.float out.bucket_made_at out.evaluated_at s.policy_eng
        (record { agent = some agent; action = "ingest"; resource = "events" })).1.decision

  -- All that an accepted event has passed, and what it has left.
  pub record Admitted (peer : Option Peer) (message : EventMessage pkg.well_known)
      (s s' : IngestionServer pkg) : Type 0 where
    pub agent : AgentIdentity
    pub source_ip : String
    pub identity : extract_identity pkg s.id_provider peer ≡ ok (agent, source_ip)
    pub allowed : decision_on s agent ≡ decision_allow
    pub signed : IsSigned pkg out agent (proto_to_event pkg.well_known message)
    pub persisted : Persisted pkg out agent (proto_to_event pkg.well_known message) s s'

  -- Why a request is not accepted, and what it has left.
  pub data Refused (peer : Option Peer) (message : EventMessage pkg.well_known)
      (s s' : IngestionServer pkg) : Type 0 where
    unknown_peer :
        (e : PeerError)
        → extract_identity pkg s.id_provider peer ≡ err e
        → Untouched pkg out s s'
        → Refused peer message s s'
    not_allowed :
        (agent : AgentIdentity) (source_ip : String)
        → extract_identity pkg s.id_provider peer ≡ ok (agent, source_ip)
        → decision_on s agent ≢ decision_allow
        → Untouched pkg out s s'
        → Refused peer message s s'
    not_taken :
        (agent : AgentIdentity) (source_ip : String)
        → extract_identity pkg s.id_provider peer ≡ ok (agent, source_ip)
        → decision_on s agent ≡ decision_allow
        → NotTaken pkg out agent (proto_to_event pkg.well_known message) s s'
        → Refused peer message s s'

  -- The policy's engine of the server does not matter to what is taken.
  NotTaken-after :
      (agent : AgentIdentity) (event : Event) (s s' : IngestionServer pkg)
      (engine : ConfigEngine pkg.float)
      → NotTaken pkg out agent event (record s { policy_eng = engine }) s'
      → NotTaken pkg out agent event s s'
  NotTaken-after agent event s s' engine (inl (has_key, unsigned, u)) =
      inl (has_key, unsigned, record { same_store = u.same_store; not_forwarded = u.not_forwarded })
  NotTaken-after agent event s s' engine (inr (signed, inl (e, invalid, u))) = inr (
    signed,
    inl (e, invalid, record { same_store = u.same_store; not_forwarded = u.not_forwarded }),
  )
  NotTaken-after agent event s s' engine (inr (signed, inr failed)) = inr (signed, inr failed)

  decided-Either :
      (peer : Option Peer) (agent : AgentIdentity) (source_ip : String)
      (message : EventMessage pkg.well_known) (decision : Decision) (result : EvalResult)
      (s : IngestionServer pkg) (engine : ConfigEngine pkg.float)
      → extract_identity pkg s.id_provider peer ≡ ok (agent, source_ip)
      → decision_on s agent ≡ decision
      → Either pkg out (Admitted peer message s) (Refused peer message s) (
          decided pkg out agent source_ip message decision result
            (record s { policy_eng = engine }))
  unfolding decided reject count_rejected log_audit
  decided-Either peer agent source_ip message decision_deny result s engine found is = inr (
    refl,
    not_allowed agent source_ip found (λ e. absurd (ground (arith, is, e)))
        (record { same_store = refl; not_forwarded = refl }),
  )
  decided-Either peer agent source_ip message decision_throttle result s engine found is = inr (
    refl,
    not_allowed agent source_ip found (λ e. absurd (ground (arith, is, e)))
        (record { same_store = refl; not_forwarded = refl }),
  )
  decided-Either peer agent source_ip message decision_allow result s engine found is =
      let event = proto_to_event pkg.well_known message in
      let s₁ : IngestionServer pkg = record s { policy_eng = engine } in
      Either-map pkg out (SignedAndPersisted pkg out agent event s₁) (Admitted peer message s)
        (NotTaken pkg out agent event s₁) (Refused peer message s)
        (check_hmac pkg out agent source_ip event s₁)
        (λ s' (signed, p). record {
          agent = agent;
          source_ip = source_ip;
          identity = found;
          allowed = is;
          signed = signed;
          persisted = record {
            valid = p.valid;
            key = p.key;
            appended = p.appended;
            forwarded = p.forwarded;
          };
        })
        (λ s' q. not_taken agent source_ip found is (NotTaken-after agent event s s' engine q))
        (check_hmac-Taken pkg out agent source_ip event s₁)

  identified-Either :
      (peer : Option Peer) (message : EventMessage pkg.well_known)
      (identity : Result PeerError (AgentIdentity × String)) (s : IngestionServer pkg)
      → extract_identity pkg s.id_provider peer ≡ identity
      → Either pkg out
          (Admitted peer message s)
          (Refused peer message s)
          (identified pkg out message identity s)
  unfolding identified reject count_rejected
  identified-Either peer message (err e) s found =
      inr (refl, unknown_peer e found (record { same_store = refl; not_forwarded = refl }))
  identified-Either peer message (ok (agent, source_ip)) s found =
      decided-Either peer agent source_ip message _ _ s _ found refl

  -- IngestEvent accepts a request exactly if the certificate gives an agent, the policy allows it,
  -- the signature holds if the agent has a key, the event under the agent's own identity is valid,
  -- and Append succeeds with this event, redacted and stamped; the event is then submitted to the
  -- forwarder. A request that is not accepted has failed one of these, forwards nothing, and leaves
  -- the store as it was, unless it was Append that failed: then the store is what Append leaves.
  pub ingest_event-outcome :
      (peer : Option Peer) (message : EventMessage pkg.well_known) (s : IngestionServer pkg)
      → let (s', (response, _)) = ingest_event pkg out peer (some message) s in
        ((is_accepted response ≡ true) × Admitted peer message s s')
        ⊎ ((is_accepted response ≡ false) × Refused peer message s s')
  unfolding ingest_event
  ingest_event-outcome peer message s =
      identified-Either peer message (extract_identity pkg s.id_provider peer) s refl
