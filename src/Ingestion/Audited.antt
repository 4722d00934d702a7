-- ===== src/Ingestion/Audited.antt =====
-- cmd/ingestion/pipeline.go: which requests the audit log is told of.
use agent_transponder.Prelude.{
  suc, str_append, refl, String, ◌≡◌, ◌==◌, Bool, true, false, Option, none, some, length, ltb,
  if◌then◌else◌, if_ind,
}
use agent_transponder.Prelude.Result.{Result, ok, err}
use agent_transponder.Types.Event.{Event}
use agent_transponder.Identity.{AgentIdentity}
use agent_transponder.Policy.{
  ConfigEngine, EvalResult, Decision, decision_allow, decision_deny, decision_throttle, evaluate,
}
use agent_transponder.Audit.Entry.{
  Entry, ActionType, Outcome, action_ingest_event, action_access_denied, outcome_success,
  outcome_denied,
}
use agent_transponder.Audit.Sink.{log}
use agent_transponder.Conversion.Messages.{EventMessage}
use agent_transponder.EventStore.{JsonlStore, StoreError}
use agent_transponder.Ingestion.{
  Packages, Peer, PeerError, SchemaError, IngestEventResponse, Surroundings,
}
use agent_transponder.Ingestion.Server.{
  IngestionServer, Answer, extract_identity, log_audit, count_rejected, reject,
}
use agent_transponder.Ingestion.Pipeline.{
  accept, stored, persist, admit, verified, check_hmac, decided, identified, ingest_event,
}

-- What the audit log is told for an answer: of an accepted event, of a denial by the policy, and of a
-- signature that does not hold.
abbrev pub told : Option IngestEventResponse → Option (ActionType × Outcome)
told none = none
told (some response) =
    if response.accepted
    then some (action_ingest_event, outcome_success)
    else if response.rejection_reason == "policy_denied"
    then some (action_access_denied, outcome_denied)
    else if response.rejection_reason == "invalid_hmac"
    then some (action_ingest_event, outcome_denied)
    else none

-- One of two, by what the log is told.
abbrev pub ByTold :
    Type 0 → (ActionType → Outcome → Type 0) → Option (ActionType × Outcome) → Type 0
ByTold Silent Told none = Silent
ByTold Silent Told (some (action, outcome)) = Told action outcome

ByTold-map :
    (Silent : Type 0) (P Q : ActionType → Outcome → Type 0) (t : Option (ActionType × Outcome))
    → ((action : ActionType) (outcome : Outcome) → P action outcome → Q action outcome)
    → ByTold Silent P t
    → ByTold Silent Q t
ByTold-map Silent P Q none f h = h
ByTold-map Silent P Q (some (action, outcome)) f h = f action outcome h

module _ (pkg : Packages) (out : Surroundings) where
  -- One call of Log, with an entry on this agent, and the metric of the entries.
  pub record Entered (action : ActionType) (outcome : Outcome) (agent : AgentIdentity)
      (source_ip : String) (s s' : IngestionServer pkg) : Type 0 where
    pub entry : Entry
    pub of_action : entry.action ≡ action
    pub of_outcome : entry.outcome ≡ outcome
    pub of_agent : entry.actor_id ≡ agent.agent_id
    pub of_address : entry.source_ip ≡ source_ip
    pub logged :
        s'.audit_sink ≡ (log pkg.hashing out.audit_fault out.logged_at entry s.audit_sink).0
    pub counted : s'.collector.audit_entries_total ≡ suc s.collector.audit_entries_total

  -- No call of Log.
  pub record Unlogged (s s' : IngestionServer pkg) : Type 0 where
    pub same_log : s'.audit_sink ≡ s.audit_sink
    pub same_count : s'.collector.audit_entries_total ≡ s.collector.audit_entries_total

  abbrev AuditedFor :
      AgentIdentity → String → IngestionServer pkg → IngestionServer pkg × Answer pkg → Type 0
  AuditedFor agent source_ip s (s', (response, _)) =
      ByTold (Unlogged s s') (λ action outcome. Entered action outcome agent source_ip s s')
        (told response)

  entered :
      (action : ActionType) (outcome : Outcome) (agent : AgentIdentity)
      (resource detail source_ip : String) (s : IngestionServer pkg)
      → Entered action outcome agent source_ip s
          (log_audit pkg out action outcome agent.agent_id resource detail source_ip s)
  unfolding log_audit
  entered action outcome agent resource detail source_ip s = record {
    entry = _;
    of_action = refl;
    of_outcome = refl;
    of_agent = refl;
    of_address = refl;
    logged = refl;
    counted = refl;
  }

  stored-AuditedFor :
      (agent : AgentIdentity) (source_ip : String) (event : Event)
      (r : JsonlStore × Result StoreError String) (s : IngestionServer pkg)
      → AuditedFor agent source_ip s (stored pkg out agent source_ip event r s)
  unfolding stored accept count_rejected
  stored-AuditedFor agent source_ip event (store, ok key) s =
      let e =
        entered action_ingest_event outcome_success agent key (str_append "event_type=" event.type)
          source_ip (record s { store = store }) in
      record {
        entry = e.entry;
        of_action = e.of_action;
        of_outcome = e.of_outcome;
        of_agent = e.of_agent;
        of_address = e.of_address;
        logged = e.logged;
        counted = e.counted;
      }
  stored-AuditedFor agent source_ip event (store, err e) s = record {
    same_log = refl;
    same_count = refl;
  }

  persist-AuditedFor :
      (agent : AgentIdentity) (source_ip : String) (event : Event) (check : Option SchemaError)
      (s : IngestionServer pkg)
      → AuditedFor agent source_ip s (persist pkg out agent source_ip event check s)
  unfolding persist reject count_rejected
  persist-AuditedFor agent source_ip event (some e) s = record {
    same_log = refl;
    same_count = refl;
  }
  persist-AuditedFor agent source_ip event none s = stored-AuditedFor agent source_ip _ _ s

  -- A rejection after an entry.
  rejected-AuditedFor :
      (action : ActionType) (outcome : Outcome) (agent : AgentIdentity)
      (resource detail source_ip reason : String) (s : IngestionServer pkg)
      → Entered action outcome agent source_ip s (
          count_rejected pkg reason
            (log_audit pkg out action outcome agent.agent_id resource detail source_ip s))
  unfolding count_rejected
  rejected-AuditedFor action outcome agent resource detail source_ip reason s =
      let e = entered action outcome agent resource detail source_ip s in
      record {
        entry = e.entry;
        of_action = e.of_action;
        of_outcome = e.of_outcome;
        of_agent = e.of_agent;
        of_address = e.of_address;
        logged = e.logged;
        counted = e.counted;
      }

  verified-AuditedFor :
      (agent : AgentIdentity) (source_ip : String) (event : Event) (check : Option Bool)
      (s : IngestionServer pkg)
      → AuditedFor agent source_ip s (verified pkg out agent source_ip event check s)
  unfolding verified reject count_rejected admit
  verified-AuditedFor agent source_ip event none s = record { same_log = refl; same_count = refl }
  verified-AuditedFor agent source_ip event (some false) s =
      rejected-AuditedFor action_ingest_event outcome_denied agent event.id "HMAC mismatch"
        source_ip "invalid_hmac" s
  verified-AuditedFor agent source_ip event (some true) s = persist-AuditedFor agent source_ip _ _ s

  check_hmac-AuditedFor :
      (agent : AgentIdentity) (source_ip : String) (event : Event) (s : IngestionServer pkg)
      → AuditedFor agent source_ip s (check_hmac pkg out agent source_ip event s)
  unfolding check_hmac admit
  check_hmac-AuditedFor agent source_ip event s =
      if_ind (AuditedFor agent source_ip s) (ltb 0 (length agent.hmac_key))
        (λ _. verified-AuditedFor agent source_ip event _ s)
        (λ _. persist-AuditedFor agent source_ip _ _ s)

  decided-AuditedFor :
      (agent : AgentIdentity) (source_ip : String) (message : EventMessage pkg.well_known)
      (decision : Decision) (result : EvalResult) (s : IngestionServer pkg)
      → AuditedFor agent source_ip s (decided pkg out agent source_ip message decision result s)
  unfolding decided reject count_rejected
  decided-AuditedFor agent source_ip message decision_deny result s =
      rejected-AuditedFor action_access_denied outcome_denied agent "events"
        (pkg.reason_text result.reason) source_ip "policy_denied" s
  decided-AuditedFor agent source_ip message decision_throttle result s = record {
    same_log = refl;
    same_count = refl;
  }
  decided-AuditedFor agent source_ip message decision_allow result s =
      check_hmac-AuditedFor agent source_ip _ s

  -- The engine of the policy does not matter here.
  framed :
      (agent : AgentIdentity) (source_ip : String) (s : IngestionServer pkg)
      (engine : ConfigEngine pkg.float) (r : IngestionServer pkg × Answer pkg)
      → AuditedFor agent source_ip (record s { policy_eng = engine }) r
      → AuditedFor agent source_ip s r
  framed agent source_ip s engine (s', (response, _)) h = framed_at (told response) h
    where
      framed_at :
          (t : Option (ActionType × Outcome))
          → ByTold
              (Unlogged (record s { policy_eng = engine }) s')
              (λ action outcome.
                Entered action outcome agent source_ip (record s { policy_eng = engine }) s')
              t
          → ByTold (Unlogged s s') (λ action outcome. Entered action outcome agent source_ip s s') t
      framed_at none u = record { same_log = u.same_log; same_count = u.same_count }
      framed_at (some (action, outcome)) e = record {
        entry = e.entry;
        of_action = e.of_action;
        of_outcome = e.of_outcome;
        of_agent = e.of_agent;
        of_address = e.of_address;
        logged = e.logged;
        counted = e.counted;
      }

  -- The log after a request: as before, or with one call on the agent of the certificate.
  abbrev pub IsAudited :
      Option Peer → IngestionServer pkg → IngestionServer pkg × Answer pkg → Type 0
  IsAudited peer s (s', (response, _)) =
      ByTold (Unlogged s s')
        (λ action outcome.
          (agent : AgentIdentity) × (source_ip : String) × (extract_identity pkg s.id_provider peer
            ≡ ok (agent, source_ip))
          × Entered action outcome agent source_ip s s')
        (told response)

  identified-IsAudited :
      (peer : Option Peer) (message : EventMessage pkg.well_known)
      (identity : Result PeerError (AgentIdentity × String)) (s : IngestionServer pkg)
      → extract_identity pkg s.id_provider peer ≡ identity
      → IsAudited peer s (identified pkg out message identity s)
  unfolding identified reject count_rejected
  identified-IsAudited peer message (err e) s found = record { same_log = refl; same_count = refl }
  identified-IsAudited peer message (ok (agent, source_ip)) s found =
      let (engine, result) =
        evaluate pkg.float out.bucket_made_at out.evaluated_at s.policy_eng
          (record { agent = some agent; action = "ingest"; resource = "events" }) in
      let s₁ : IngestionServer pkg = record s { policy_eng = engine } in
      let r = decided pkg out agent source_ip message result.decision result s₁ in
      ByTold-map (Unlogged s r.0) (λ action outcome. Entered action outcome agent source_ip s r.0)
        (λ action outcome.
          (agent : AgentIdentity) × (source_ip : String) × (extract_identity pkg s.id_provider peer
            ≡ ok (agent, source_ip))
          × Entered action outcome agent source_ip s r.0)
        (told r.1.0) (λ action outcome e. (agent, source_ip, found, e))
        (framed agent source_ip s engine r
          (decided-AuditedFor agent source_ip message result.decision result s₁))

  -- A request is entered into the audit log by exactly one call of Log if it is accepted, denied by
  -- the policy or wrongly signed, with the action and the outcome that stand for it, the agent of
  -- the peer's certificate and its address; and by none if it fails otherwise: unknown, throttled,
  -- invalid or not stored. The metric of the audit entries counts these calls, failed or not.
  pub ingest_event-audit_entries :
      (peer : Option Peer) (message : Option (EventMessage pkg.well_known))
      (s : IngestionServer pkg)
      → IsAudited peer s (ingest_event pkg out peer message s)
  unfolding ingest_event
  ingest_event-audit_entries peer none s = record { same_log = refl; same_count = refl }
  ingest_event-audit_entries peer (some message) s =
      identified-IsAudited peer message (extract_identity pkg s.id_provider peer) s refl
