-- ===== src/Ingestion/Pipeline.antt =====
-- cmd/ingestion/pipeline.go: the steps of IngestEvent, IngestEventStream and Ping. What a step
-- decides is an argument of the next, so that each early return is a clause.
use agent_transponder.Prelude.{
  String, ◌==◌, str_append, Bool, true, false, not, Option, none, some, List, [], ◌∷◌, ◌++◌, length,
  ltb, if◌then◌else◌,
}
use agent_transponder.Prelude.Int.{ℤ, inc64}
use agent_transponder.Prelude.Result.{Result, ok, err}
use agent_transponder.Types.Event.{Event, Time}
use agent_transponder.Types.Hmac.{verify_hmac}
use agent_transponder.Identity.{AgentIdentity}
use agent_transponder.Policy.{
  EvalResult, Decision, decision_allow, decision_deny, decision_throttle, evaluate,
}
use agent_transponder.Audit.Entry.{
  action_ingest_event, action_access_denied, outcome_success, outcome_denied,
}
use agent_transponder.Conversion.Messages.{EventMessage}
use agent_transponder.Conversion.{proto_to_event}
use agent_transponder.Redaction.{redact}
use agent_transponder.EventStore.{JsonlStore, StoreError, append}
use agent_transponder.Forwarder.{submit}
use agent_transponder.Ingestion.Server.{
  IngestionServer, Answer, extract_identity, log_audit, count_rejected, reject,
}
use agent_transponder.Ingestion.{
  Packages, Peer, PeerError, SchemaError, ResponseError, IngestEventResponse, Surroundings,
  validate_event, rejected_with, no_error, no_event, hmac_failed, hmac_mismatch, identity_failed,
  denied, rate_limited, schema_failed, status_ok, resource_exhausted, internal,
}

module _ (pkg : Packages) where
  -- Steps 9 to 11: the event is stored.
  unfoldable pub accept :
      Surroundings
      → AgentIdentity
      → String
      → Event
      → String
      → IngestionServer pkg
      → IngestionServer pkg × Answer pkg
  accept out agent source_ip event key s =
      let s₁ =
        log_audit pkg out action_ingest_event outcome_success agent.agent_id key
          (str_append "event_type=" event.type) source_ip s in
      (
        record s₁ {
          forwarder = (submit pkg.well_known event s₁.forwarder).0;
          collector = record s₁.collector {
            events_ingested = s₁.collector.events_ingested ++ (agent.tenant_id, event.type) ∷ [];
          };
        },
        (
          some (record {
            accepted = true;
            event_id = event.id;
            error = no_error;
            rejection_reason = "";
          }),
          status_ok,
        ),
      )

  unfoldable pub stored :
      Surroundings
      → AgentIdentity
      → String
      → Event
      → JsonlStore × Result StoreError String
      → IngestionServer pkg
      → IngestionServer pkg × Answer pkg
  stored out agent source_ip event (store, err e) s =
      (count_rejected pkg "store_error" (record s { store = store }), (none, internal))
  stored out agent source_ip event (store, ok key) s =
      accept out agent source_ip event key (record s { store = store })

  -- Steps 6 and 7: the event as it is persisted.
  unfoldable pub stamped : Time → Event × List String → Event
  stamped now (event, names) = record event { received_at = now; redacted_fields = names }

  -- Step 5b, and the rest.
  unfoldable pub persist :
      Surroundings
      → AgentIdentity
      → String
      → Event
      → Option SchemaError
      → IngestionServer pkg
      → IngestionServer pkg × Answer pkg
  persist out agent source_ip event (some e) s = reject pkg "schema_violation" (schema_failed e) s
  persist out agent source_ip event none s =
      let event' = stamped out.received_at (redact pkg.regexp s.redactor event) in
      stored out agent source_ip event' (append pkg.storage out.store_fault event' s.store) s

  -- Step 5a: the identity of the certificate replaces that of the event.
  abbrev pub enforced : AgentIdentity → Event → Event
  enforced agent event = record event { agent_id = agent.agent_id; tenant_id = agent.tenant_id }

  unfoldable pub admit :
      Surroundings
      → AgentIdentity
      → String
      → Event
      → IngestionServer pkg
      → IngestionServer pkg × Answer pkg
  admit out agent source_ip event s =
      persist out agent source_ip (enforced agent event) (validate_event (enforced agent event)) s

  -- Step 4, for a key: `none` is an error of the computation.
  unfoldable pub verified :
      Surroundings
      → AgentIdentity
      → String
      → Event
      → Option Bool
      → IngestionServer pkg
      → IngestionServer pkg × Answer pkg
  verified out agent source_ip event none s = reject pkg "hmac_error" hmac_failed s
  verified out agent source_ip event (some false) s = reject pkg "invalid_hmac" hmac_mismatch (
      log_audit pkg out action_ingest_event outcome_denied agent.agent_id event.id "HMAC mismatch"
        source_ip s)
  verified out agent source_ip event (some true) s = admit out agent source_ip event s

  unfoldable pub check_hmac :
      Surroundings
      → AgentIdentity
      → String
      → Event
      → IngestionServer pkg
      → IngestionServer pkg × Answer pkg
  check_hmac out agent source_ip event s =
      if ltb 0 (length agent.hmac_key)
      then verified out agent source_ip event (verify_hmac pkg.signing agent.hmac_key event) s
      else admit out agent source_ip event s

  -- The switch on the policy's decision.
  unfoldable pub decided :
      Surroundings
      → AgentIdentity
      → String
      → EventMessage pkg.well_known
      → Decision
      → EvalResult
      → IngestionServer pkg
      → IngestionServer pkg × Answer pkg
  decided out agent source_ip message decision_deny result s =
      reject pkg "policy_denied" (denied result.reason) (
        log_audit pkg out action_access_denied outcome_denied agent.agent_id "events"
          (pkg.reason_text result.reason) source_ip s)
  decided out agent source_ip message decision_throttle result s =
      let throttled = record s {
        collector = record s.collector {
          throttled_requests = s.collector.throttled_requests ++ agent.agent_id ∷ [];
        };
      } in
      (
        count_rejected pkg "rate_limited" throttled,
        (some (rejected_with "rate_limited" (rate_limited result.retry_after)), resource_exhausted),
      )
  decided out agent source_ip message decision_allow result s =
      check_hmac out agent source_ip (proto_to_event pkg.well_known message) s

  unfoldable pub identified :
      Surroundings
      → EventMessage pkg.well_known
      → Result PeerError (AgentIdentity × String)
      → IngestionServer pkg
      → IngestionServer pkg × Answer pkg
  identified out message (err e) s = reject pkg "identity_error" (identity_failed e) s
  identified out message (ok (agent, source_ip)) s =
      let (engine, result) =
        evaluate pkg.float out.bucket_made_at out.evaluated_at s.policy_eng
          (record { agent = some agent; action = "ingest"; resource = "events" }) in
      decided out agent source_ip message result.decision result (record s { policy_eng = engine })

  unfoldable pub ingest_event :
      Surroundings
      → Option Peer
      → Option (EventMessage pkg.well_known)
      → IngestionServer pkg
      → IngestionServer pkg × Answer pkg
  ingest_event out peer none s = (s, (some (rejected_with "missing_event" no_event), status_ok))
  ingest_event out peer (some message) s =
      identified out message (extract_identity pkg s.id_provider peer) s

  -- What IngestEventStream gathers: the counts and the errors.
  pub record IngestEventStreamResponse : Type 0 where
    pub accepted_count : ℤ
    pub rejected_count : ℤ
    pub errors : List ResponseError

  -- resp.Error != ""
  unfoldable pub has_text : ResponseError → Bool
  has_text no_error = false
  has_text (denied reason) = not (pkg.reason_text reason == "")
  has_text _ = true

  unfoldable pub tallied :
      Option IngestEventResponse → IngestEventStreamResponse → IngestEventStreamResponse
  tallied none r = record r { rejected_count = inc64 r.rejected_count }
  tallied (some response) r =
      if response.accepted then record r { accepted_count = inc64 r.accepted_count } else record r {
        rejected_count = inc64 r.rejected_count;
        errors = if has_text response.error then r.errors ++ response.error ∷ [] else r.errors;
      }

  -- The loop over the requests that arrive before Recv returns an error.
  unfoldable pub ingest_event_stream :
      Option Peer
      → List (Surroundings × Option (EventMessage pkg.well_known))
      → IngestEventStreamResponse
      → IngestionServer pkg
      → IngestionServer pkg × IngestEventStreamResponse
  ingest_event_stream peer [] r s = (s, r)
  ingest_event_stream peer ((out, message) ∷ requests) r s =
      let (s', (response, _)) = ingest_event out peer message s in
      ingest_event_stream peer requests (tallied response r) s'

  -- The agent that Ping echoes.
  unfoldable pub ping : Option Peer → IngestionServer pkg → String
  ping peer s = elim (extract_identity pkg s.id_provider peer) [
    | err e ↦ "unknown"
    | ok (agent, source_ip) ↦ agent.agent_id
  ]
