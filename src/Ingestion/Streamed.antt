-- ===== src/Ingestion/Streamed.antt =====
-- cmd/ingestion/pipeline.go: the counters of the requests, and the counts of IngestEventStream.
use agent_transponder.Prelude.{
  ℕ, suc, ◌+◌, String, ◌≡◌, refl, Bool, true, false, Option, none, some, length, length-append,
  List, [], ◌∷◌, ◌++◌, ◌≤◌, ◌-◌, ltb, arith, if◌then◌else◌, if_ind,
}
use agent_transponder.Prelude.Result.{Result, ok, err}
use agent_transponder.Types.Event.{Event}
use agent_transponder.Identity.{AgentIdentity}
use agent_transponder.Policy.{
  ConfigEngine, EvalResult, Decision, decision_allow, decision_deny, decision_throttle,
}
use agent_transponder.Conversion.Messages.{EventMessage}
use agent_transponder.EventStore.{JsonlStore, StoreError}
use agent_transponder.Ingestion.{
  Packages, Peer, PeerError, SchemaError, IngestEventResponse, Surroundings,
}
use agent_transponder.Ingestion.Server.{IngestionServer, Answer, log_audit, count_rejected, reject}
use agent_transponder.Ingestion.Pipeline.{
  ingest_event_stream, IngestEventStreamResponse, tallied, accept, stored, persist, admit, verified,
  check_hmac, decided, identified, ingest_event,
}
use agent_transponder.Prelude.Int.{pos}

-- How many acceptances an answer is.
abbrev pub acceptances : Option IngestEventResponse → ℕ
acceptances none = 0
acceptances (some response) = if response.accepted then 1 else 0

acceptances_le : (response : Option IngestEventResponse) → acceptances response ≤ 1
acceptances_le none = omega arith
acceptances_le (some response) = ground arith

one_longer {ℓ} : {A : Type ℓ} (xs : List A) (x : A) → length (xs ++ x ∷ []) ≡ 1 + length xs
one_longer xs x = omega (arith, length-append xs (x ∷ []))

counted {ℓ} : {A : Type ℓ} (xs : List A) (x : A) → 0 + length (xs ++ x ∷ []) ≡ suc (length xs)
counted xs x = omega (arith, length-append xs (x ∷ []))

module _ (pkg : Packages) (out : Surroundings) where
  -- The answer is counted once, among the ingested events if it accepts and else among the
  -- rejected ones.
  pub record Counted (s : IngestionServer pkg) (response : Option IngestEventResponse)
      (s' : IngestionServer pkg) : Type 0 where
    pub ingested :
        length s'.collector.events_ingested
        ≡ acceptances response + length s.collector.events_ingested
    pub rejected :
        acceptances response + length s'.collector.events_rejected
        ≡ suc (length s.collector.events_rejected)

  abbrev IsCounted : IngestionServer pkg → IngestionServer pkg × Answer pkg → Type 0
  IsCounted s (s', (response, _)) = Counted s response s'

  stored-IsCounted :
      (agent : AgentIdentity) (source_ip : String) (event : Event)
      (r : JsonlStore × Result StoreError String) (s : IngestionServer pkg)
      → IsCounted s (stored pkg out agent source_ip event r s)
  unfolding stored accept log_audit count_rejected
  stored-IsCounted agent source_ip event (store, ok key) s = record {
    ingested = one_longer s.collector.events_ingested (agent.tenant_id, event.type);
    rejected = omega arith;
  }
  stored-IsCounted agent source_ip event (store, err e) s = record {
    ingested = omega arith;
    rejected = counted _ _;
  }

  persist-IsCounted :
      (agent : AgentIdentity) (source_ip : String) (event : Event) (check : Option SchemaError)
      (s : IngestionServer pkg)
      → IsCounted s (persist pkg out agent source_ip event check s)
  unfolding persist reject count_rejected
  persist-IsCounted agent source_ip event (some e) s = record {
    ingested = omega arith;
    rejected = counted _ _;
  }
  persist-IsCounted agent source_ip event none s = stored-IsCounted agent source_ip _ _ s

  verified-IsCounted :
      (agent : AgentIdentity) (source_ip : String) (event : Event) (check : Option Bool)
      (s : IngestionServer pkg)
      → IsCounted s (verified pkg out agent source_ip event check s)
  unfolding verified reject count_rejected log_audit admit
  verified-IsCounted agent source_ip event none s = record {
    ingested = omega arith;
    rejected = counted _ _;
  }
  verified-IsCounted agent source_ip event (some false) s = record {
    ingested = omega arith;
    rejected = counted _ _;
  }
  verified-IsCounted agent source_ip event (some true) s = persist-IsCounted agent source_ip _ _ s

  check_hmac-IsCounted :
      (agent : AgentIdentity) (source_ip : String) (event : Event) (s : IngestionServer pkg)
      → IsCounted s (check_hmac pkg out agent source_ip event s)
  unfolding check_hmac admit
  check_hmac-IsCounted agent source_ip event s =
      if_ind (IsCounted s) (ltb 0 (length agent.hmac_key))
        (λ _. verified-IsCounted agent source_ip event _ s)
        (λ _. persist-IsCounted agent source_ip _ _ s)

  decided-IsCounted :
      (agent : AgentIdentity) (source_ip : String) (message : EventMessage pkg.well_known)
      (decision : Decision) (result : EvalResult) (s : IngestionServer pkg)
      → IsCounted s (decided pkg out agent source_ip message decision result s)
  unfolding decided reject count_rejected log_audit
  decided-IsCounted agent source_ip message decision_deny result s = record {
    ingested = omega arith;
    rejected = counted _ _;
  }
  decided-IsCounted agent source_ip message decision_throttle result s = record {
    ingested = omega arith;
    rejected = counted _ _;
  }
  decided-IsCounted agent source_ip message decision_allow result s =
      check_hmac-IsCounted agent source_ip _ s

  other_engine :
      (agent : AgentIdentity) (source_ip : String) (message : EventMessage pkg.well_known)
      (decision : Decision) (result : EvalResult) (s : IngestionServer pkg)
      (engine : ConfigEngine pkg.float)
      → IsCounted s (
          decided pkg out agent source_ip message decision result
            (record s { policy_eng = engine }))
  other_engine agent source_ip message decision result s engine =
      let c =
        decided-IsCounted agent source_ip message decision result
          (record s { policy_eng = engine }) in
      record { ingested = c.ingested; rejected = c.rejected }

  identified-IsCounted :
      (message : EventMessage pkg.well_known) (identity : Result PeerError (AgentIdentity × String))
      (s : IngestionServer pkg)
      → IsCounted s (identified pkg out message identity s)
  unfolding identified reject count_rejected
  identified-IsCounted message (err e) s = record { ingested = omega arith; rejected = counted _ _ }
  identified-IsCounted message (ok (agent, source_ip)) s =
      other_engine agent source_ip message _ _ s _

  -- A request with an event is counted once: among the ingested events if it is accepted, and
  -- among the rejected ones if it is not.
  pub ingest_event-Counted :
      (peer : Option Peer) (message : EventMessage pkg.well_known) (s : IngestionServer pkg)
      → let (s', (response, _)) = ingest_event pkg out peer (some message) s in
        Counted s response s'
  unfolding ingest_event
  ingest_event-Counted peer message s = identified-IsCounted message _ s

module _ (pkg : Packages) where
  any_request :
      (out : Surroundings) (peer : Option Peer) (message : Option (EventMessage pkg.well_known))
      (s : IngestionServer pkg)
      → let (s', (response, _)) = ingest_event pkg out peer message s in
        length s'.collector.events_ingested
        ≡ acceptances response + length s.collector.events_ingested
  unfolding ingest_event
  any_request out peer none s = omega arith
  any_request out peer (some message) s = (ingest_event-Counted pkg out peer message s).ingested

  tallied_one :
      (response : Option IngestEventResponse) (r : IngestEventStreamResponse pkg) (a b : ℕ)
      → r.accepted_count ≡ pos a
      → r.rejected_count ≡ pos b
      → suc (a + b) ≤ 9_223_372_036_854_775_807
      → ((tallied pkg response r).accepted_count ≡ pos (acceptances response + a))
        × ((tallied pkg response r).rejected_count ≡ pos (1 - acceptances response + b))
  unfolding tallied
  tallied_one none r a b ha hb fits = ground arith
  tallied_one (some response) r a b ha hb fits = ground arith

  stream_counts :
      (peer : Option Peer) (requests : List (Surroundings × Option (EventMessage pkg.well_known)))
      (r : IngestEventStreamResponse pkg) (s : IngestionServer pkg) (a b : ℕ)
      → r.accepted_count ≡ pos a
      → r.rejected_count ≡ pos b
      → a + b + length requests ≤ 9_223_372_036_854_775_807
      → let (s', r') = ingest_event_stream pkg peer requests r s in
        (x : ℕ) × (y : ℕ) × (r'.accepted_count ≡ pos x)
        × (r'.rejected_count ≡ pos y)
        × (x + y ≡ a + b + length requests)
        × (length s'.collector.events_ingested + a ≡ x + length s.collector.events_ingested)
  unfolding ingest_event_stream
  stream_counts peer [] r s a b ha hb fits = (a, b, ha, hb, omega arith, omega arith)
  stream_counts peer ((out, message) ∷ requests) r s a b ha hb fits =
      let response = (ingest_event pkg out peer message s).1.0 in
      let one = tallied_one response r a b ha hb (omega (arith, fits)) in
      let step = any_request out peer message s in
      let bound : acceptances response ≤ 1 = acceptances_le response in
      let (x, y, hx, hy, total, ingested) =
        stream_counts peer requests (tallied pkg response r) (ingest_event pkg out peer message s).0
          (acceptances response + a) (1 - acceptances response + b) one.0 one.1
          (omega (arith, fits, bound)) in
      (x, y, hx, hy, omega (arith, total, bound), omega (arith, ingested, step))

  -- IngestEventStream, over fewer than 2^63 requests, counts every request once, as accepted or as
  -- rejected, and it counts as accepted as many as the metrics have gained ingested events.
  pub ingest_event_stream_counts :
      (peer : Option Peer) (requests : List (Surroundings × Option (EventMessage pkg.well_known)))
      (s : IngestionServer pkg)
      → length requests ≤ 9_223_372_036_854_775_807
      → let (s', r) =
          ingest_event_stream pkg peer requests
            (record { accepted_count = pos 0; rejected_count = pos 0; errors = [] })
            s in
        (x : ℕ) × (y : ℕ) × (r.accepted_count ≡ pos x)
        × (r.rejected_count ≡ pos y)
        × (x + y ≡ length requests)
        × (length s'.collector.events_ingested ≡ x + length s.collector.events_ingested)
  ingest_event_stream_counts peer requests s fits =
      let (x, y, hx, hy, total, ingested) =
        stream_counts peer requests _ s 0 0 refl refl (omega (arith, fits)) in
      (x, y, hx, hy, omega (arith, total), omega (arith, ingested))
