-- ===== src/Ingestion/Taken.antt =====
-- cmd/ingestion/pipeline.go: what becomes of an event that the policy has allowed.
use agent_transponder.Prelude.{
  String, ◌≡◌, ◌≢◌, refl, Bool, true, false, ◌⊎◌, inl, inr, Option, none, some, length, ltb, arith,
  if_ind,
}
use agent_transponder.Prelude.Result.{Result, ok, err}
use agent_transponder.Types.Event.{Event}
use agent_transponder.Types.Hmac.{verify_hmac}
use agent_transponder.Identity.{AgentIdentity}
use agent_transponder.Redaction.{redact}
use agent_transponder.EventStore.{JsonlStore, StoreError, append}
use agent_transponder.Forwarder.{submit}
use agent_transponder.Ingestion.{
  Packages, SchemaError, IngestEventResponse, Surroundings, validate_event,
}
use agent_transponder.Ingestion.Server.{IngestionServer, Answer, log_audit, count_rejected, reject}
use agent_transponder.Ingestion.Pipeline.{
  accept, stored, stamped, persist, enforced, admit, verified, check_hmac,
}

abbrev pub is_accepted : Option IngestEventResponse → Bool
is_accepted none = false
is_accepted (some response) = response.accepted

module _ (pkg : Packages) (out : Surroundings) where
  -- The event as it is stored: under the identity of the certificate, redacted and stamped.
  abbrev pub as_stored : IngestionServer pkg → AgentIdentity → Event → Event
  as_stored s agent event =
      stamped pkg out.received_at (redact pkg.regexp s.redactor (enforced pkg agent event))

  -- The store and the forwarder after an event of this agent was accepted.
  pub record Persisted (agent : AgentIdentity) (event : Event) (s s' : IngestionServer pkg)
      : Type 0 where
    pub valid : validate_event (enforced pkg agent event) ≡ none
    pub key : String
    pub appended :
        append pkg.storage out.store_fault (as_stored s agent event) s.store ≡ (s'.store, ok key)
    pub forwarded : s'.forwarder ≡ (submit pkg.well_known (as_stored s agent event) s.forwarder).0

  -- The store and the forwarder are as before.
  pub record Untouched (s s' : IngestionServer pkg) : Type 0 where
    pub same_store : s'.store ≡ s.store
    pub not_forwarded : s'.forwarder ≡ s.forwarder

  -- The event of this agent is not valid; or Append, which was called with it, has failed.
  abbrev pub NotPersisted :
      AgentIdentity → Event → IngestionServer pkg → IngestionServer pkg → Type 0
  NotPersisted agent event s s' =
      ((e : SchemaError) × (validate_event (enforced pkg agent event) ≡ some e) × Untouched s s')
      ⊎ ((e : StoreError) × (validate_event (enforced pkg agent event) ≡ none)
          × (append pkg.storage out.store_fault (as_stored s agent event) s.store
              ≡ (s'.store, err e))
          × (s'.forwarder ≡ s.forwarder))

  -- The signature was checked with the agent's key, if it has one.
  abbrev pub IsSigned : AgentIdentity → Event → Type 0
  IsSigned agent event =
      ltb 0 (length agent.hmac_key) ≡ true
      → verify_hmac pkg.signing agent.hmac_key event ≡ some true

  -- The agent has a key and the signature does not hold; or it does, and the event is not persisted.
  abbrev pub NotTaken : AgentIdentity → Event → IngestionServer pkg → IngestionServer pkg → Type 0
  NotTaken agent event s s' =
      ((ltb 0 (length agent.hmac_key) ≡ true)
        × (verify_hmac pkg.signing agent.hmac_key event ≢ some true)
        × Untouched s s')
      ⊎ (IsSigned agent event × NotPersisted agent event s s')

  -- An answer that accepts, with P; or one that does not, with Q.
  abbrev pub Either :
      (IngestionServer pkg → Type 0)
      → (IngestionServer pkg → Type 0)
      → IngestionServer pkg × Answer pkg
      → Type 0
  Either P Q (s', (response, _)) =
      ((is_accepted response ≡ true) × P s') ⊎ ((is_accepted response ≡ false) × Q s')

  pub Either-map :
      (P P' Q Q' : IngestionServer pkg → Type 0) (r : IngestionServer pkg × Answer pkg)
      → ((s' : IngestionServer pkg) → P s' → P' s')
      → ((s' : IngestionServer pkg) → Q s' → Q' s')
      → Either P Q r
      → Either P' Q' r
  Either-map P P' Q Q' r f g (inl (taken, p)) = inl (taken, f r.0 p)
  Either-map P P' Q Q' r f g (inr (refused, q)) = inr (refused, g r.0 q)

  stored-Either :
      (agent : AgentIdentity) (source_ip : String) (event : Event) (s : IngestionServer pkg)
      (r : JsonlStore × Result StoreError String)
      → validate_event (enforced pkg agent event) ≡ none
      → append pkg.storage out.store_fault (as_stored s agent event) s.store ≡ r
      → Either
          (Persisted agent event s)
          (NotPersisted agent event s)
          (stored pkg out agent source_ip (as_stored s agent event) r s)
  unfolding stored accept log_audit count_rejected
  stored-Either agent source_ip event s (store, ok key) valid is =
      inl (refl, record { valid = valid; key = key; appended = is; forwarded = refl })
  stored-Either agent source_ip event s (store, err e) valid is =
      inr (refl, inr (e, valid, is, refl))

  persist-Either :
      (agent : AgentIdentity) (source_ip : String) (event : Event) (check : Option SchemaError)
      (s : IngestionServer pkg)
      → validate_event (enforced pkg agent event) ≡ check
      → Either
          (Persisted agent event s)
          (NotPersisted agent event s)
          (persist pkg out agent source_ip (enforced pkg agent event) check s)
  unfolding persist reject count_rejected
  persist-Either agent source_ip event (some e) s is =
      inr (refl, inl (e, is, record { same_store = refl; not_forwarded = refl }))
  persist-Either agent source_ip event none s is = stored-Either agent source_ip event s _ is refl

  abbrev pub SignedAndPersisted :
      AgentIdentity → Event → IngestionServer pkg → IngestionServer pkg → Type 0
  SignedAndPersisted agent event s s' = IsSigned agent event × Persisted agent event s s'

  -- A request that the policy allowed is taken, or it is not.
  abbrev pub Taken :
      AgentIdentity → Event → IngestionServer pkg → IngestionServer pkg × Answer pkg → Type 0
  Taken agent event s r = Either (SignedAndPersisted agent event s) (NotTaken agent event s) r

  admit-Taken :
      (agent : AgentIdentity) (source_ip : String) (event : Event) (s : IngestionServer pkg)
      → IsSigned agent event
      → Taken agent event s (admit pkg out agent source_ip event s)
  unfolding admit
  admit-Taken agent source_ip event s signed =
      Either-map (Persisted agent event s) (SignedAndPersisted agent event s)
        (NotPersisted agent event s) (NotTaken agent event s)
        (persist pkg out agent source_ip (enforced pkg agent event)
          (validate_event (enforced pkg agent event)) s)
        (λ s' p. (signed, p)) (λ s' q. inr (signed, q))
        (persist-Either agent source_ip event (validate_event (enforced pkg agent event)) s refl)

  verified-Taken :
      (agent : AgentIdentity) (source_ip : String) (event : Event) (check : Option Bool)
      (s : IngestionServer pkg)
      → ltb 0 (length agent.hmac_key) ≡ true
      → verify_hmac pkg.signing agent.hmac_key event ≡ check
      → Taken agent event s (verified pkg out agent source_ip event check s)
  unfolding verified reject count_rejected log_audit
  verified-Taken agent source_ip event none s has_key is = inr (
    refl,
    inl (
      has_key,
      λ e. absurd (ground (arith, is, e)),
      record { same_store = refl; not_forwarded = refl },
    ),
  )
  verified-Taken agent source_ip event (some false) s has_key is = inr (
    refl,
    inl (
      has_key,
      λ e. absurd (ground (arith, is, e)),
      record { same_store = refl; not_forwarded = refl },
    ),
  )
  verified-Taken agent source_ip event (some true) s has_key is =
      admit-Taken agent source_ip event s (λ _. is)

  pub check_hmac-Taken :
      (agent : AgentIdentity) (source_ip : String) (event : Event) (s : IngestionServer pkg)
      → Taken agent event s (check_hmac pkg out agent source_ip event s)
  unfolding check_hmac
  check_hmac-Taken agent source_ip event s =
      if_ind (Taken agent event s) (ltb 0 (length agent.hmac_key))
        (λ has_key. verified-Taken agent source_ip event _ s has_key refl)
        (λ no_key.
          admit-Taken agent source_ip event s (λ has_key. absurd (ground (arith, has_key, no_key))))
