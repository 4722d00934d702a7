-- ===== src/Ingestion/Server.antt =====
-- cmd/ingestion/pipeline.go: IngestionServer, the identity of a peer, the audit log and rejections.
use agent_transponder.Prelude.{suc, String, Option, none, some, [], ◌∷◌, ◌++◌}
use agent_transponder.Prelude.Int.{pos}
use agent_transponder.Prelude.Result.{Result, ok, err}
use agent_transponder.Identity as Identity
use agent_transponder.Identity.{AgentIdentity, Certificate, TlsProvider, IdentityError, identify}
use agent_transponder.Policy.{ConfigEngine}
use agent_transponder.Audit.Entry.{ActionType, Outcome}
use agent_transponder.Audit.Sink.{HashChainSink, log}
use agent_transponder.Redaction.{RegexRedactor}
use agent_transponder.EventStore.{JsonlStore}
use agent_transponder.Forwarder.{AnalysisForwarder}
use agent_transponder.Ingestion.{
  Packages, Peer, PeerError, ResponseError, IngestEventResponse, Status, Counters, Surroundings,
  rejected_with, no_peer_info, no_tls_info, no_certificate_presented, not_identified, status_ok,
}

module _ (pkg : Packages) where
  pub record IngestionServer : Type 0 where
    pub id_provider : TlsProvider
    pub store : JsonlStore
    pub audit_sink : HashChainSink
    pub policy_eng : ConfigEngine pkg.float
    pub redactor : RegexRedactor pkg.regexp
    pub forwarder : AnalysisForwarder pkg.well_known
    pub collector : Counters

  abbrev pub Answer : Type 0
  Answer = Option IngestEventResponse × Status

  unfoldable pub source_ip_of : Option String → String
  source_ip_of none = ""
  source_ip_of (some addr) = elim (pkg.split_host addr) [ some host ↦ host | none ↦ addr ]

  unfoldable pub identity_from :
      String → Identity.Result AgentIdentity → Result PeerError (AgentIdentity × String)
  identity_from source_ip (Identity.Result.ok agent) = ok (agent, source_ip)
  identity_from source_ip (Identity.Result.err e) = err (not_identified e)

  unfoldable pub extract_identity :
      TlsProvider → Option Peer → Result PeerError (AgentIdentity × String)
  extract_identity p none = err no_peer_info
  extract_identity p (some peer) = elim peer.certificates [
    | none ↦ err no_tls_info
    | some certs ↦ elim certs [
      | [] ↦ err no_certificate_presented
      | cert ∷ rest ↦ identity_from (source_ip_of peer.addr) (identify p (cert ∷ rest))
    ]
  ]

  -- An error of the log is only logged.
  unfoldable pub log_audit :
      Surroundings
      → ActionType
      → Outcome
      → String
      → String
      → String
      → String
      → IngestionServer
      → IngestionServer
  log_audit out action outcome actor resource detail source_ip s = record s {
    audit_sink =
        (log pkg.hashing out.audit_fault out.logged_at
          (record {
            timestamp = out.logged_at;
            action = action;
            outcome = outcome;
            actor_id = actor;
            resource = resource;
            detail = detail;
            source_ip = source_ip;
            correlation_id = "";
            labels = [];
            previous_hash = "";
            entry_hash = "";
            sequence_num = pos 0;
          })
          s.audit_sink).0;
    collector = record s.collector { audit_entries_total = suc s.collector.audit_entries_total };
  }

  unfoldable pub count_rejected : String → IngestionServer → IngestionServer
  count_rejected reason s = record s {
    collector = record s.collector { events_rejected = s.collector.events_rejected ++ reason ∷ [] };
  }

  unfoldable pub reject : String → ResponseError → IngestionServer → IngestionServer × Answer
  reject reason error s = (count_rejected reason s, (some (rejected_with reason error), status_ok))
