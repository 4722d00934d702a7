-- ===== src/Examples/IngestionExamples.antt =====
-- The theorems on the event store, the redactor and the ingestion pipeline at concrete inputs, with
-- toy packages.
use agent_transponder.Prelude.{
  ◌≡◌, ◌≢◌, ◌⊎◌, refl, ◌↔◌, ◌+◌, ℕ, String, true, false, Option, none, some, List, [], ◌∷◌, ◌==◌,
  arith, length, if◌then◌else◌,
}
use agent_transponder.Identity as Identity
use agent_transponder.Identity.{
  TlsProvider, Certificate, identify, AgentIdentity, agent_id_of, tenant_id_of,
}
use agent_transponder.Prelude.Maps.{lookup}
use agent_transponder.Types.Tenant.{validate_tenant_id}
use agent_transponder.Identity.Certified.{identify-ok_iff}
use agent_transponder.Prelude.Int.{pos}
use agent_transponder.Prelude.Float.{milli}
use agent_transponder.Types.Hmac.{Signing}
use agent_transponder.Audit.Sink.{no_fault, genesis_hash}
use agent_transponder.Conversion.Messages.{EventMessage}
use agent_transponder.Conversion.{event_to_proto}
use agent_transponder.EventStore.{
  QueryFilter, StoredLine, JsonlStore, Storage, store_works, write_out_fails, query, append,
  bucket_key,
}
use agent_transponder.EventStore.Scan.{all_events, limited, matching, query-matching}
use agent_transponder.EventStore.AppendOnly.{IsAppended, append-IsAppended}
use agent_transponder.Redaction.{Regexp, RegexRedactor, redact}
use agent_transponder.Redaction.Reported.{redact-none_iff}
use agent_transponder.Ingestion.{Packages, Peer, Surroundings}
use agent_transponder.Ingestion.Server.{IngestionServer}
use agent_transponder.Ingestion.Pipeline.{ingest_event, ingest_event_stream}
use agent_transponder.Ingestion.Taken.{is_accepted}
use agent_transponder.Ingestion.Outcomes.{Admitted, Refused, ingest_event-outcome}
use agent_transponder.Ingestion.Audited.{IsAudited, ingest_event-audit_entries}
use agent_transponder.Ingestion.Streamed.{ingest_event_stream_counts}
use agent_transponder.Examples.AuditExamples.{toy}
use agent_transponder.Examples.ForwarderExamples.{lib, event, other_event, forwarder}

abbrev storage : Storage
storage = record {
  date = λ t. "2026-01-01";
  join = λ a b. a;
  encoded = λ e. record { content = some e; size = 300; terminated = true };
  glue = λ x y. record { content = none; size = x.size + y.size; terminated = true };
}

-- Every text with a secret is the secret.
abbrev regexp : Regexp
regexp = record {
  Regex = String;
  compile = λ expr. some expr;
  replace_all_string = λ r s marker. if s == r then marker else s;
  match_string = λ r s. s == r;
}

abbrev signing : Signing
signing = record {
  JsonObject = String;
  marshal_event = λ e. some e.id;
  unmarshal_object = λ raw. some raw;
  delete_key = λ key m. m;
  marshal_object = λ m. some m;
  hmac_sha256_hex = λ key text. text;
}

abbrev packages : Packages
packages = record {
  float = milli;
  hashing = toy;
  well_known = lib;
  storage = storage;
  regexp = regexp;
  signing = signing;
  split_host = λ addr. some addr;
  reason_text = λ reason. "reason";
}

abbrev redactor : RegexRedactor regexp
redactor = record {
  patterns = record { name = "greeting"; regex = "hello"; raw_expr = "hello" } ∷ [];
  marker = "[REDACTED]";
}

abbrev files : List (String × List StoredLine)
files =
    (
      "my-team.jsonl",
      record { content = some event; size = 300; terminated = true }
          ∷ record { content = none; size = 3; terminated = true }
          ∷ record { content = some other_event; size = 300; terminated = true }
          ∷ [],
    )
    ∷ []

abbrev first_of_agent : QueryFilter
first_of_agent = record {
  after_time = pos 0;
  before_time = pos 0;
  session_id = "";
  agent_id = "sdk-demo";
  tenant_id = "";
  types = [];
  limit = pos 1;
}

query-matching_example : query first_of_agent files ≡ record {
  events = limited (pos 1) (matching first_of_agent (all_events files));
  failed = false;
}
query-matching_example = query-matching first_of_agent files ((refl, (refl, (refl, tt))), tt)

abbrev store : JsonlStore
store = record { files = files; writers = [] }

-- A part of a line that a failed flush leaves.
abbrev torn : StoredLine
torn = record { content = none; size = 9; terminated = false }

append-IsAppended_example :
    IsAppended storage
      (write_out_fails (some torn))
      (bucket_key storage "my-team" event.timestamp)
      event
      store
      (append storage (write_out_fails (some torn)) event store)
append-IsAppended_example = append-IsAppended storage (write_out_fails (some torn)) event store

redact-none_iff_example :
    ((redact regexp redactor event).1 ≡ []) ↔ ((redact regexp redactor event).0 ≡ event)
redact-none_iff_example = redact-none_iff regexp redactor event

abbrev surroundings : Surroundings
surroundings = record {
  bucket_made_at = pos 1;
  evaluated_at = pos 1;
  received_at = pos 2;
  logged_at = pos 3;
  store_fault = store_works;
  audit_fault = no_fault;
}

abbrev peer : Option Peer
peer = some (record {
  addr = some "10.0.0.1";
  certificates = some (
      record {
        dns_names = "sdk-demo" ∷ [];
        common_name = "";
        organization = "my-team" ∷ [];
        subject = "CN=sdk-demo";
      }
      ∷ []);
})

abbrev server : IngestionServer packages
server = record {
  id_provider = record { hmac_keys = ("sdk-demo", []) ∷ [] };
  store = store;
  audit_sink = record {
    file = [];
    previous_hash = genesis_hash;
    seq = pos 0;
    writer_failed = false;
  };
  policy_eng = record {
    buckets = [];
    rules = record {
      agent_overrides = [];
      allowed_actions = [];
      deny_list = [];
      default_rate_limit = record {
        events_per_second = milli.of_int (pos 100);
        burst_size = pos 200;
      };
    };
  };
  redactor = redactor;
  forwarder = forwarder;
  collector = record {
    events_rejected = [];
    throttled_requests = [];
    events_ingested = [];
    audit_entries_total = 0;
  };
}

ingest_event-outcome_example :
    let (s', (response, _)) =
      ingest_event packages surroundings peer (some (event_to_proto lib event)) server in
    ((is_accepted response ≡ true)
      × Admitted packages surroundings peer (event_to_proto lib event) server s')
    ⊎ ((is_accepted response ≡ false)
        × Refused packages surroundings peer (event_to_proto lib event) server s')
ingest_event-outcome_example =
    ingest_event-outcome packages surroundings peer (event_to_proto lib event) server

ingest_event-audit_entries_example :
    IsAudited packages surroundings peer server
      (ingest_event packages surroundings peer (some (event_to_proto lib event)) server)
ingest_event-audit_entries_example =
    ingest_event-audit_entries packages surroundings peer (some (event_to_proto lib event)) server

abbrev requests : List (Surroundings × Option (EventMessage lib))
requests = (surroundings, some (event_to_proto lib event)) ∷ (surroundings, none) ∷ []

ingest_event_stream_counts_example :
    let (s', r) =
      ingest_event_stream packages peer requests
        (record { accepted_count = pos 0; rejected_count = pos 0; errors = [] })
        server in
    (x : ℕ) × (y : ℕ) × (r.accepted_count ≡ pos x)
    × (r.rejected_count ≡ pos y)
    × (x + y ≡ 2)
    × (length s'.collector.events_ingested ≡ x + 0)
ingest_event_stream_counts_example =
    ingest_event_stream_counts packages peer requests server (omega arith)

abbrev untimed : EventMessage lib
untimed = record (event_to_proto lib event) { timestamp = none; type = pos 77 }

abbrev leaf : Certificate
leaf = record {
  dns_names = "sdk-demo" ∷ [];
  common_name = "";
  organization = [];
  subject = "CN=sdk-demo";
}

abbrev provider : TlsProvider
provider = record { hmac_keys = ("sdk-demo", 7 ∷ []) ∷ [] }

abbrev demo_agent : AgentIdentity
demo_agent = record {
  agent_id = "sdk-demo";
  tenant_id = "_default";
  raw = "CN=sdk-demo";
  hmac_key = 7 ∷ [];
}

identify-ok_iff_example : (identify provider (leaf ∷ []) ≡ Identity.Result.ok demo_agent) ↔ (
    ("sdk-demo" ≡ agent_id_of leaf)
    × (agent_id_of leaf ≢ "")
    × ("_default" ≡ tenant_id_of leaf)
    × (validate_tenant_id (tenant_id_of leaf) ≡ none)
    × ("CN=sdk-demo" ≡ leaf.subject)
    × (lookup (agent_id_of leaf) provider.hmac_keys ≡ some (7 ∷ [])))
identify-ok_iff_example = identify-ok_iff provider leaf [] demo_agent
