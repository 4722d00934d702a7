-- ===== src/Lib.antt =====
-- Agent Transponder, a flight recorder for AI agents: the Go services that record, audit and analyse
-- the telemetry of agents. A verification of their core logic.
--
-- The program. Agents send events over mutual TLS to the ingestion service, cmd/ingestion. For each
-- event it takes the agent's identity from the certificate (internal/identity), asks the policy
-- engine (internal/policy), checks the HMAC and the schema (internal/types), redacts secrets
-- (internal/redaction), appends the event to the store (internal/eventstore), enters it into the
-- hash-chained audit log (internal/audit) and hands it to the forwarder of the analysis engine
-- (cmd/ingestion/analysis.go). The analyzer (cmd/analyzer, internal/analyzer) polls the stored events,
-- sends each one through its detectors (internal/analyzer/detectors) and writes what they find to
-- files, which the exporter (cmd/exporter) counts for Prometheus. internal/keymanager keeps the keys
-- that encrypt stored buckets.
--
-- The files. Prelude: tests, lists, maps, 64-bit integers, float64 and texts.
--   Types/Event, Types/Tenant, Types/Hmac: internal/types/event.go and tenant.go.
--   Identity: Identify and LookupHMACKey of internal/identity/tls.go; Identity/Certified.
--   Policy, Policy/Bucket: Evaluate and Reload of internal/policy/config.go and its token buckets;
--     Policy/Access, Limits, Burst and Race hold the proofs.
--   Audit/Entry, Audit/Sink: the entry with its hash, and NewHashChainSink, Log, Verify and
--     LatestCheckpoint of internal/audit/hashchain.go; Audit/Chain to Audit/Commit hold the proofs.
--   KeyManager, KeyManager/Rotation: LocalManager of internal/keymanager/local.go, with RotateKEK;
--     KeyManager/Roundtrip and Loss hold proofs.
--   Conversion, Conversion/Messages: eventToProto and protoToEvent of cmd/ingestion/analysis.go, and
--     the messages of proto/agenttransponder/v1; Conversion/Roundtrip and SecondTrip hold the proofs.
--   Forwarder, Forwarder/Batcher: AnalysisForwarder and runBatcher of cmd/ingestion/analysis.go;
--     Forwarder/Conserved to Forwarder/Trips hold the proofs.
--   EventStore: Append and Query of internal/eventstore/jsonl.go; EventStore/Scan and
--     AppendOnly. EventStore/Stream: Stream, Export and Close.
--   Redaction: RegexRedactor of internal/redaction/redactor.go; Redaction/Reported.
--   Ingestion, Ingestion/Server, Ingestion/Pipeline: IngestEvent, IngestEventStream and Ping of
--     cmd/ingestion/pipeline.go; Ingestion/Schema, Taken, Outcomes, Audited and Streamed hold
--     the proofs.
--   Redaction/Built: NewRegexRedactor and its patterns, with those of the configuration.
--   Ingestion/Config, Ingestion/Subsystems: cmd/ingestion/config.go, and the keys and the subsystems
--     that cmd/ingestion/main.go builds.
--   Detectors/Finding: internal/analyzer/detector.go. Detectors/Loop, Detectors/ToolMisuse and
--     Detectors/Drift: the three detectors of internal/analyzer/detectors, each with its proofs below.
--   Analyzer/Reader, Analyzer/Service, Analyzer/Cursor: readNewEvents, poll and what poll calls, and
--     the cursor, of internal/analyzer/analyzer.go and cursor.go; Analyzer/Resumed, Settled, Refined
--     and Failed hold the proofs.
--   Analyzer/Config, Analyzer/Command: internal/analyzer/config.go, and the detectors and the health
--     server that cmd/analyzer/main.go builds.
--   Exporter: cmd/exporter/main.go; Exporter/Counts and Gauges hold the proofs.
--   Metrics: internal/metrics/collector.go. HmacCheck: cmd/hmaccheck/main.go.
--   Examples: each theorem of the list below at concrete inputs.
--
-- How code becomes a definition. A struct is a record, an enumeration of the code a data type or the
-- text or number that it is, an operation a function from the state to the new state and the result,
-- and an error a value of a data type. A mutex makes an operation one step, so that a history is a
-- sequence of calls. Evaluate of the policy engine has no such mutex where it makes a bucket: its
-- histories are of requests that are evaluated one after another, but for Policy/Race. A failure
-- outside (a write, a dial, a random source) is an argument, and so are the readings of the clock.
-- A write to the store or to the audit log that fails may leave a part of its line in the file, which
-- the next line then continues. The file of the keys is replaced as a whole, and what a failed write
-- leaves of its own finding is not modelled. A text is its code points, so that it is always valid
-- UTF-8. A `time.Time` is the nanoseconds since the zero time. A Go map is an
-- association list, whose order stands for the order of a `range`.
--
-- Parameters, as they are not code of the repository: float64, SHA-256 and HMAC, AES-GCM, regexp,
-- encoding/json, the well-known types of protobuf, the formatting of dates, paths and addresses.
-- What a theorem needs of one is a hypothesis, and the examples give a package for which it holds.
--
-- Bounds. Most loops are structural recursions on the lists that they run over. The three loops of
-- LoopDetector run on fuel, in which `none` is also a panic: one round more than the sequence of calls
-- is long, and two for the positions, which is enough as each round moves ahead. The decimal digits of
-- a sequence number use one more than the number itself, which is more than its digits. An `int64`
-- that is counted up wraps around at 2^63; the products and sums of the detectors stay below it.
--
-- Not modelled: the walk over the analyzer's directory, RetentionManager, which has no implementation,
-- log lines, histograms, TLS and the start and the shutdown of the services, which are input and output.
pub mod Prelude
pub mod Types
pub mod Identity
pub mod Policy
pub mod Audit
pub mod KeyManager
pub mod Examples
pub mod Conversion
pub mod Forwarder
pub mod EventStore
pub mod Redaction
pub mod Ingestion
pub mod Analyzer
pub mod Detectors
pub mod Exporter
pub mod HmacCheck
pub mod Metrics
