-- ===== src/Metrics.antt =====
-- internal/metrics/collector.go: the metrics that NewCollector registers. Registering a name twice
-- is a panic, `none`.
use agent_transponder.Prelude.{
  ◌≡◌, refl, String, ◌==◌, str_append, Option, none, some, List, [], ◌∷◌, ◌++◌, any, if◌then◌else◌,
}

abbrev pub metrics_namespace : String
metrics_namespace = "agent_transponder"

abbrev pub flight_recorder_namespace : String
flight_recorder_namespace = "flight_recorder"

-- prometheus.NewCounter, NewCounterVec and so on: the kind, the full name and the labels.
pub data Kind : Type 0 where
  counter gauge histogram : Kind

pub record Desc : Type 0 where
  pub kind : Kind
  pub name : String
  pub labels : List String

abbrev pub metric : Kind → String → String → List String → Desc
metric kind space name labels = record {
  kind = kind;
  name = str_append space (str_append "_" name);
  labels = labels;
}

abbrev pub metrics : List Desc
metrics =
    metric counter flight_recorder_namespace "findings_total"
      ("type" ∷ "severity" ∷ "detector" ∷ [])
    ∷ metric counter metrics_namespace "events_ingested_total" ("tenant_id" ∷ "event_type" ∷ [])
    ∷ metric counter metrics_namespace "events_rejected_total" ("reason" ∷ [])
    ∷ metric histogram metrics_namespace "ingest_duration_seconds" ("tenant_id" ∷ [])
    ∷ metric gauge metrics_namespace "active_connections" []
    ∷ metric gauge metrics_namespace "events_stored" ("tenant_id" ∷ [])
    ∷ metric gauge metrics_namespace "storage_bytes" ("tenant_id" ∷ [])
    ∷ metric gauge metrics_namespace "buckets_active" []
    ∷ metric counter metrics_namespace "detections_total" ("detection_type" ∷ "severity" ∷ [])
    ∷ metric histogram metrics_namespace "analysis_duration_seconds" ("detector" ∷ [])
    ∷ metric counter metrics_namespace "analysis_batches_total" []
    ∷ metric counter metrics_namespace "analysis_errors_total" []
    ∷ metric counter metrics_namespace "audit_entries_total" []
    ∷ metric gauge metrics_namespace "audit_chain_length" []
    ∷ metric gauge metrics_namespace "audit_chain_intact" []
    ∷ metric gauge metrics_namespace "active_deks" []
    ∷ metric counter metrics_namespace "key_rotations_total" []
    ∷ metric counter metrics_namespace "crypto_shreds_total" []
    ∷ metric counter metrics_namespace "throttled_requests_total" ("agent_id" ∷ [])
    ∷ metric gauge metrics_namespace "build_info" ("version" ∷ "commit" ∷ "build_time" ∷ [])
    ∷ []

-- reg.MustRegister: in order, onto what the registry holds.
unfoldable pub must_register : List Desc → List Desc → Option (List Desc)
must_register reg [] = some reg
must_register reg (d ∷ descs) =
    let rest = must_register (reg ++ d ∷ []) descs in
    if any (λ (known : Desc). d.name == known.name) reg then none else rest

unfoldable pub new_collector : List Desc → Option (List Desc)
new_collector reg = must_register reg metrics

-- On a fresh registry the names are all different, so that every metric is registered.
fresh_registry : new_collector [] ≡ some metrics
unfolding new_collector must_register
fresh_registry = refl
