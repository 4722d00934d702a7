-- ===== src/Exporter.antt =====
-- cmd/exporter/main.go: the metrics that the exporter takes from the files of a directory, and its
-- configuration. A file is its bytes; a gauge is a float64.
pub mod Counts
pub mod Gauges
use agent_transponder.Prelude.{
  ℕ, zero, suc, ◌+◌, ◌-◌, ◌≡◌, String, ◌==◌, Bool, true, false, not, ◌&&◌, ◌||◌, Option, none, some,
  List, [], ◌∷◌, ◌++◌, map, length, leb, ltb, eqb, get_or, if◌then◌else◌,
}
use agent_transponder.Prelude.Int.{ℤ, pos}
use agent_transponder.Prelude.Maps.{Map, lookup, insert}
use agent_transponder.Prelude.Float.{Float}
use agent_transponder.Prelude.Result.{Result, ok, err}
use agent_transponder.Types.Event.{Duration}
use agent_transponder.Analyzer.Reader.{newline, carriage_return, read_lines}

-- scanner.Buffer(…, 1024*1024)
abbrev pub max_token : ℕ
max_token = 1_048_576

unfoldable pub ends_with : ℕ → List ℕ → Bool
ends_with c [] = false
ends_with c (b ∷ []) = eqb b c
ends_with c (b ∷ d ∷ bytes) = ends_with c (d ∷ bytes)

unfoldable pub drop_last : List ℕ → List ℕ
drop_last [] = []
drop_last (b ∷ []) = []
drop_last (b ∷ d ∷ bytes) = b ∷ drop_last (d ∷ bytes)

-- bufio.ScanLines: the line without its newline, and without a carriage return before it.
unfoldable pub token : List ℕ → List ℕ
token line =
    let line' = if ends_with newline line then drop_last line else line in
    if ends_with carriage_return line' then drop_last line' else line'

-- Whether the scanner's buffer takes the line. A last line without a newline must leave room in it.
unfoldable pub fits_buffer : List ℕ → Bool
fits_buffer line =
    if ends_with newline line then leb (length line) max_token else ltb (length line) max_token

-- The tokens up to a line that does not fit, and whether there is one.
unfoldable pub scan_tokens : List (List ℕ) → List (List ℕ) × Bool
scan_tokens [] = ([], false)
scan_tokens (line ∷ lines) =
    let rest = scan_tokens lines in
    if fits_buffer line then (token line ∷ rest.0, rest.1) else ([], true)

unfoldable pub scan_bytes : List ℕ → List (List ℕ) × Bool
scan_bytes bytes = scan_tokens (read_lines [] bytes)

unfoldable pub count_nonempty : List (List ℕ) → ℕ
count_nonempty [] = 0
count_nonempty ([] ∷ tokens) = count_nonempty tokens
count_nonempty ((c ∷ token) ∷ tokens) = suc (count_nonempty tokens)

-- What fs.WalkDir calls its function with, and what opening the file gives: its bytes, or an error.
-- `dir` and `ext` are filepath.Dir and filepath.Ext of the path.
pub record WalkEntry : Type 0 where
  pub failed : Bool
  pub is_dir : Bool
  pub dir : String
  pub ext : String
  pub base : String
  pub bytes : Option (List ℕ)

-- countLines: the nonempty lines and the size, `none` for an error.
unfoldable pub count_lines : Option (List ℕ) → Option (ℕ × ℕ)
count_lines none = none
count_lines (some bytes) =
    let (tokens, too_long) = scan_bytes bytes in
    if too_long then none else some (count_nonempty tokens, length bytes)

pub record StoreCounts : Type 0 where
  pub tenant_bytes : Map ℕ
  pub tenant_events : Map ℕ
  pub buckets : ℕ

-- m[k] += n
unfoldable pub add_to : String → ℕ → Map ℕ → Map ℕ
add_to k n m = insert k (get_or 0 (lookup k m) + n) m

abbrev pub tenant_of : String → String
tenant_of dir = if dir == "." then "_default" else dir

unfoldable pub count_file : String → Option (ℕ × ℕ) → StoreCounts → StoreCounts
count_file tenant none c = c
count_file tenant (some (n, size)) c = record {
  tenant_bytes = add_to tenant size c.tenant_bytes;
  tenant_events = add_to tenant n c.tenant_events;
  buckets = suc c.buckets;
}

-- The walk: an error of the walk ends it.
unfoldable pub walk_store : List WalkEntry → StoreCounts → StoreCounts
walk_store [] c = c
walk_store (e ∷ entries) c =
    let counted = walk_store entries (count_file (tenant_of e.dir) (count_lines e.bytes) c) in
    let skipped = walk_store entries c in
    if e.failed then c else if e.is_dir || not (e.ext == ".jsonl") then skipped else counted

-- The labels of a finding: type, severity and detector.
pub record Labels : Type 0 where
  pub type : String
  pub severity : String
  pub detector : String

-- A finding without a type is not counted, and neither is a malformed one.
unfoldable pub typed_labels : Option Labels → List Labels
typed_labels none = []
typed_labels (some l) = if l.type == "" then [] else l ∷ []

unfoldable pub labels_in : (List ℕ → Option Labels) → List (List ℕ) → List Labels
labels_in unmarshal [] = []
labels_in unmarshal (t ∷ tokens) = typed_labels (unmarshal t) ++ labels_in unmarshal tokens

unfoldable pub labels_of_file : (List ℕ → Option Labels) → Option (List ℕ) → List Labels
labels_of_file unmarshal none = []
labels_of_file unmarshal (some bytes) = labels_in unmarshal (scan_bytes bytes).0

unfoldable pub walk_findings : (List ℕ → Option Labels) → List WalkEntry → List Labels
walk_findings unmarshal [] = []
walk_findings unmarshal (e ∷ entries) =
    let rest = walk_findings unmarshal entries in
    let here = labels_of_file unmarshal e.bytes in
    if e.failed
    then []
    else if e.is_dir || not (e.ext == ".jsonl") || e.base == ".cursor.json"
    then rest
    else here ++ rest

module _ (fl : Float) where
  open fl use {F, of_int}

  -- The metrics of the exporter. The counter of a finding's labels is how often they stand in the list.
  pub record Exported : Type 0 where
    pub storage_bytes : Map F
    pub events_stored : Map F
    pub buckets_active : F
    pub findings_total : List Labels

  unfoldable pub set_gauges : Map ℕ → Map F
  set_gauges [] = []
  set_gauges ((tenant, n) ∷ entries) = (tenant, of_int (pos n)) ∷ set_gauges entries

  -- `none`: the directory cannot be opened.
  unfoldable pub collect_store_metrics : Option (List WalkEntry) → Exported → Exported
  collect_store_metrics none col = col
  collect_store_metrics (some entries) col =
      let c = walk_store entries (record { tenant_bytes = []; tenant_events = []; buckets = 0 }) in
      record col {
        storage_bytes = set_gauges c.tenant_bytes;
        events_stored = set_gauges c.tenant_events;
        buckets_active = of_int (pos c.buckets);
      }

  unfoldable pub collect_findings_metrics :
      (List ℕ → Option Labels) → Option (List WalkEntry) → Exported → Exported
  collect_findings_metrics unmarshal none col = record col { findings_total = [] }
  collect_findings_metrics unmarshal (some entries) col = record col {
    findings_total = walk_findings unmarshal entries;
  }

  -- One collection: the directory is walked for each part.
  unfoldable pub collect :
      (List ℕ → Option Labels)
      → Option (List WalkEntry)
      → Option (List WalkEntry)
      → Exported
      → Exported
  collect unmarshal store findings col =
      collect_findings_metrics unmarshal findings (collect_store_metrics store col)

pub record ExporterConfig : Type 0 where
  pub address : String
  pub port : ℤ
  pub cert : String
  pub key : String
  pub ca : String
  pub path : String
  pub poll_interval : String
  pub namespace : String
  pub level : String

abbrev pub default_config : ExporterConfig
default_config = record {
  address = "0.0.0.0";
  port = pos 8430;
  cert = "";
  key = "";
  ca = "";
  path = "/var/lib/flight-recorder/findings";
  poll_interval = "30s";
  namespace = "flight_recorder";
  level = "info";
}

pub data ConfigError : Type 0 where
  read_config : String → ConfigError
  parse_config : String → ConfigError

-- `file`: what the file holds, none if it cannot be read; YAML replaces the values it names.
unfoldable pub load_exporter_config :
    {File : Type 0}
    → (File → ExporterConfig → Option ExporterConfig)
    → String
    → Option File
    → Result ConfigError ExporterConfig
load_exporter_config unmarshal path none = err (read_config path)
load_exporter_config unmarshal path (some file) = elim (unmarshal file default_config) [
  | none ↦ err (parse_config path)
  | some cfg ↦ ok cfg
]

-- time.ParseDuration gives none for a text that is no duration.
unfoldable pub poll_interval_of : Option Duration → Duration
poll_interval_of parsed = get_or (pos 30_000_000_000) parsed

-- The TLS of the metrics server: none, TLS 1.3, or TLS 1.3 that checks a client's certificate if the
-- client gives one.
pub data MetricsTls (Pool : Type 0) : Type 0 where
  no_tls : MetricsTls Pool
  tls13 : MetricsTls Pool
  verify_if_given : Pool → MetricsTls Pool

pub data TlsError : Type 0 where
  read_ca : TlsError
  parse_ca : TlsError

-- The CA file: unreadable, or without a certificate, or a pool.
unfoldable pub client_check :
    {Pool : Type 0} → Option (Option Pool) → Result TlsError (MetricsTls Pool)
client_check none = err read_ca
client_check (some none) = err parse_ca
client_check (some (some pool)) = ok (verify_if_given pool)

unfoldable pub build_tls_config :
    {Pool : Type 0} → ExporterConfig → Option (Option Pool) → Result TlsError (MetricsTls Pool)
build_tls_config cfg ca =
    if cfg.cert == "" then ok no_tls else if cfg.ca == "" then ok tls13 else client_check ca
