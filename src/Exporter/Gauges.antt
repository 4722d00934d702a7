-- ===== src/Exporter/Gauges.antt =====
-- cmd/exporter/main.go: the metrics that the exporter shows, against what was written to the files.
use agent_transponder.Prelude.{
  ℕ, ◌+◌, ◌≡◌, refl, ap, ap₂, ◌∙◌, String, ◌==◌, Bool, true, false, not, ◌&&◌, ◌||◌, Option, none,
  some, List, [], ◌∷◌, ◌++◌, map, append_nil, length, All, get_or, if◌then◌else◌, arith,
}
use agent_transponder.Prelude.Int.{pos}
use agent_transponder.Prelude.Maps.{Map, lookup}
use agent_transponder.Prelude.Float.{Float}
use agent_transponder.Detectors.Finding.{Finding}
use agent_transponder.Exporter.{
  scan_bytes, WalkEntry, count_lines, StoreCounts, tenant_of, walk_store, Labels, typed_labels,
  labels_in, labels_of_file, walk_findings, Exported, set_gauges, collect_store_metrics,
  collect_findings_metrics,
}
use agent_transponder.Exporter.Counts.{
  IsLine, joined, scan_bytes-joined, count_lines-joined, count_lines-none, counted, tally, value,
  walk_store-tally,
}

-- A file of lines in a directory.
pub record StoredFile : Type 0 where
  pub dir : String
  pub base : String
  pub bodies : List (List ℕ)

abbrev pub entry_of : StoredFile → WalkEntry
entry_of file = record {
  failed = false;
  is_dir = false;
  dir = file.dir;
  ext = ".jsonl";
  base = file.base;
  bytes = some (joined file.bodies);
}

-- What a walk finds: a file of lines; a .jsonl file that cannot be read; or a directory or another
-- file, which do not count.
pub data Node : Type 0 where
  readable : StoredFile → Node
  unreadable : (dir base : String) → Node
  other : (is_dir : Bool) → (dir ext base : String) → Option (List ℕ) → Node

abbrev pub node_entry : Node → WalkEntry
node_entry (readable file) = entry_of file
node_entry (unreadable dir base) = record {
  failed = false;
  is_dir = false;
  dir = dir;
  ext = ".jsonl";
  base = base;
  bytes = none;
}
node_entry (other is_dir dir ext base bytes) = record {
  failed = false;
  is_dir = is_dir;
  dir = dir;
  ext = ext;
  base = base;
  bytes = bytes;
}

abbrev pub IsNode : Node → Type 0
IsNode (readable file) = All IsLine file.bodies
IsNode (unreadable dir base) = Unit
IsNode (other is_dir dir ext base bytes) = (is_dir || not (ext == ".jsonl")) ≡ true

-- The walk ends here, or with an error.
abbrev pub Ends : List WalkEntry → Type 0
Ends [] = Unit
Ends (e ∷ entries) = e.failed ≡ true

-- How many lines the files of a tenant have.
abbrev pub lines_of_tenant : String → List Node → ℕ
lines_of_tenant k [] = 0
lines_of_tenant k (readable file ∷ nodes) =
    let later = lines_of_tenant k nodes in
    (if k == tenant_of file.dir then length file.bodies else 0) + later
lines_of_tenant k (unreadable dir base ∷ nodes) = lines_of_tenant k nodes
lines_of_tenant k (other is_dir dir ext base bytes ∷ nodes) = lines_of_tenant k nodes

tally-end : (k : String) (rest : List WalkEntry) → Ends rest → tally (λ p. p.0) k rest ≡ 0
tally-end k [] h = refl
tally-end k (e ∷ rest) h = ground (arith, h)

tally-lines :
    (k : String) (nodes : List Node) (rest : List WalkEntry)
    → All IsNode nodes
    → Ends rest
    → tally (λ p. p.0) k (map node_entry nodes ++ rest) ≡ lines_of_tenant k nodes
tally-lines k [] rest h end = tally-end k rest end
tally-lines k (readable file ∷ nodes) rest h end =
    ap₂
      (λ (r : Option (ℕ × ℕ)) (later : ℕ).
        (if k == tenant_of file.dir then counted (λ p. p.0) r else 0) + later)
      (count_lines-joined file.bodies h.0) (tally-lines k nodes rest h.1 end)
tally-lines k (unreadable dir base ∷ nodes) rest h end =
    let unread : count_lines none ≡ none = count_lines-none in
    ap
      (λ (r : Option (ℕ × ℕ)).
        (if k == tenant_of dir then counted (λ p. p.0) r else 0)
        + tally (λ p. p.0) k (map node_entry nodes ++ rest))
      unread
    ∙ ground (arith, tally-lines k nodes rest h.1 end)
tally-lines k (other is_dir dir ext base bytes ∷ nodes) rest h end =
    let skipped : (not is_dir && ext == ".jsonl" && k == tenant_of dir) ≡ false =
      ground (arith, h.0) in
    ap
      (λ (b : Bool).
        (if b then counted (λ p. p.0) (count_lines bytes) else 0)
        + tally (λ p. p.0) k (map node_entry nodes ++ rest))
      skipped
    ∙ ground (arith, tally-lines k nodes rest h.1 end)

module _ (fl : Float) where
  open fl use {F, of_int}

  lookup-set_gauges :
      (k : String) (m : Map ℕ)
      → get_or (of_int (pos 0)) (lookup k (set_gauges fl m)) ≡ of_int (pos (value k m))
  unfolding set_gauges lookup
  lookup-set_gauges k [] = refl
  lookup-set_gauges k ((tenant, n) ∷ m) = ground (arith, lookup-set_gauges k m)

  -- The gauge of a tenant's events is the number of the lines in the files of its directory, among
  -- whatever directories, unreadable files and files of another extension, up to an error of the
  -- walk. A line is not empty, does not end in a carriage return and fits the scanner's buffer.
  pub events_stored-lines :
      (k : String) (nodes : List Node) (rest : List WalkEntry) (col : Exported fl)
      → All IsNode nodes
      → Ends rest
      → get_or (of_int (pos 0)) (
          lookup k
            (collect_store_metrics fl (some (map node_entry nodes ++ rest)) col).events_stored)
        ≡ of_int (pos (lines_of_tenant k nodes))
  unfolding collect_store_metrics lookup
  events_stored-lines k nodes rest col h end =
      let start : StoreCounts = record { tenant_bytes = []; tenant_events = []; buckets = 0 } in
      let entries = map node_entry nodes ++ rest in
      lookup-set_gauges k (walk_store entries start).tenant_events
      ∙ ap (λ n. of_int (pos n))
          ((walk_store-tally k entries start).0 ∙ omega (arith, tally-lines k nodes rest h end))

  -- The labels of a finding.
  abbrev pub labels_of : Finding F → Labels
  labels_of f = record { type = f.type; severity = f.severity; detector = f.detector }

  labels_in-encoded :
      (encode : Finding F → List ℕ) (unmarshal : List ℕ → Option Labels)
      (findings : List (Finding F))
      → All
          (λ (f : Finding F).
            (unmarshal (encode f) ≡ some (labels_of f)) × ((f.type == "") ≡ false))
          findings
      → labels_in unmarshal (map encode findings) ≡ map labels_of findings
  unfolding labels_in typed_labels
  labels_in-encoded encode unmarshal [] h = refl
  labels_in-encoded encode unmarshal (f ∷ findings) h =
      let rest = labels_in-encoded encode unmarshal findings h.1 in
      ap (λ (o : Option Labels). typed_labels o ++ labels_in unmarshal (map encode findings)) h.0.0
      ∙ ap
          (λ (b : Bool).
            (if b then [] else labels_of f ∷ []) ++ labels_in unmarshal (map encode findings))
          h.0.1
      ∙ ap (λ l. labels_of f ∷ l) rest

  -- What encoding/json and the file format make of the findings.
  pub record IsEncoded (encode : Finding F → List ℕ) (unmarshal : List ℕ → Option Labels)
      (f : Finding F) : Type 0 where
    pub line : IsLine (encode f)
    pub parsed : unmarshal (encode f) ≡ some (labels_of f)
    pub typed : (f.type == "") ≡ false

  encoded_lines :
      (encode : Finding F → List ℕ) (unmarshal : List ℕ → Option Labels)
      (findings : List (Finding F))
      → All (IsEncoded encode unmarshal) findings
      → All IsLine (map encode findings)
        × All
            (λ (f : Finding F).
              (unmarshal (encode f) ≡ some (labels_of f)) × ((f.type == "") ≡ false))
            findings
  encoded_lines encode unmarshal [] h = (tt, tt)
  encoded_lines encode unmarshal (f ∷ findings) h =
      let rest = encoded_lines encode unmarshal findings h.1 in
      ((h.0.line, rest.0), ((h.0.parsed, h.0.typed), rest.1))

  -- A file of findings is counted finding by finding, with their labels.
  pub findings_total-encoded :
      (encode : Finding F → List ℕ) (unmarshal : List ℕ → Option Labels) (dir base : String)
      (findings : List (Finding F)) (col : Exported fl)
      → (base == ".cursor.json") ≡ false
      → All (IsEncoded encode unmarshal) findings
      → let file : StoredFile = record { dir = dir; base = base; bodies = map encode findings } in
        (collect_findings_metrics fl unmarshal (some (entry_of file ∷ [])) col).findings_total
        ≡ map labels_of findings
  unfolding collect_findings_metrics walk_findings labels_of_file
  findings_total-encoded encode unmarshal dir base findings col h enc =
      let (lines, parsed) = encoded_lines encode unmarshal findings enc in
      let bytes = joined (map encode findings) in
      let here = labels_in unmarshal (scan_bytes bytes).0 in
      ap (λ (b : Bool). if b then [] else here ++ []) h
      ∙ append_nil here
      ∙ ap (λ (r : List (List ℕ) × Bool). labels_in unmarshal r.0)
          (scan_bytes-joined (map encode findings) lines)
      ∙ labels_in-encoded encode unmarshal findings parsed
