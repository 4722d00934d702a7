-- ===== src/Examples/ExporterExamples.antt =====
-- The theorems on cmd/exporter at concrete inputs: a line is one byte, 123.
use agent_transponder.Prelude.{
  ◌≡◌, refl, ℕ, false, true, ◌++◌, Option, none, some, List, [], ◌∷◌, map, get_or, arith,
}
use agent_transponder.Prelude.Int.{pos}
use agent_transponder.Prelude.Maps.{lookup}
use agent_transponder.Prelude.Float.{milli}
use agent_transponder.Detectors.Finding.{Finding}
use agent_transponder.Exporter.{
  Labels, Exported, ends_with, collect_store_metrics, collect_findings_metrics, scan_bytes,
  scan_tokens, token, drop_last, fits_buffer,
}
use agent_transponder.Analyzer.Reader.{read_lines}
use agent_transponder.Exporter.Counts.{IsLine}
use agent_transponder.Exporter.Gauges.{
  StoredFile, Node, readable, unreadable, other, node_entry, entry_of, lines_of_tenant,
  events_stored-lines, labels_of, findings_total-encoded,
}
use agent_transponder.Examples.ForwarderExamples.{event}
use agent_transponder.Examples.AnalyzerExamples.{found}

abbrev stored_files : List Node
stored_files =
    readable (record { dir = "a"; base = "1.jsonl"; bodies = (123 ∷ []) ∷ (123 ∷ []) ∷ [] })
    ∷ other true "a" "" "old" none
    ∷ readable (record { dir = "."; base = "2.jsonl"; bodies = (123 ∷ []) ∷ [] })
    ∷ other false "a" ".txt" "notes.txt" (some (123 ∷ []))
    ∷ unreadable "a" "locked.jsonl"
    ∷ readable (record { dir = "a"; base = "3.jsonl"; bodies = (123 ∷ []) ∷ [] })
    ∷ []

abbrev nothing : Exported milli
nothing = record { storage_bytes = []; events_stored = []; buckets_active = 0; findings_total = [] }

brace-IsLine : IsLine (123 ∷ [])
unfolding ends_with
brace-IsLine = record {
  some_bytes = omega arith;
  one_line = (refl, tt);
  no_return = refl;
  short = omega arith;
}

events_stored-lines_example :
    get_or (milli.of_int (pos 0)) (
      lookup "a"
        (collect_store_metrics milli
          (some (map node_entry stored_files ++ []))
          nothing).events_stored)
    ≡ milli.of_int (pos (lines_of_tenant "a" stored_files))
events_stored-lines_example =
    events_stored-lines milli "a" stored_files [] nothing
      (
        (brace-IsLine, (brace-IsLine, tt)),
        (refl, ((brace-IsLine, tt), (refl, (tt, ((brace-IsLine, tt), tt))))),
      )
      tt

three_lines : lines_of_tenant "a" stored_files ≡ 3
three_lines = refl

abbrev encode : Finding ℕ → List ℕ
encode f = 123 ∷ []

abbrev unmarshal : List ℕ → Option Labels
unmarshal bytes = some (labels_of milli (found event))

findings_total-encoded_example :
    let file : StoredFile = record {
      dir = ".";
      base = "findings-2026-01-02.jsonl";
      bodies = map encode (found event ∷ found event ∷ []);
    } in
    (collect_findings_metrics milli unmarshal (some (entry_of file ∷ [])) nothing).findings_total
    ≡ map (labels_of milli) (found event ∷ found event ∷ [])
findings_total-encoded_example =
    findings_total-encoded milli encode unmarshal "." "findings-2026-01-02.jsonl"
      (found event ∷ found event ∷ []) nothing refl
      (
        record { line = brace-IsLine; parsed = refl; typed = refl },
        (record { line = brace-IsLine; parsed = refl; typed = refl }, tt),
      )

-- Carriage returns are cut, and a last line needs no newline.
scan_lines : scan_bytes (123 ∷ 13 ∷ 10 ∷ 10 ∷ 125 ∷ []) ≡ ((123 ∷ []) ∷ [] ∷ (125 ∷ []) ∷ [], false)
unfolding scan_bytes scan_tokens token drop_last fits_buffer ends_with read_lines
scan_lines = refl
