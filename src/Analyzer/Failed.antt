-- ===== src/Analyzer/Failed.antt =====
-- internal/analyzer/analyzer.go: poll after the findings of a file could not be written.
use agent_transponder.Prelude.{
  ℕ, ◌≡◌, sym, ap, ◌∙◌, String, Bool, true, Option, none, some, List, [], ◌∷◌, ◌++◌, map, take,
  if◌then◌else◌,
}
use agent_transponder.Prelude.Float.{Float}
use agent_transponder.Types.Event.{Event}
use agent_transponder.Detectors.Finding.{Finding}
use agent_transponder.Analyzer.Reader.{read_new_events}
use agent_transponder.Analyzer.Cursor.{get}
use agent_transponder.Analyzer.Service.{
  Detector, run_detectors, Analyzer, Outside, findings_file, encode_lines, write_findings, advance,
  settle, process, poll_file,
}
use agent_transponder.Analyzer.Settled.{reported, map-append, lines_back, process-run}

module _ (fl : Float) where
  open fl use {F}

  -- The analyzer that a failed writing leaves.
  abbrev left : Outside fl → ℕ → List (Detector fl) → List (Finding F) → Analyzer fl → Analyzer fl
  left out k detectors found a = record a {
    detectors = detectors;
    findings = a.findings ++ map (λ f. (findings_file fl out.today, f)) (take k found);
  }

  settle_failed :
      (path : String) (offset k : ℕ) (out : Outside fl) (events : List Event) (f : Finding F)
      (found : List (Finding F)) (a : Analyzer fl)
      → out.written ≡ some k
      → settle fl path offset out events (f ∷ found) a ≡ left out k a.detectors (f ∷ found) a
  unfolding settle write_findings encode_lines
  settle_failed path offset k out events f found a w =
      ap
        (λ (written : Option ℕ).
          let r = encode_lines fl (findings_file fl out.today) written (f ∷ found) in
          let a' : Analyzer fl = record a { findings = a.findings ++ r.0 } in
          if r.1 then advance fl path offset out events a' else a')
        w

  settle-left :
      (path : String) (offset k : ℕ) (out : Outside fl) (events : List Event)
      (found : List (Finding F)) (f : Finding F) (fs : List (Finding F)) (a : Analyzer fl)
      → out.written ≡ some k
      → found ≡ f ∷ fs
      → settle fl path offset out events found a ≡ left out k a.detectors found a
  settle-left path offset k out events found f fs a w e =
      ap (λ (l : List (Finding F)). settle fl path offset out events l a) e
      ∙ settle_failed path offset k out events f fs a w
      ∙ ap (λ (l : List (Finding F)). left out k a.detectors l a) (sym e)

  process_failed :
      (path : String) (offset k : ℕ) (out : Outside fl) (events : List Event) (f : Finding F)
      (fs : List (Finding F)) (a : Analyzer fl)
      → out.written ≡ some k
      → (run_detectors fl events a.detectors).1 ≡ f ∷ fs
      → process fl path offset out events a
        ≡ left out k
            (run_detectors fl events a.detectors).0
            (run_detectors fl events a.detectors).1
            a
  unfolding process run_detectors
  process_failed path offset k out [] f fs a w e = absurd (cc)
  process_failed path offset k out (event ∷ events) f fs a w e =
      let found = run_detectors fl (event ∷ events) a.detectors in
      settle-left path offset k out (event ∷ events) found.1 f fs (record a { detectors = found.0 })
        w e

  opened :
      (unmarshal : List ℕ → Option Event) (path : String) (out : Outside fl) (a : Analyzer fl)
      → out.opens ≡ true
      → poll_file fl unmarshal path out a ≡ (
          let r = read_new_events unmarshal out.contents (get path a.cursor).offset in
          process fl path r.1 out r.0 a)
  unfolding poll_file
  opened unmarshal path out a opens =
      let r = read_new_events unmarshal out.contents (get path a.cursor).offset in
      ap (λ (c : Bool). if c then process fl path r.1 out r.0 a else a) opens

  -- Findings of which only the first k could be written: the next poll of the file sends the same
  -- events through the detectors, which have seen them, and writes what they report now.
  pub poll_file-twice :
      (unmarshal : List ℕ → Option Event) (path : String) (first second : Outside fl) (k : ℕ)
      (f : Finding F) (fs : List (Finding F)) (a : Analyzer fl)
      → first.opens ≡ true
      → second.opens ≡ true
      → second.contents ≡ first.contents
      → first.written ≡ some k
      → second.written ≡ none
      → (run_detectors fl
          (read_new_events unmarshal first.contents (get path a.cursor).offset).0
          a.detectors).1
        ≡ f ∷ fs
      → let events = (read_new_events unmarshal first.contents (get path a.cursor).offset).0 in
        let (once, found) = run_detectors fl events a.detectors in
        let (twice, again) = run_detectors fl events once in
        let a' = poll_file fl unmarshal path second (poll_file fl unmarshal path first a) in
        (a'.detectors ≡ twice) × (reported fl a' ≡ reported fl a ++ take k found ++ again)
  poll_file-twice unmarshal path first second k f fs a o o' same w w' e =
      let r = read_new_events unmarshal first.contents (get path a.cursor).offset in
      let (once, found) = run_detectors fl r.0 a.detectors in
      let middle : Analyzer fl = left first k once found a in
      let one : poll_file fl unmarshal path first a ≡ middle =
        opened unmarshal path first a o ∙ process_failed path r.1 k first r.0 f fs a w e in
      let two : poll_file fl unmarshal path second middle ≡ process fl path r.1 second r.0 middle =
        opened unmarshal path second middle o'
        ∙ ap
            (λ (c : List ℕ).
              let q = read_new_events unmarshal c (get path a.cursor).offset in
              process fl path q.1 second q.0 middle)
            same in
      let all = ap (poll_file fl unmarshal path second) one ∙ two in
      let (ds, out) = process-run fl path r.1 second r.0 middle w' in
      let middle_reported : reported fl middle ≡ reported fl a ++ take k found =
        map-append fl (λ (l : String × Finding F). l.1) a.findings
          (map (λ g. (findings_file fl first.today, g)) (take k found))
        ∙ ap (λ (l : List (Finding F)). reported fl a ++ l)
            (lines_back fl (findings_file fl first.today) (take k found)) in
      let again = (run_detectors fl r.0 once).1 in
      (
        ap (λ (b : Analyzer fl). b.detectors) all
            ∙ sym (ap (λ (q : List (Detector fl) × List (Finding F)). q.0) ds),
        ap (reported fl) all ∙ out ∙ ap (λ (l : List (Finding F)). l ++ again) middle_reported,
      )
