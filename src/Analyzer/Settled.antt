-- ===== src/Analyzer/Settled.antt =====
-- internal/analyzer/analyzer.go: what poll leaves of a file whose findings could be written.
use agent_transponder.Prelude.{
  ℕ, ◌≡◌, refl, sym, subst, ap, ◌∙◌, String, eq_refl, Option, none, List, [], ◌∷◌, ◌++◌, map,
  append_nil, if◌then◌else◌, arith,
}
use agent_transponder.Prelude.Maps.{get_or-insert}
use agent_transponder.Prelude.Float.{Float}
use agent_transponder.Types.Event.{Event}
use agent_transponder.Detectors.Finding.{Finding}
use agent_transponder.Analyzer.Cursor.{Cursor, FileCursor, get, set}
use agent_transponder.Analyzer.Service.{
  Detector, run_detectors, Analyzer, Outside, findings_file, encode_lines, write_findings, advance,
  settle, process,
}

module _ (fl : Float) where
  open fl use {F}

  -- The findings in the files, in the order of their writing.
  abbrev pub reported : Analyzer fl → List (Finding F)
  reported a = map (λ (l : String × Finding F). l.1) a.findings

  pub map-append {ℓ κ} :
      {A : Type ℓ} {B : Type κ} (f : A → B) (xs ys : List A)
      → map f (xs ++ ys) ≡ map f xs ++ map f ys
  map-append f [] ys = refl
  map-append f (x ∷ xs) ys = ap (λ l. f x ∷ l) (map-append f xs ys)

  pub lines_back :
      (file : String) (fs : List (Finding F))
      → map (λ (l : String × Finding F). l.1) (map (λ f. (file, f)) fs) ≡ fs
  lines_back file [] = refl
  lines_back file (f ∷ fs) = ap (λ l. f ∷ l) (lines_back file fs)

  -- What is left when the findings are written.
  record IsSettled (path : String) (offset : ℕ) (found : List (Finding F)) (a a' : Analyzer fl)
      : Type 1 where
    pub detectors : a'.detectors ≡ a.detectors
    pub findings : reported a' ≡ reported a ++ found
    pub at : (get path a'.cursor).offset ≡ offset

  pub get-set : (path : String) (fc : FileCursor) (c : Cursor) → get path (set path fc c) ≡ fc
  unfolding get set
  get-set path fc c = get_or-insert _ path path fc c ∙ ground (arith, eq_refl path)

  settle-IsSettled :
      (path : String) (offset : ℕ) (out : Outside fl) (events : List Event)
      (found : List (Finding F)) (a : Analyzer fl)
      → out.written ≡ none
      → IsSettled path offset found a (settle fl path offset out events found a)
  unfolding settle advance write_findings encode_lines
  settle-IsSettled path offset out events [] a w = record {
    detectors = refl;
    findings = sym (append_nil (reported a));
    at =
        ap (λ (fc : FileCursor). fc.offset)
          (get-set path (record { offset = offset; last_read = out.now }) a.cursor);
  }
  settle-IsSettled path offset out events (f ∷ found) a w =
      let file = findings_file fl out.today in
      let fc : FileCursor = record { offset = offset; last_read = out.now } in
      subst
        (λ (written : Option ℕ).
          let r = encode_lines fl file written (f ∷ found) in
          let a' : Analyzer fl = record a { findings = a.findings ++ r.0 } in
          IsSettled path offset (f ∷ found) a
            (if r.1 then advance fl path offset out events a' else a'))
        (sym w)
        (record {
          detectors = refl;
          findings =
              map-append (λ (l : String × Finding F). l.1) a.findings
                (map (λ g. (file, g)) (f ∷ found))
              ∙ ap (λ l. reported a ++ l) (lines_back file (f ∷ found));
          at = ap (λ (c : FileCursor). c.offset) (get-set path fc a.cursor);
        })

  -- A file with events after `done`, all of which are complete lines.
  pub process-run :
      (path : String) (offset : ℕ) (out : Outside fl) (events : List Event) (a : Analyzer fl)
      → out.written ≡ none
      → (run_detectors fl events a.detectors ≡ (
        (process fl path offset out events a).detectors,
        (run_detectors fl events a.detectors).1,
      ))
        × (reported (process fl path offset out events a)
            ≡ reported a ++ (run_detectors fl events a.detectors).1)
  unfolding process run_detectors
  process-run path offset out [] a w = (refl, sym (append_nil (reported a)))
  process-run path offset out (event ∷ events) a w =
      let found = run_detectors fl (event ∷ events) a.detectors in
      let settled =
        settle-IsSettled path offset out (event ∷ events) found.1 (record a { detectors = found.0 })
          w in
      (ap (λ (ds : List (Detector fl)). (ds, found.1)) (sym settled.detectors), settled.findings)

  -- The cursor after a file is read: at its end if there were events, and else where it was.
  pub process-at :
      (path : String) (offset : ℕ) (out : Outside fl) (event : Event) (events : List Event)
      (a : Analyzer fl)
      → out.written ≡ none
      → (get path (process fl path offset out (event ∷ events) a).cursor).offset ≡ offset
  unfolding process
  process-at path offset out event events a w =
      let found = run_detectors fl (event ∷ events) a.detectors in
      (settle-IsSettled path offset out (event ∷ events) found.1 (record a { detectors = found.0 })
        w).at
