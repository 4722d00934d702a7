-- ===== src/Detectors/Drift/Sessions.antt =====
-- What DriftDetector of internal/analyzer/detectors/drift.go reports on a session's prompts.
use agent_transponder.Prelude.{
  ℕ, ◌≤◌, ◌≡◌, refl, sym, subst, ap₂, ◌∙◌, String, Bool, true, false, not, ◌||◌, if_ind, Option,
  some, List, [], ◌∷◌, map, drop, length, length-drop, select, All, ap, leb, ltb, ◌&&◌,
  if◌then◌else◌, arith,
}
use agent_transponder.Prelude.Float.{Float}
use agent_transponder.Prelude.Loops.{bind_some}
use agent_transponder.Types.Event.{Event}
use agent_transponder.Detectors.Finding.{Finding}
use agent_transponder.Detectors.Drift.{
  Token, tokenise, DriftSession, jaccard, DriftDetector, drifted, drift_finding, conclude, evaluate,
  detect_drift,
}

abbrev pub zip : List String → List String → List (String × String)
zip [] ys = []
zip (x ∷ xs) [] = []
zip (x ∷ xs) (y ∷ ys) = (x, y) ∷ zip xs ys

abbrev pub is_nil {ℓ} : {A : Type ℓ} → List A → Bool
is_nil [] = true
is_nil (x ∷ xs) = false

module _ (fl : Float) where
  open fl use {F, lt}

  -- The ids of the contents that are less similar to the reference than the threshold.
  abbrev pub far_ids : F → List Token → List String → List String → List String
  far_ids threshold reference contents ids =
      map (λ p. p.1)
        (select (λ p. lt (jaccard fl reference (tokenise p.0)) threshold) (zip contents ids))

  abbrev pub drifted_ids : F → List String → List String → List String
  drifted_ids threshold [] ids = []
  drifted_ids threshold (first ∷ contents) ids =
      far_ids threshold (tokenise first) contents (drop 1 ids)

  record IsListed (threshold : F) (reference : List Token) (contents ids : List String)
      (r : Option (List (String × F))) : Type 0 where
    pub entries : List (String × F)
    pub returns : r ≡ some entries
    pub listed : map (λ e. e.0) entries ≡ far_ids threshold reference contents ids

  drifted-IsListed :
      (threshold : F) (reference : List Token) (contents ids : List String)
      → length contents ≤ length ids
      → IsListed threshold reference contents ids (drifted fl threshold reference contents ids)
  unfolding drifted
  drifted-IsListed threshold reference [] ids h = record {
    entries = [];
    returns = refl;
    listed = refl;
  }
  drifted-IsListed threshold reference (content ∷ contents) [] h = absurd (omega (arith, h))
  drifted-IsListed threshold reference (content ∷ contents) (id ∷ ids) h =
      let rest = drifted-IsListed threshold reference contents ids (omega (arith, h)) in
      let sim = jaccard fl reference (tokenise content) in
      record {
        entries = if lt sim threshold then (id, sim) ∷ rest.entries else rest.entries;
        returns =
            bind_some (drifted fl threshold reference contents ids) rest.entries _ rest.returns;
        listed = ground (arith, rest.listed);
      }

  -- What is reported on a session, and the session that is left.
  pub record IsDetected (d : DriftDetector fl) (sess : DriftSession)
      (r : Option (DriftSession × List (Finding F))) : Type 0 where
    pub emitted : Bool
    pub findings : List (Finding F)
    pub returns : r ≡ some (record sess { emitted_finding = emitted }, findings)
    pub marked : emitted ≡ (sess.emitted_finding || not (is_nil findings))
    pub once : sess.emitted_finding ≡ true → findings ≡ []
    pub listed :
        All
          (λ (f : Finding F).
            f.event_ids ≡ drifted_ids d.similarity_threshold sess.prompts sess.prompt_ids)
          findings
    pub at_most_one : length findings ≤ 1
    pub when : not (is_nil findings) ≡ (
        leb d.min_prompts (length sess.prompts)
        && not sess.emitted_finding
        && not (is_nil (drifted_ids d.similarity_threshold sess.prompts sess.prompt_ids)))

  is_nil-map : (entries : List (String × F)) → is_nil (map (λ e. e.0) entries) ≡ is_nil entries
  is_nil-map [] = refl
  is_nil-map (e ∷ entries) = refl

  conclude-IsDetected :
      (d : DriftDetector fl) (event : Event) (sess : DriftSession) (total : ℕ)
      (entries : List (String × F))
      → sess.emitted_finding ≡ false
      → leb d.min_prompts (length sess.prompts) ≡ true
      → map (λ e. e.0) entries ≡ drifted_ids d.similarity_threshold sess.prompts sess.prompt_ids
      → IsDetected d sess (some (conclude fl d event sess total entries))
  unfolding conclude drift_finding
  conclude-IsDetected d event sess total [] fresh enough h = record {
    emitted = sess.emitted_finding;
    findings = [];
    returns = refl;
    marked = ground arith;
    once = λ e. refl;
    listed = tt;
    at_most_one = omega arith;
    when = let none_far = ap is_nil (sym h) in ground (arith, none_far);
  }
  conclude-IsDetected d event sess total (first ∷ entries) fresh enough h = record {
    emitted = true;
    findings = drift_finding fl d event total first entries ∷ [];
    returns = refl;
    marked = ground arith;
    once = λ e. absurd (ground (arith, e, fresh));
    listed = (h, tt);
    at_most_one = omega arith;
    when = let some_far = ap is_nil (sym h) in ground (arith, some_far, fresh, enough);
  }

  evaluate-IsDetected :
      (d : DriftDetector fl) (event : Event) (sess : DriftSession) (prompts ids : List String)
      → sess.emitted_finding ≡ false
      → leb d.min_prompts (length sess.prompts) ≡ true
      → sess.prompts ≡ prompts
      → sess.prompt_ids ≡ ids
      → length ids ≡ length prompts
      → 1 ≤ length prompts
      → IsDetected d sess (evaluate fl d event sess prompts ids)
  unfolding evaluate
  evaluate-IsDetected d event sess [] ids fresh enough e e' h some_prompt =
      absurd (omega (arith, some_prompt))
  evaluate-IsDetected d event sess (first ∷ contents) ids fresh enough e e' h some_prompt =
      let found =
        drifted-IsListed d.similarity_threshold (tokenise first) contents (drop 1 ids)
          (omega (arith, h, length-drop 1 ids)) in
      let same : drifted_ids d.similarity_threshold sess.prompts sess.prompt_ids
          ≡ drifted_ids d.similarity_threshold (first ∷ contents) ids =
        ap₂ (drifted_ids d.similarity_threshold) e e' in
      subst (IsDetected d sess) (sym (bind_some _ found.entries _ found.returns)) (
        conclude-IsDetected d event sess (length contents) found.entries fresh enough
          (found.listed ∙ sym same))

  pub detect_drift-IsDetected :
      (d : DriftDetector fl) (event : Event) (sess : DriftSession)
      → length sess.prompt_ids ≡ length sess.prompts
      → 1 ≤ length sess.prompts
      → IsDetected d sess (detect_drift fl d event sess)
  unfolding detect_drift
  detect_drift-IsDetected d event sess h some_prompt =
      if_ind (IsDetected d sess) (ltb (length sess.prompts) d.min_prompts || sess.emitted_finding)
        (λ t. record {
          emitted = sess.emitted_finding;
          findings = [];
          returns = refl;
          marked = ground arith;
          once = λ e. refl;
          listed = tt;
          at_most_one = omega arith;
          when = ground (arith, t);
        })
        (λ t.
          evaluate-IsDetected d event sess sess.prompts sess.prompt_ids (ground (arith, t))
            (ground (arith, t)) refl refl h some_prompt)
