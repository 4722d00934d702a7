-- ===== src/Detectors/Drift.antt =====
-- internal/analyzer/detectors/drift.go: DriftDetector. A text is its code points and a token the
-- lower-case ones of a word. In Go's regexp, \w is an ASCII letter, digit or underscore. An index out of range
-- is a panic, `none`.
pub mod Sessions
pub mod Reported
use agent_transponder.Prelude.{
  ℕ, suc, ◌+◌, ◌-◌, ◌≡◌, String, ◌==◌, Bool, true, false, not, ◌&&◌, ◌||◌, Option, none, some, List,
  [], ◌∷◌, ◌++◌, map, length, select, any, leb, ltb, eqb, get_or, drop, if◌then◌else◌,
}
use agent_transponder.Prelude.Int.{ℤ, pos}
use agent_transponder.Prelude.Maps.{Map, lookup, insert}
use agent_transponder.Prelude.Text.{codes}
use agent_transponder.Prelude.Float.{Float}
use agent_transponder.Prelude.Loops.{◌>>=◌}
use agent_transponder.Types.Event.{
  Event, PromptData, Severity, event_prompt, severity_warning, severity_error,
}
use agent_transponder.Detectors.Finding.{
  Finding, Formatted, Arg, text, number, float, detection_goal_drift, min_float, round2,
}

abbrev pub Token : Type 0
Token = List ℕ

unfoldable pub same_token : Token → Token → Bool
same_token [] [] = true
same_token [] (d ∷ ds) = false
same_token (c ∷ cs) [] = false
same_token (c ∷ cs) (d ∷ ds) = eqb c d && same_token cs ds

unfoldable pub has_token : Token → List Token → Bool
has_token t set = any (λ u. same_token t u) set

between : ℕ → ℕ → ℕ → Bool
between low high c = leb low c && leb c high

unfoldable pub word_char : ℕ → Bool
unfolding between
word_char c = between 48 57 c || between 65 90 c || between 97 122 c || eqb c 95

-- strings.ToLower on such a character
unfoldable pub lower : ℕ → ℕ
unfolding between
lower c = if between 65 90 c then c + 32 else c

-- tokenRe.FindAllString: the longest runs of word characters, in order. `word` is the run so far.
unfoldable pub find_all : Token → List ℕ → List Token
find_all [] [] = []
find_all (w ∷ word) [] = (w ∷ word) ∷ []
find_all [] (c ∷ cs) =
    let inside = find_all (c ∷ []) cs in
    let outside = find_all [] cs in if word_char c then inside else outside
find_all (w ∷ word) (c ∷ cs) =
    let inside = find_all (w ∷ word ++ c ∷ []) cs in
    let outside = find_all [] cs in if word_char c then inside else (w ∷ word) ∷ outside

unfoldable pub token_set : List Token → List Token → List Token
token_set set [] = set
token_set set (t ∷ tokens) =
    let key = map lower t in token_set (if has_token key set then set else set ++ key ∷ []) tokens

unfoldable pub tokenise : String → List Token
tokenise content = token_set [] (find_all [] (codes content))

unfoldable pub intersect_size : List Token → List Token → ℕ
intersect_size a b = length (select (λ k. has_token k a) b)

unfoldable pub union_size : List Token → List Token → ℕ
union_size a b = length a + length (select (λ k. not (has_token k a)) b)

pub record DriftSession : Type 0 where
  pub prompts : List String
  pub prompt_ids : List String
  pub emitted_finding : Bool

abbrev pub new_drift_session : DriftSession
new_drift_session = record { prompts = []; prompt_ids = []; emitted_finding = false }

abbrev pub name : String
name = "DriftDetector"

unfoldable pub append_prompt : Event → PromptData → DriftSession → DriftSession
append_prompt event prompt sess = record sess {
  prompts = sess.prompts ++ prompt.content ∷ [];
  prompt_ids = sess.prompt_ids ++ event.id ∷ [];
}

module _ (fl : Float) where
  open fl use {F, of_int, lit, add, sub, div, lt, le}

  unfoldable pub jaccard : List Token → List Token → F
  jaccard a b =
      if eqb (length a) 0 && eqb (length b) 0
      then lit 1 0
      else if eqb (union_size a b) 0
      then lit 0 0
      else div (of_int (pos (intersect_size a b))) (of_int (pos (union_size a b)))

  pub record DriftDetector : Type 0 where
    pub similarity_threshold : F
    pub min_prompts : ℕ
    pub sessions : Map DriftSession

  unfoldable pub new_drift_detector : F → DriftDetector
  new_drift_detector similarity_threshold = record {
    similarity_threshold =
        if le similarity_threshold (lit 0 0) then lit 3 1 else similarity_threshold;
    min_prompts = 3;
    sessions = [];
  }

  unfoldable pub reset : DriftDetector → DriftDetector
  reset d = record d { sessions = [] }

  -- The later prompts, and their ids, that are less similar than the threshold.
  unfoldable pub drifted : F → List Token → List String → List String → Option (List (String × F))
  drifted threshold reference [] ids = some []
  drifted threshold reference (content ∷ contents) [] =
      if lt (jaccard reference (tokenise content)) threshold
      then none
      else drifted threshold reference contents []
  drifted threshold reference (content ∷ contents) (id ∷ ids) =
      let sim = jaccard reference (tokenise content) in
      drifted threshold reference contents ids >>= λ rest.
      some (if lt sim threshold then (id, sim) ∷ rest else rest)

  -- The sum and the least of the similarities.
  unfoldable pub sum_sim : F → List (String × F) → F
  sum_sim sum [] = sum
  sum_sim sum ((id, sim) ∷ entries) = sum_sim (add sum sim) entries

  unfoldable pub min_sim : F → List (String × F) → F
  min_sim least [] = least
  min_sim least ((id, sim) ∷ entries) = min_sim (if lt sim least then sim else least) entries

  unfoldable pub drift_finding :
      DriftDetector → Event → ℕ → (String × F) → List (String × F) → Finding F
  drift_finding d event total first entries =
      let found = first ∷ entries in
      let least = min_sim first.1 found in
      let average = div (sum_sim (lit 0 1) found) (of_int (pos (length found))) in
      let fraction = div (of_int (pos (length found))) (of_int (pos total)) in
      record {
        id = record { format = "drift-%s"; args = text event.session_id ∷ [] };
        session_id = event.session_id;
        agent_id = event.agent_id;
        tenant_id = event.tenant_id;
        timestamp = event.timestamp;
        detector = name;
        type = detection_goal_drift;
        severity = if le (lit 8 1) fraction then severity_error else severity_warning;
        confidence = round2 fl (min_float fl (add (sub (lit 1 0) average) (lit 1 1)) (lit 1 0));
        message = record {
          format =
              "%d/%d subsequent prompts have Jaccard similarity < %.1f vs. initial prompt (avg=%.2f, min=%.2f)";
          args =
              number (pos (length found))
              ∷ number (pos total)
              ∷ float d.similarity_threshold
              ∷ float average
              ∷ float least
              ∷ [];
        };
        event_ids = map (λ e. e.0) found;
        evidence = record {
          format =
              "drift_threshold=%.1f, avg_similarity=%.3f, min_similarity=%.3f, drifted_prompts=%d, total_subsequent_prompts=%d";
          args =
              float d.similarity_threshold
              ∷ float average
              ∷ float least
              ∷ number (pos (length found))
              ∷ number (pos total)
              ∷ [];
        };
      }

  -- What follows from the drifted prompts.
  unfoldable pub conclude :
      DriftDetector → Event → DriftSession → ℕ → List (String × F) → DriftSession × List (Finding F)
  conclude d event sess total [] = (sess, [])
  conclude d event sess total (first ∷ entries) =
      (record sess { emitted_finding = true }, drift_finding d event total first entries ∷ [])

  unfoldable pub evaluate :
      DriftDetector
      → Event
      → DriftSession
      → List String
      → List String
      → Option (DriftSession × List (Finding F))
  evaluate d event sess (first ∷ contents) ids =
      drifted d.similarity_threshold (tokenise first) contents (drop 1 ids) >>= λ entries.
      some (conclude d event sess (length contents) entries)
  evaluate d event sess [] ids = none

  unfoldable pub detect_drift :
      DriftDetector → Event → DriftSession → Option (DriftSession × List (Finding F))
  detect_drift d event sess =
      if ltb (length sess.prompts) d.min_prompts || sess.emitted_finding
      then some (sess, [])
      else evaluate d event sess sess.prompts sess.prompt_ids

  unfoldable pub session_of : DriftDetector → String → DriftSession
  session_of d id = get_or new_drift_session (lookup id d.sessions)

  unfoldable pub analyze_prompt :
      DriftDetector → Event → Option PromptData → Option (DriftDetector × List (Finding F))
  analyze_prompt d event none = some (d, [])
  analyze_prompt d event (some prompt) =
      if event.type == event_prompt
      then (detect_drift d event (append_prompt event prompt (session_of d event.session_id))
          >>= λ (sess, findings).
              some (record d { sessions = insert event.session_id sess d.sessions }, findings))
      else some (d, [])

  unfoldable pub analyze : DriftDetector → Event → Option (DriftDetector × List (Finding F))
  analyze d event = analyze_prompt d event event.prompt
