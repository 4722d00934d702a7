-- ===== src/Analyzer/Refined.antt =====
-- internal/analyzer/analyzer.go: poll on a file that grows, against one run over the whole file.
use agent_transponder.Prelude.{
  ℕ, ◌+◌, ◌≡◌, refl, sym, subst, ap, ap₂, ◌∙◌, String, Bool, true, Option, none, List, [], ◌∷◌,
  ◌++◌, length, append_assoc, append_nil, length-append, drop-length_append, if◌then◌else◌,
}
use agent_transponder.Prelude.Float.{Float}
use agent_transponder.Types.Event.{Event}
use agent_transponder.Detectors.Finding.{Finding}
use agent_transponder.Analyzer.Reader.{read_lines, read_loop, read_new_events}
use agent_transponder.Analyzer.Resumed.{
  IsComplete, read_new_events_resumed, read_new_events_torn, read_new_events-reached,
}
use agent_transponder.Analyzer.Cursor.{get}
use agent_transponder.Analyzer.Service.{
  Detector, dispatch, run_detectors, Analyzer, Outside, process, poll_file,
}
use agent_transponder.Analyzer.Settled.{reported, process-run, process-at}

module _ (fl : Float) where
  open fl use {F}

  -- Two runs one after the other are one run.
  pub run_detectors-append :
      (xs ys : List Event) (detectors : List (Detector fl))
      → run_detectors fl (xs ++ ys) detectors ≡ (
          let (middle, found) = run_detectors fl xs detectors in
          let (later, rest) = run_detectors fl ys middle in (later, found ++ rest))
  unfolding run_detectors
  run_detectors-append [] ys detectors = refl
  run_detectors-append (x ∷ xs) ys detectors =
      let (detectors', found) = dispatch fl x detectors in
      let (middle, more) = run_detectors fl xs detectors' in
      let (later, rest) = run_detectors fl ys middle in
      ap (λ (r : List (Detector fl) × List (Finding F)). (r.0, found ++ r.1))
        (run_detectors-append xs ys detectors')
      ∙ ap (λ (l : List (Finding F)). (later, l)) (sym (append_assoc found more rest))

  abbrev pub events_of : (List ℕ → Option Event) → List ℕ → List Event
  events_of unmarshal bytes = (read_new_events unmarshal bytes 0).0

  none_in_nothing : (unmarshal : List ℕ → Option Event) → events_of unmarshal [] ≡ []
  unfolding read_new_events read_lines read_loop
  none_in_nothing unmarshal = refl

  pub IsComplete-append :
      (old more : List ℕ) → IsComplete old → IsComplete more → IsComplete (old ++ more)
  IsComplete-append [] more h k = k
  IsComplete-append (c ∷ []) [] h k = h
  IsComplete-append (c ∷ []) (d ∷ more) h k = k
  IsComplete-append (c ∷ d ∷ old) more h k = IsComplete-append (d ∷ old) more h k

  pub events_of-append :
      (unmarshal : List ℕ → Option Event) (old more : List ℕ)
      → IsComplete old
      → events_of unmarshal (old ++ more) ≡ events_of unmarshal old ++ events_of unmarshal more
  events_of-append unmarshal old more h =
      (read_new_events_resumed unmarshal old more h).1
      ∙ ap (λ l. events_of unmarshal old ++ l) (read_new_events_torn unmarshal old more).1

  pub events_from :
      (unmarshal : List ℕ → Option Event) (old more : List ℕ)
      → (read_new_events unmarshal (old ++ more) (length old)).0 ≡ events_of unmarshal more
  events_from unmarshal old more =
      let (reached, same) = read_new_events_torn unmarshal old more in
      ap (λ n. (read_new_events unmarshal (old ++ more) n).0) (sym reached) ∙ same

  -- The file was read up to `done`; what came after it until the last poll, `idle`, has no event.
  -- The detectors and the findings are those of one run over the whole file.
  pub record IsCaughtUp (unmarshal : List ℕ → Option Event) (start : List (Detector fl))
      (path : String) (contents : List ℕ) (a : Analyzer fl) : Type 1 where
    pub done : List ℕ
    pub idle : List ℕ
    pub split : contents ≡ done ++ idle
    pub done_complete : IsComplete done
    pub idle_complete : IsComplete idle
    pub quiet : events_of unmarshal idle ≡ []
    pub at : (get path a.cursor).offset ≡ length done
    pub ran : run_detectors fl (events_of unmarshal contents) start ≡ (a.detectors, reported fl a)

  offset_end :
      (unmarshal : List ℕ → Option Event) (old more : List ℕ)
      → (read_new_events unmarshal (old ++ more) (length old)).1 ≡ length (old ++ more)
  offset_end unmarshal old more =
      read_new_events-reached unmarshal (old ++ more) (length old)
      ∙ ap (λ (l : List ℕ). length old + length l) (drop-length_append old more)
      ∙ sym (length-append old more)

  module _ (unmarshal : List ℕ → Option Event) (start : List (Detector fl)) (path : String)
      (contents more : List ℕ) (complete : IsComplete more) (out : Outside fl) (a : Analyzer fl)
      (w : out.written ≡ none) (h : IsCaughtUp unmarshal start path contents a) where
    abbrev after : List Event → Analyzer fl
    after events = process fl path (length (contents ++ more)) out events a

    ran_after : run_detectors fl (events_of unmarshal (contents ++ more)) start ≡ (
      (after (events_of unmarshal more)).detectors,
      reported fl (after (events_of unmarshal more)),
    )
    ran_after =
        let new = events_of unmarshal more in
        let all =
          subst IsComplete (sym h.split)
            (IsComplete-append h.done h.idle h.done_complete h.idle_complete) in
        let (ds, fs) = process-run fl path (length (contents ++ more)) out new a w in
        ap (λ (l : List Event). run_detectors fl l start)
          (events_of-append unmarshal contents more all)
        ∙ run_detectors-append (events_of unmarshal contents) new start
        ∙ ap
            (λ (r : List (Detector fl) × List (Finding F)).
              ((run_detectors fl new r.0).0, r.1 ++ (run_detectors fl new r.0).1))
            h.ran
        ∙ ap₂ (λ (l : List (Detector fl)) (m : List (Finding F)). (l, m))
            (ap (λ (r : List (Detector fl) × List (Finding F)). r.0) ds) (sym fs)

    caught :
        (events : List Event)
        → events_of unmarshal more ≡ events
        → run_detectors fl (events_of unmarshal (contents ++ more)) start
          ≡ ((after events).detectors, reported fl (after events))
        → IsCaughtUp unmarshal start path (contents ++ more) (after events)
    unfolding process
    caught [] e ran = record {
      done = h.done;
      idle = h.idle ++ more;
      split = ap (λ l. l ++ more) h.split ∙ append_assoc h.done h.idle more;
      done_complete = h.done_complete;
      idle_complete = IsComplete-append h.idle more h.idle_complete complete;
      quiet =
          events_of-append unmarshal h.idle more h.idle_complete
          ∙ ap₂ (λ (l m : List Event). l ++ m) h.quiet e;
      at = h.at;
      ran = ran;
    }
    caught (event ∷ events) e ran = record {
      done = contents ++ more;
      idle = [];
      split = sym (append_nil (contents ++ more));
      done_complete =
          IsComplete-append contents more
            (subst IsComplete (sym h.split)
              (IsComplete-append h.done h.idle h.done_complete h.idle_complete))
            complete;
      idle_complete = tt;
      quiet = none_in_nothing unmarshal;
      at = process-at fl path (length (contents ++ more)) out event events a w;
      ran = ran;
    }

    -- What the poll makes of the file.
    polled :
        out.opens ≡ true
        → out.contents ≡ contents ++ more
        → poll_file fl unmarshal path out a ≡ after (events_of unmarshal more)
    unfolding poll_file
    polled opens holds =
        let whole : out.contents ≡ h.done ++ (h.idle ++ more) =
          holds ∙ ap (λ l. l ++ more) h.split ∙ append_assoc h.done h.idle more in
        let Read = λ (r : List Event × ℕ). process fl path r.1 out r.0 a in
        ap
          (λ (c : Bool).
            if c
            then Read (read_new_events unmarshal out.contents (get path a.cursor).offset)
            else a)
          opens
        ∙ ap₂ (λ (file : List ℕ) (n : ℕ). Read (read_new_events unmarshal file n)) whole h.at
        ∙ ap₂ (λ (l : List Event) (n : ℕ). process fl path n out l a)
            (events_from unmarshal h.done (h.idle ++ more)
              ∙ events_of-append unmarshal h.idle more h.idle_complete
              ∙ ap (λ (l : List Event). l ++ events_of unmarshal more) h.quiet)
            (offset_end unmarshal h.done (h.idle ++ more)
              ∙ ap (λ (l : List ℕ). length l) (sym whole ∙ holds))

  -- A poll of a file that has grown by complete lines, without failures, leaves the detectors and the
  -- findings of one run over the whole file.
  pub poll_file-IsCaughtUp :
      (unmarshal : List ℕ → Option Event) (start : List (Detector fl)) (path : String)
      (contents more : List ℕ) (out : Outside fl) (a : Analyzer fl)
      → IsCaughtUp unmarshal start path contents a
      → IsComplete more
      → out.contents ≡ contents ++ more
      → out.opens ≡ true
      → out.written ≡ none
      → IsCaughtUp unmarshal start path (contents ++ more) (poll_file fl unmarshal path out a)
  poll_file-IsCaughtUp unmarshal start path contents more out a h complete holds opens w =
      subst (IsCaughtUp unmarshal start path (contents ++ more))
        (sym (polled unmarshal start path contents more complete out a w h opens holds))
        (caught unmarshal start path contents more complete out a w h (events_of unmarshal more)
          refl (ran_after unmarshal start path contents more complete out a w h))
