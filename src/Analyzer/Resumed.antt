-- ===== src/Analyzer/Resumed.antt =====
-- internal/analyzer/analyzer.go: readNewEvents on a file that has grown since the last reading.
use agent_transponder.Prelude.{
  ℕ, ◌+◌, ◌≡◌, refl, sym, ap, ◌∙◌, Option, List, [], ◌∷◌, ◌++◌, length, drop, eqb, arith,
  length-append, append_assoc, append_nil, drop-length_append, if◌then◌else◌,
}
use agent_transponder.Types.Event.{Event}
use agent_transponder.Analyzer.Reader.{
  newline, read_lines, trim_end, event_in, read_loop, read_new_events,
}

-- Every line is complete: the bytes end with a newline, or there are none.
abbrev pub IsComplete : List ℕ → Type 0
IsComplete [] = Unit
IsComplete (c ∷ []) = c ≡ newline
IsComplete (c ∷ d ∷ bytes) = IsComplete (d ∷ bytes)

-- What the read lines are together.
abbrev total : List (List ℕ) → ℕ
total [] = 0
total (line ∷ lines) = length line + total lines

total-read_lines :
    (line bytes : List ℕ) → total (read_lines line bytes) ≡ length line + length bytes
unfolding read_lines
total-read_lines [] [] = omega arith
total-read_lines (b ∷ line) [] = omega arith
total-read_lines [] (c ∷ bytes) =
    ground (arith, total-read_lines [] bytes, total-read_lines (c ∷ []) bytes)
total-read_lines (b ∷ line) (c ∷ bytes) = ground (
  arith,
  total-read_lines [] bytes,
  total-read_lines ((b ∷ line) ++ c ∷ []) bytes,
  length-append (b ∷ line) (c ∷ []),
)

pub read_lines-step :
    (line bytes : List ℕ) (c : ℕ)
    → read_lines line (c ∷ bytes) ≡ (
        if eqb c newline
        then (line ++ c ∷ []) ∷ read_lines [] bytes
        else read_lines (line ++ c ∷ []) bytes)
unfolding read_lines
read_lines-step line bytes c = refl

read_lines-last :
    (line more : List ℕ) (c : ℕ)
    → c ≡ newline
    → read_lines line (c ∷ more) ≡ read_lines line (c ∷ []) ++ read_lines [] more
unfolding read_lines
read_lines-last line more c complete = ground (arith, complete)

-- The lines of a file that was complete before it grew.
read_lines-grown :
    (old line more : List ℕ) (c : ℕ)
    → IsComplete (c ∷ old)
    → read_lines line ((c ∷ old) ++ more) ≡ read_lines line (c ∷ old) ++ read_lines [] more
read_lines-grown [] line more c complete = read_lines-last line more c complete
read_lines-grown (d ∷ old) line more c complete = ground (
  arith,
  read_lines-grown old [] more d complete,
  read_lines-grown old (line ++ c ∷ []) more d complete,
  read_lines-step line ((d ∷ old) ++ more) c,
  read_lines-step line (d ∷ old) c,
)

read_loop-append :
    (unmarshal : List ℕ → Option Event) (xs ys : List (List ℕ)) (events : List Event) (offset : ℕ)
    → read_loop unmarshal (xs ++ ys) events offset ≡ (
        let (found, reached) = read_loop unmarshal xs events offset in
        read_loop unmarshal ys found reached)
unfolding read_loop
read_loop-append unmarshal [] ys events offset = refl
read_loop-append unmarshal (x ∷ xs) ys events offset = read_loop-append unmarshal xs ys _ _

read_loop-events :
    (unmarshal : List ℕ → Option Event) (lines : List (List ℕ)) (events : List Event)
    (offset start : ℕ)
    → (read_loop unmarshal lines events offset).0 ≡ events ++ (read_loop unmarshal lines [] start).0
unfolding read_loop
read_loop-events unmarshal [] events offset start = sym (append_nil events)
read_loop-events unmarshal (line ∷ lines) events offset start =
    let x = event_in unmarshal (trim_end line) in
    read_loop-events unmarshal lines (events ++ x) (offset + length line) 0
    ∙ append_assoc events x (read_loop unmarshal lines [] 0).0
    ∙ ap (λ l. events ++ l) (sym (read_loop-events unmarshal lines x (start + length line) 0))

read_loop-offset :
    (unmarshal : List ℕ → Option Event) (lines : List (List ℕ)) (events : List Event) (offset : ℕ)
    → (read_loop unmarshal lines events offset).1 ≡ offset + total lines
unfolding read_loop
read_loop-offset unmarshal [] events offset = omega arith
read_loop-offset unmarshal (line ∷ lines) events offset = omega (
  arith,
  read_loop-offset unmarshal lines (events ++ event_in unmarshal (trim_end line))
      (offset + length line),
)

-- A reading stops at the end of the file.
pub read_new_events-reached :
    (unmarshal : List ℕ → Option Event) (file : List ℕ) (offset : ℕ)
    → (read_new_events unmarshal file offset).1 ≡ offset + length (drop offset file)
unfolding read_new_events
read_new_events-reached unmarshal file offset = omega (
  arith,
  read_loop-offset unmarshal (read_lines [] (drop offset file)) [] offset,
  total-read_lines [] (drop offset file),
)

all_lines :
    (old more : List ℕ)
    → IsComplete old
    → read_lines [] (old ++ more) ≡ read_lines [] old ++ read_lines [] more
unfolding read_lines
all_lines [] more complete = refl
all_lines (c ∷ old) more complete = read_lines-grown old [] more c complete

-- When all lines of a file were complete, reading stops at its end; and once the file has grown, a
-- reading from there finds exactly the events that a reading of the whole file finds after the
-- earlier ones: none is lost and none is read twice.
pub read_new_events_resumed :
    (unmarshal : List ℕ → Option Event) (old more : List ℕ)
    → IsComplete old
    → let (first, reached) = read_new_events unmarshal old 0 in
      (reached ≡ length old)
      × ((read_new_events unmarshal (old ++ more) 0).0
          ≡ first ++ (read_new_events unmarshal (old ++ more) reached).0)
unfolding read_new_events
read_new_events_resumed unmarshal old more complete =
    let lines = read_lines [] old in
    let reached : (read_loop unmarshal lines [] 0).1 ≡ length old =
      read_loop-offset unmarshal lines [] 0 ∙ omega (arith, total-read_lines [] old) in
    let rest : drop (read_loop unmarshal lines [] 0).1 (old ++ more) ≡ more =
      ap (λ n. drop n (old ++ more)) reached ∙ drop-length_append old more in
    (
      reached,
      ap (λ l. (read_loop unmarshal l [] 0).0) (all_lines old more complete)
          ∙ ap (λ (r : List Event × ℕ). r.0)
              (read_loop-append unmarshal lines (read_lines [] more) [] 0)
          ∙ read_loop-events unmarshal (read_lines [] more) _ _ (read_loop unmarshal lines [] 0).1
          ∙ ap
              (λ (l : List ℕ).
                (read_loop unmarshal lines [] 0).0
                ++ (read_loop unmarshal (read_lines [] l) [] (read_loop unmarshal lines [] 0).1).0)
              (sym rest),
    )

-- Wherever a file ended, the next reading starts there, and finds what a file that holds only the
-- later bytes would give: of a line that was not complete yet only the rest is read.
pub read_new_events_torn :
    (unmarshal : List ℕ → Option Event) (old more : List ℕ)
    → let reached = (read_new_events unmarshal old 0).1 in
      (reached ≡ length old)
      × ((read_new_events unmarshal (old ++ more) reached).0 ≡ (read_new_events unmarshal more 0).0)
unfolding read_new_events
read_new_events_torn unmarshal old more =
    let lines = read_lines [] old in
    let offset = (read_loop unmarshal lines [] 0).1 in
    let reached : offset ≡ length old =
      read_loop-offset unmarshal lines [] 0 ∙ omega (arith, total-read_lines [] old) in
    let rest : drop offset (old ++ more) ≡ more =
      ap (λ n. drop n (old ++ more)) reached ∙ drop-length_append old more in
    (
      reached,
      ap (λ (l : List ℕ). (read_loop unmarshal (read_lines [] l) [] offset).0) rest
          ∙ read_loop-events unmarshal (read_lines [] more) [] offset 0,
    )
