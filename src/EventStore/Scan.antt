-- ===== src/EventStore/Scan.antt =====
-- internal/eventstore/jsonl.go: what Query finds, against a plain selection from all events.
use agent_transponder.Prelude.{
  ℕ, zero, suc, ◌≤◌, ◌≡◌, refl, sym, ap, ◌∙◌, String, false, Bool-cases, inl, inr, ◌⊎◌, Option,
  none, some, Option-cases, List, [], ◌∷◌, ◌++◌, leb, take, length, select, All, arith,
  append_assoc, append_nil, if◌then◌else◌,
}
use agent_transponder.Prelude.Int.{ℤ, pos, negsuc, ltb_ℤ, pos_part}
use agent_transponder.Prelude.Maps.{Map}
use agent_transponder.Types.Event.{Event}
use agent_transponder.EventStore.{
  QueryFilter, StoredLine, max_event_line, matches_filter, scan_file, walk, query,
}

-- The events that the lines hold, in order.
abbrev event_of : Option Event → List Event → List Event
event_of none rest = rest
event_of (some event) rest = event ∷ rest

abbrev pub events_in : List StoredLine → List Event
events_in [] = []
events_in (line ∷ lines) = event_of line.content (events_in lines)

abbrev pub all_events : Map (List StoredLine) → List Event
all_events [] = []
all_events ((path, lines) ∷ files) = events_in lines ++ all_events files

abbrev pub matching : QueryFilter → List Event → List Event
matching f events = select (λ e. matches_filter e f) events

-- No line is too long to scan.
abbrev pub IsReadable : List StoredLine → Type 0
IsReadable lines = All (λ l. leb max_event_line l.size ≡ false) lines

abbrev pub AllReadable : Map (List StoredLine) → Type 0
AllReadable files = All (λ (entry : String × List StoredLine). IsReadable entry.1) files

-- The first events, if there is a limit.
abbrev pub limited : ℤ → List Event → List Event
limited limit events = if ltb_ℤ (pos 0) limit then take (pos_part limit) events else events

matching-append :
    (f : QueryFilter) (xs ys : List Event) → matching f (xs ++ ys) ≡ matching f xs ++ matching f ys
matching-append f [] ys = refl
matching-append f (x ∷ xs) ys = ground (arith, matching-append f xs ys)

scan_file-matching :
    (f : QueryFilter) (lines : List StoredLine)
    → IsReadable lines
    → scan_file f lines ≡ record { events = matching f (events_in lines); failed = false }
unfolding scan_file
scan_file-matching f [] h = refl
scan_file-matching f (line ∷ lines) (short, h) =
    let ih = scan_file-matching f lines h in
    elim (Option-cases line.content) [
      | inl nothing ↦ ground (arith, ih, short, nothing)
      | inr (event, is) ↦ ground (arith, ih, short, is)
    ]

take_all : (n : ℕ) (xs : List Event) → length xs ≤ n → take n xs ≡ xs
take_all zero [] h = refl
take_all zero (x ∷ xs) h = absurd (omega (arith, h))
take_all (suc n) [] h = refl
take_all (suc n) (x ∷ xs) h = ap (λ l. x ∷ l) (take_all n xs (omega (arith, h)))

take-append : (n : ℕ) (xs ys : List Event) → n ≤ length xs → take n (xs ++ ys) ≡ take n xs
take-append zero xs ys h = refl
take-append (suc n) [] ys h = absurd (omega (arith, h))
take-append (suc n) (x ∷ xs) ys h = ap (λ l. x ∷ l) (take-append n xs ys (omega (arith, h)))

positive : (z : ℤ) → (ltb_ℤ (pos 0) z ≡ false) ⊎ ((n : ℕ) × (z ≡ pos (suc n)))
positive (pos zero) = inl refl
positive (pos (suc n)) = inr (n, refl)
positive (negsuc n) = inl (ground arith)

-- What one file adds.
file_adds :
    (f : QueryFilter) (results : List Event) (lines : List StoredLine)
    (files : Map (List StoredLine))
    → (results ++ matching f (events_in lines)) ++ matching f (all_events files)
      ≡ results ++ matching f (events_in lines ++ all_events files)
file_adds f results lines files =
    append_assoc results (matching f (events_in lines)) (matching f (all_events files))
    ∙ ap (λ l. results ++ l) (sym (matching-append f (events_in lines) (all_events files)))

walk-unlimited :
    (f : QueryFilter) (results : List Event) (files : Map (List StoredLine))
    → AllReadable files
    → ltb_ℤ (pos 0) f.limit ≡ false
    → walk f results files
      ≡ record { events = results ++ matching f (all_events files); failed = false }
unfolding walk
walk-unlimited f results [] h free =
    ap (λ l. record { events = l; failed = false }) (sym (append_nil results))
walk-unlimited f results ((path, lines) ∷ files) (short, h) free =
    let found = scan_file-matching f lines short in
    let ih = walk-unlimited f (results ++ matching f (events_in lines)) files h free in
    ground (arith, found, free, ih, file_adds f results lines files)

walk-limited :
    (n : ℕ) (f : QueryFilter) (results : List Event) (files : Map (List StoredLine))
    → AllReadable files
    → f.limit ≡ pos (suc n)
    → length results ≤ n
    → walk f results files
      ≡ record { events = take (suc n) (results ++ matching f (all_events files)); failed = false }
unfolding walk
walk-limited n f results [] h limit room =
    ap (λ l. record { events = l; failed = false })
      (sym
        (ap (take (suc n)) (append_nil results) ∙ take_all (suc n) results (omega (arith, room))))
walk-limited n f results ((path, lines) ∷ files) (short, h) limit room =
    let found = scan_file-matching f lines short in
    let results' = results ++ matching f (events_in lines) in
    elim (Bool-cases (leb (suc n) (length results'))) [
      | inl full ↦ ground (
        arith,
        found,
        limit,
        full,
        file_adds f results lines files,
        take-append (suc n) results' (matching f (all_events files)),
      )
      | inr more ↦
          let ih = walk-limited n f results' files h limit (ground (arith, more)) in
          ground (arith, found, limit, more, ih, file_adds f results lines files)
    ]

-- If every line can be scanned, Query finds exactly the events that match the filter, in the order
-- of the files and their lines, and of these the first `limit` if the limit is positive.
pub query-matching :
    (f : QueryFilter) (files : Map (List StoredLine))
    → AllReadable files
    → query f files
      ≡ record { events = limited f.limit (matching f (all_events files)); failed = false }
unfolding query
query-matching f files h = elim (positive f.limit) [
  | inl free ↦ ground (arith, walk-unlimited f [] files h free, free)
  | inr (n, is) ↦ ground (arith, walk-limited n f [] files h is (omega arith), is)
]
