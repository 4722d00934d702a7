-- ===== src/Analyzer/Reader.antt =====
-- internal/analyzer/analyzer.go: readNewEvents. A file is its bytes, and encoding/json a parameter.
-- Opening and seeking do not fail; a seek past the end reads nothing.
use agent_transponder.Prelude.{
  ℕ, ◌+◌, ◌||◌, Option, none, some, List, [], ◌∷◌, ◌++◌, length, drop, eqb, if◌then◌else◌,
}
use agent_transponder.Types.Event.{Event}

abbrev pub newline : ℕ
newline = 10

abbrev pub carriage_return : ℕ
carriage_return = 13

-- The lines that ReadBytes('\n') returns one after the other: each with its newline, but for a last
-- one that has none. `line` is what has been read of the line.
unfoldable pub read_lines : List ℕ → List ℕ → List (List ℕ)
read_lines [] [] = []
read_lines (b ∷ line) [] = (b ∷ line) ∷ []
read_lines line (c ∷ bytes) =
    let rest = read_lines [] bytes in
    let longer = read_lines (line ++ c ∷ []) bytes in
    if eqb c newline then (line ++ c ∷ []) ∷ rest else longer

-- Whether nothing but newlines is left.
unfoldable pub trim_end : List ℕ → List ℕ
trim_end [] = []
trim_end (c ∷ line) = elim (trim_end line) [
  | [] ↦ if eqb c newline || eqb c carriage_return then [] else c ∷ []
  | d ∷ rest ↦ c ∷ d ∷ rest
]

-- The loop of readNewEvents, on the lines: the events in order and the new offset. Lines that are
-- empty or malformed are passed over.
unfoldable pub event_in : (List ℕ → Option Event) → List ℕ → List Event
event_in unmarshal [] = []
event_in unmarshal (c ∷ line) = elim (unmarshal (c ∷ line)) [ none ↦ [] | some event ↦ event ∷ [] ]

unfoldable pub read_loop : (List ℕ → Option Event) → List (List ℕ) → List Event → ℕ → List Event × ℕ
read_loop unmarshal [] events offset = (events, offset)
read_loop unmarshal (line ∷ lines) events offset =
    read_loop unmarshal lines (events ++ event_in unmarshal (trim_end line)) (offset + length line)

unfoldable pub read_new_events : (List ℕ → Option Event) → List ℕ → ℕ → List Event × ℕ
read_new_events unmarshal file offset =
    read_loop unmarshal (read_lines [] (drop offset file)) [] offset
