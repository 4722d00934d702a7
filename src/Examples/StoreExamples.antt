-- ===== src/Examples/StoreExamples.antt =====
-- The theorem on Stream of internal/eventstore at concrete inputs.
use agent_transponder.Prelude.{true, inr, ◌≡◌, refl, ℕ, String, none, some, List, [], ◌∷◌, map}
use agent_transponder.Prelude.Int.{pos}
use agent_transponder.Types.Event.{Event}
use agent_transponder.EventStore.{QueryFilter, StoredLine, matches_filter, scan_file, walk, query}
use agent_transponder.EventStore.Scan.{all_events, limited}
use agent_transponder.EventStore.Stream.{
  since, last_sent, sent_of, poll_events, stream, fresh, poll_events-later,
}
use agent_transponder.Examples.ForwarderExamples.{event}

abbrev at : ℕ → String → StoredLine
at t id = record {
  content = some (record event { id = id; timestamp = pos t });
  size = 300;
  terminated = true;
}

abbrev every_event : QueryFilter
every_event = record {
  after_time = pos 0;
  before_time = pos 0;
  session_id = "";
  agent_id = "";
  tenant_id = "";
  types = [];
  limit = pos 0;
}

abbrev two_tenants : List (String × List StoredLine)
two_tenants = ("a.jsonl", at 9 "late" ∷ []) ∷ ("b.jsonl", at 5 "early" ∷ []) ∷ []

abbrev since_three : QueryFilter
since_three = record every_event { after_time = pos 3 }

poll_events-later_example : poll_events since_three none two_tenants (pos 5) ≡ (
  limited (pos 0) (fresh since_three (pos 5) (all_events two_tenants)),
  last_sent (pos 5) (limited (pos 0) (fresh since_three (pos 5) (all_events two_tenants))),
)
poll_events-later_example =
    poll_events-later since_three two_tenants (pos 5) (((refl, tt)), ((refl, tt), tt))
      (inr (inr refl))

-- The files are read in the order of their paths: an event that is not the latest is sent last, and
-- the next tick sends the latest one again.
sent_twice :
    map (λ (e : Event). e.id) (stream every_event (two_tenants ∷ two_tenants ∷ []) (pos 0))
    ≡ "late" ∷ "early" ∷ "late" ∷ []
unfolding stream poll_events sent_of since last_sent query walk scan_file matches_filter
sent_twice = refl

-- An event with the timestamp of one that was sent is not sent.
same_time_lost :
    map
      (λ (e : Event). e.id)
      (stream every_event
        ((("a.jsonl", at 5 "first" ∷ []) ∷ [])
          ∷ (("a.jsonl", at 5 "first" ∷ at 5 "second" ∷ []) ∷ [])
          ∷ [])
        (pos 0))
    ≡ "first" ∷ []
unfolding stream poll_events sent_of since last_sent query walk scan_file matches_filter
same_time_lost = refl
