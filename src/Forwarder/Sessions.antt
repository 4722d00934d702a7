-- ===== src/Forwarder/Sessions.antt =====
-- cmd/ingestion/analysis.go: how flush groups a batch by session and sends each group.
use agent_transponder.Prelude.{
  ℕ, ◌≤◌, ◌≡◌, refl, sym, append_assoc, append_nil, ap, ◌∙◌, String, Bool, true, false, Bool-cases,
  inl, inr, none, List, [], ◌∷◌, ◌++◌, map, length, select, arith, eq_iff, ◌==◌, if◌then◌else◌,
}
use agent_transponder.Prelude.Maps.{Map, lookup, insert, lookup-insert}
use agent_transponder.Types.Event.{Event}
use agent_transponder.Conversion.Messages.{WellKnown, EventMessage}
use agent_transponder.Conversion.{event_to_proto}
use agent_transponder.Forwarder.{
  AnalyzeBatchRequest, AnalysisForwarder, Outside, circuit_closed, of_session, group, send_batch,
  send_all, send_sessions, connect_and_send, circuit_allows, flush, record_failure, record_success,
}

-- The events of one session, in order.
abbrev pub session_events : String → List Event → List Event
session_events session events = select (λ e. session == e.session_id) events

of_session_first :
    (s k : String) (events : List Event) (m : Map (List Event))
    → (s == k) ≡ true
    → of_session s ((k, events) ∷ m) ≡ events
unfolding of_session lookup
of_session_first s k events m here = ground arith

of_session_later :
    (s k : String) (events : List Event) (m : Map (List Event))
    → (s == k) ≡ false
    → of_session s ((k, events) ∷ m) ≡ of_session s m
unfolding of_session lookup
of_session_later s k events m there = ground arith

of_session-insert :
    (s k : String) (events : List Event) (m : Map (List Event))
    → of_session s (insert k events m) ≡ (if s == k then events else of_session s m)
unfolding of_session
of_session-insert s k events m = ground (arith, lookup-insert k s events m)

pub of_session-group :
    (s : String) (m : Map (List Event)) (events : List Event)
    → of_session s (group m events) ≡ of_session s m ++ session_events s events
unfolding group
of_session-group s m [] = sym (append_nil (of_session s m))
of_session-group s m (e ∷ events) =
    let k = e.session_id in
    let grown = of_session k m ++ e ∷ [] in
    let ih = of_session-group s (insert k grown m) events in
    let added = of_session-insert s k grown m in
    elim (Bool-cases (s == k)) [
      | inl here ↦ rw here (
          ih
          ∙ ap (λ l. l ++ session_events s events) (ground (arith, added, eq_iff s k))
          ∙ append_assoc (of_session s m) (e ∷ []) (session_events s events))
      | inr there ↦ rw there (ih ∙ ap (λ l. l ++ session_events s events) (ground (arith, added)))
    ]

-- Each session has one entry.
abbrev pub KeysOnce : Map (List Event) → Type 0
KeysOnce [] = Unit
KeysOnce ((session, events) ∷ m) = (lookup session m ≡ none) × KeysOnce m

insert-KeysOnce :
    (k : String) (events : List Event) (m : Map (List Event))
    → KeysOnce m
    → KeysOnce (insert k events m)
unfolding insert lookup
insert-KeysOnce k events [] h = (refl, tt)
insert-KeysOnce k events ((s, old) ∷ m) (once, h) = elim (Bool-cases (k == s)) [
  | inl here ↦ rw here (ground (arith, eq_iff k s), h)
  | inr there ↦ rw there (
    ground (arith, eq_iff k s, eq_iff s k, lookup-insert k s events m),
    insert-KeysOnce k events m h,
  )
]

pub group-KeysOnce :
    (events : List Event) (m : Map (List Event)) → KeysOnce m → KeysOnce (group m events)
unfolding group
group-KeysOnce [] m h = h
group-KeysOnce (e ∷ events) m h = group-KeysOnce events _ (insert-KeysOnce e.session_id _ m h)

module _ (lib : WellKnown) where
  -- The requests for the groups, in the order of the loop.
  abbrev requests_of : Map (List Event) → List (AnalyzeBatchRequest lib)
  requests_of [] = []
  requests_of ((session, []) ∷ m) = requests_of m
  requests_of ((session, e ∷ events) ∷ m) =
      record {
        session_id = session;
        agent_id = e.agent_id;
        tenant_id = e.tenant_id;
        events = map (event_to_proto lib) (e ∷ events);
      }
      ∷ requests_of m

  send_all-requests :
      (takes : String → Bool) (m : Map (List Event)) (requests : List (AnalyzeBatchRequest lib))
      (all_ok : Bool)
      → (send_all lib takes m requests all_ok).0 ≡ requests ++ requests_of m
  unfolding send_all send_batch
  send_all-requests takes [] requests all_ok = sym (append_nil requests)
  send_all-requests takes ((session, []) ∷ m) requests all_ok =
      send_all-requests takes m requests all_ok
  send_all-requests takes ((session, e ∷ events) ∷ m) requests all_ok =
      send_all-requests takes m _ _ ∙ append_assoc requests _ (requests_of m)

  -- What the requests hold for one session, and how many there are.
  abbrev pub sent_to : String → List (AnalyzeBatchRequest lib) → List (EventMessage lib)
  sent_to s [] = []
  sent_to s (r ∷ requests) =
      let rest = sent_to s requests in if s == r.session_id then r.events ++ rest else rest

  abbrev pub requests_to : String → List (AnalyzeBatchRequest lib) → ℕ
  requests_to s requests = length (select (λ r. s == r.session_id) requests)

  none_sent :
      (s : String) (m : Map (List Event))
      → lookup s m ≡ none
      → (sent_to s (requests_of m) ≡ []) × (requests_to s (requests_of m) ≡ 0)
  unfolding lookup
  none_sent s [] h = (refl, refl)
  none_sent s ((session, []) ∷ m) h = none_sent s m (ground arith)
  none_sent s ((session, e ∷ events) ∷ m) h =
      let (ih, count) = none_sent s m (ground arith) in (ground arith, ground arith)

  sent_once :
      (s : String) (m : Map (List Event))
      → KeysOnce m
      → (sent_to s (requests_of m) ≡ map (event_to_proto lib) (of_session s m))
        × (requests_to s (requests_of m) ≤ 1)
  unfolding lookup of_session
  sent_once s [] h = (refl, omega arith)
  sent_once s ((session, []) ∷ m) (once, h) =
      let (ih, count) = sent_once s m h in
      elim (Bool-cases (s == session)) [
        | inl here ↦
            let (nothing, zero_sent) = none_sent s m (ground (arith, once, eq_iff s session)) in
            (
              nothing ∙ ap (map (event_to_proto lib)) (sym (of_session_first s session [] m here)),
              ground (arith, zero_sent),
            )
        | inr there ↦ (
          ih ∙ ap (map (event_to_proto lib)) (sym (of_session_later s session [] m there)),
          count,
        )
      ]
  sent_once s ((session, e ∷ events) ∷ m) (once, h) =
      let (ih, count) = sent_once s m h in
      elim (Bool-cases (s == session)) [
        | inl here ↦
            let (nothing, zero_sent) = none_sent s m (ground (arith, once, eq_iff s session)) in
            rw here (
              ap (λ l. map (event_to_proto lib) (e ∷ events) ++ l) nothing
                  ∙ append_nil (map (event_to_proto lib) (e ∷ events))
                  ∙ ap (map (event_to_proto lib))
                      (sym (of_session_first s session (e ∷ events) m here)),
              ground (arith, zero_sent),
            )
        | inr there ↦ rw there (
          ih
              ∙ ap (map (event_to_proto lib))
                  (sym (of_session_later s session (e ∷ events) m there)),
          count,
        )
      ]

  -- With a closed circuit and a connection, a flush adds requests in which each session's events
  -- stand in their order and in one request at most, whether the engine takes them or not.
  pub flush-sent :
      (out : Outside) (events : List Event) (f : AnalysisForwarder lib)
      → f.circuit ≡ circuit_closed
      → f.connected ≡ true
      → (added : List (AnalyzeBatchRequest lib)) × ((flush lib out events f).requests
          ≡ f.requests ++ added)
        × ((s : String)
            → (sent_to s added ≡ map (event_to_proto lib) (session_events s events))
              × (requests_to s added ≤ 1))
  unfolding flush circuit_allows connect_and_send send_sessions record_failure record_success
      of_session lookup
  flush-sent out events f closed connected =
      let sent = send_all-requests out.takes (group [] events) f.requests true in
      (
        requests_of (group [] events),
        ground (arith, sent),
        λ s.
            let (all, once) = sent_once s (group [] events) (group-KeysOnce events [] tt) in
            (all ∙ ap (map (event_to_proto lib)) (of_session-group s [] events), once),
      )
