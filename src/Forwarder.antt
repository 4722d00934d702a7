-- ===== src/Forwarder.antt =====
-- cmd/ingestion/analysis.go: AnalysisForwarder, which sends batches of events to the analysis
-- engine behind a circuit breaker. The calls of AnalyzeBatch are recorded as `requests`; what the
-- engine answers, whether a dial succeeds and the readings of the clock are arguments.
pub mod Batcher
pub mod Breaker
pub mod Trips
pub mod Sessions
pub mod Conserved
pub mod Delivery
use agent_transponder.Prelude.{
  ℕ, String, Bool, true, false, Option, none, some, List, [], ◌∷◌, ◌++◌, map, length, ltb,
  if◌then◌else◌,
}
use agent_transponder.Prelude.Int.{ℤ, pos, ◌+ℤ◌, leb_ℤ, inc64}
use agent_transponder.Prelude.Maps.{Map, lookup, insert}
use agent_transponder.Types.Event.{Event, Time, Duration, after}
use agent_transponder.Conversion.Messages.{WellKnown, EventMessage}
use agent_transponder.Conversion.{event_to_proto}

pub data CircuitState : Type 0 where
  circuit_closed circuit_open : CircuitState

-- The fields that the batcher and the breaker read.
pub record AnalysisConfig : Type 0 where
  pub circuit_breaker_cooldown : Duration
  pub batch_size : ℤ
  pub circuit_breaker_threshold : ℤ

abbrev pub channel_size : ℕ
channel_size = 1000

-- What a flush finds outside: the clock when the breaker is asked and when a failure is recorded,
-- whether a dial succeeds, and whether the engine takes the batch of a session.
pub record Outside : Type 0 where
  pub asked_at : Time
  pub failed_at : Time
  pub dialed : Bool
  pub takes : String → Bool

-- The body of the loop that groups the events by session.
unfoldable pub of_session : String → Map (List Event) → List Event
of_session session sessions = elim (lookup session sessions) [ none ↦ [] | some events ↦ events ]

unfoldable pub group : Map (List Event) → List Event → Map (List Event)
group sessions [] = sessions
group sessions (e ∷ events) =
    group (insert e.session_id (of_session e.session_id sessions ++ e ∷ []) sessions) events

module _ (lib : WellKnown) where
  pub record AnalyzeBatchRequest : Type 0 where
    pub session_id : String
    pub agent_id : String
    pub tenant_id : String
    pub events : List (EventMessage lib)

  -- `connected`: the client is not nil.
  pub record AnalysisForwarder : Type 0 where
    pub cfg : AnalysisConfig
    pub event_ch : List Event
    pub open_until : Time
    pub failures : ℤ
    pub circuit : CircuitState
    pub connected : Bool
    pub requests : List AnalyzeBatchRequest

  abbrev pub new_analysis_forwarder : AnalysisConfig → Bool → AnalysisForwarder
  new_analysis_forwarder cfg dialed = record {
    cfg = cfg;
    event_ch = [];
    open_until = pos 0;
    failures = pos 0;
    circuit = circuit_closed;
    connected = dialed;
    requests = [];
  }

  -- Whether the event was taken: a full channel drops it.
  unfoldable pub submit : Event → AnalysisForwarder → AnalysisForwarder × Bool
  submit event f =
      if ltb (length f.event_ch) channel_size
      then (record f { event_ch = f.event_ch ++ event ∷ [] }, true)
      else (f, false)

  unfoldable pub circuit_allows : Time → AnalysisForwarder → AnalysisForwarder × Bool
  circuit_allows now f = elim f.circuit [
    | circuit_open ↦
        if after now f.open_until
        then (record f { circuit = circuit_closed; failures = pos 0 }, true)
        else (f, false)
    | circuit_closed ↦ (f, true)
  ]

  unfoldable pub record_failure : Time → AnalysisForwarder → AnalysisForwarder
  record_failure now f =
      let f' = record f { failures = inc64 f.failures } in
      if leb_ℤ f.cfg.circuit_breaker_threshold f'.failures
      then record f' { circuit = circuit_open; open_until = now +ℤ f.cfg.circuit_breaker_cooldown }
      else f'

  unfoldable pub record_success : AnalysisForwarder → AnalysisForwarder
  record_success f = record f { failures = pos 0 }

  -- The requests so far and whether this one went well; no call is made without events.
  unfoldable pub send_batch :
      (String → Bool)
      → String
      → List Event
      → List AnalyzeBatchRequest
      → List AnalyzeBatchRequest × Bool
  send_batch takes session [] requests = (requests, true)
  send_batch takes session (e ∷ events) requests = (
    requests
        ++ record {
          session_id = session;
          agent_id = e.agent_id;
          tenant_id = e.tenant_id;
          events = map (event_to_proto lib) (e ∷ events);
        }
          ∷ [],
    takes session,
  )

  -- The loop of flush over the sessions.
  unfoldable pub send_all :
      (String → Bool)
      → Map (List Event)
      → List AnalyzeBatchRequest
      → Bool
      → List AnalyzeBatchRequest × Bool
  send_all takes [] requests all_ok = (requests, all_ok)
  send_all takes ((session, events) ∷ rest) requests all_ok =
      let (requests', sent) = send_batch takes session events requests in
      send_all takes rest requests' (if sent then all_ok else false)

  unfoldable pub send_sessions : Outside → List Event → AnalysisForwarder → AnalysisForwarder
  send_sessions out events f =
      let (requests, all_ok) = send_all out.takes (group [] events) f.requests true in
      let f' = record f { requests = requests } in
      if all_ok then record_success f' else record_failure out.failed_at f'

  -- The reconnection, then the sending.
  unfoldable pub connect_and_send : Outside → List Event → AnalysisForwarder → AnalysisForwarder
  connect_and_send out events f =
      if f.connected
      then send_sessions out events f
      else if out.dialed
      then send_sessions out events (record f { connected = true })
      else record_failure out.failed_at f

  unfoldable pub flush : Outside → List Event → AnalysisForwarder → AnalysisForwarder
  flush out events f =
      let (f', allowed) = circuit_allows out.asked_at f in
      if allowed then connect_and_send out events f' else f'
