-- ===== src/EventStore/Stream.antt =====
-- internal/eventstore/jsonl.go: Stream with its polling loop, Export and Close. A tick of the loop
-- sends events until the context is cancelled.
use agent_transponder.Prelude.{
  ℕ, ◌≡◌, refl, sym, ap, ap₂, ◌⊎◌, inl, inr, Bool-cases, if_ind, ◌∙◌, String, ◌==◌, Bool, true,
  false, not, ◌&&◌, ◌||◌, Option, none, some, List, [], ◌∷◌, ◌++◌, length, take, ltb, select,
  if◌then◌else◌, arith,
}
use agent_transponder.Prelude.Int.{ℤ}
use agent_transponder.Prelude.Maps.{Map}
use agent_transponder.Types.Event.{Event, Time, is_zero, after, before}
use agent_transponder.EventStore.{
  QueryFilter, StoredLine, JsonlStore, Found, matches_types, matches_filter, query,
}
use agent_transponder.EventStore.Scan.{all_events, matching, AllReadable, limited, query-matching}

-- The filter of a tick: what was sent last is passed over.
unfoldable pub since : Time → QueryFilter → QueryFilter
since last_seen f = if is_zero last_seen then f else record f { after_time = last_seen }

-- The timestamp of the last event sent.
unfoldable pub last_sent : Time → List Event → Time
last_sent last_seen [] = last_seen
last_sent last_seen (e ∷ events) = last_sent e.timestamp events

-- The events that are sent before the context is cancelled, if it is.
unfoldable pub sent_of : Option ℕ → List Event → List Event
sent_of none events = events
sent_of (some k) events = take k events

-- One tick: the events sent, and the time to go on from. A query that fails is passed over.
unfoldable pub poll_events :
    QueryFilter → Option ℕ → Map (List StoredLine) → Time → List Event × Time
poll_events f takes files last_seen =
    let found = query (since last_seen f) files in
    let sent = sent_of takes found.events in
    if found.failed then ([], last_seen) else (sent, last_sent last_seen sent)

-- The stream over the ticks, each with the files as they are then.
unfoldable pub stream : QueryFilter → List (Map (List StoredLine)) → Time → List Event
stream f [] last_seen = []
stream f (files ∷ ticks) last_seen =
    let (sent, last_seen') = poll_events f none files last_seen in sent ++ stream f ticks last_seen'

-- Export: how many events are written, and whether it fails: the query, or the event after `works`.
unfoldable pub export : QueryFilter → Option ℕ → Map (List StoredLine) → ℕ × Bool
export f works files =
    let found = query f files in
    let n = length found.events in
    if found.failed
    then (0, true)
    else elim works [ none ↦ (n, false) | some k ↦ if ltb k n then (k, true) else (n, false) ]

-- Close: whether some flush or close fails. `fails` says whose file cannot be closed.
unfoldable pub any_fails : (String → Bool) → Map Bool → Bool
any_fails fails [] = false
any_fails fails ((bucket, writer_failed) ∷ writers) =
    writer_failed || fails bucket || any_fails fails writers

unfoldable pub close_store : (String → Bool) → Bool → JsonlStore → JsonlStore × Bool
close_store fails root_fails s =
    (record s { writers = [] }, any_fails fails s.writers || root_fails)

one_more :
    (a b c z now z' then' d types : Bool)
    → z ≡ false
    → (not z' && not then' && now) ≡ false
    → (if a
        then false
        else if b
        then false
        else if c
        then false
        else if not z && not now
        then false
        else if d
        then false
        else types)
      ≡ ((if a
            then false
            else if b
            then false
            else if c
            then false
            else if not z' && not then'
            then false
            else if d
            then false
            else types)
          && now)
one_more a b c z now z' then' d types h k = ground (arith, h, k)

since_first :
    (last_seen : Time) (f : QueryFilter) → is_zero last_seen ≡ true → since last_seen f ≡ f
unfolding since
since_first last_seen f h =
    ap (λ (b : Bool). if b then f else record f { after_time = last_seen }) h

since-limit : (last_seen : Time) (f : QueryFilter) → (since last_seen f).limit ≡ f.limit
unfolding since
since-limit last_seen f =
    if_ind (λ (g : QueryFilter). g.limit ≡ f.limit) (is_zero last_seen) (λ _. refl) (λ _. refl)

-- The filter asks for no events before last_seen.
abbrev pub NotBefore : QueryFilter → Time → Type 0
NotBefore f last_seen = (is_zero f.after_time ≡ true) ⊎ (after last_seen f.after_time ≡ true)

not_before :
    (f : QueryFilter) (last_seen t : Time)
    → NotBefore f last_seen
    → (not (is_zero f.after_time) && not (after t f.after_time) && after t last_seen) ≡ false
not_before f last_seen t (inl k) = ground (arith, k)
not_before f last_seen t (inr k) = ground (arith, k)

-- The filter of a tick asks for one thing more.
matches_filter-since :
    (f : QueryFilter) (last_seen : Time) (e : Event)
    → is_zero last_seen ≡ false
    → NotBefore f last_seen
    → matches_filter e (since last_seen f) ≡ (matches_filter e f && after e.timestamp last_seen)
unfolding matches_filter since
matches_filter-since f last_seen e h k =
    ap (λ (b : Bool). matches_filter e (if b then f else record f { after_time = last_seen })) h
    ∙ one_more (not (f.session_id == "") && not (e.session_id == f.session_id))
        (not (f.agent_id == "") && not (e.agent_id == f.agent_id))
        (not (f.tenant_id == "") && not (e.tenant_id == f.tenant_id)) (is_zero last_seen)
        (after e.timestamp last_seen) (is_zero f.after_time) (after e.timestamp f.after_time)
        (not (is_zero f.before_time) && not (before e.timestamp f.before_time))
        (matches_types e f.types) h (not_before f last_seen e.timestamp k)

abbrev pub later : Time → List Event → List Event
later last_seen events = select (λ e. after e.timestamp last_seen) events

matching-since :
    (f : QueryFilter) (last_seen : Time) (events : List Event)
    → is_zero last_seen ≡ false
    → NotBefore f last_seen
    → matching (since last_seen f) events ≡ later last_seen (matching f events)
matching-since f last_seen [] h k = refl
matching-since f last_seen (e ∷ events) h k =
    ground (arith, matches_filter-since f last_seen e h k, matching-since f last_seen events h k)

-- What a tick looks for: the matching events, and after the first tick the later ones of them.
abbrev pub fresh : QueryFilter → Time → List Event → List Event
fresh f last_seen events =
    if is_zero last_seen then matching f events else later last_seen (matching f events)

matching-fresh :
    (f : QueryFilter) (last_seen : Time) (events : List Event)
    → (is_zero last_seen ≡ true) ⊎ NotBefore f last_seen
    → matching (since last_seen f) events ≡ fresh f last_seen events
matching-fresh f last_seen events h = elim (Bool-cases (is_zero last_seen)) [
  | inl first ↦
      ap (λ g. matching g events) (since_first last_seen f first)
      ∙ ap (λ b. if b then matching f events else later last_seen (matching f events)) (sym first)
  | inr next ↦ elim h [
    | inl first ↦ absurd (ground (arith, first, next))
    | inr k ↦
        matching-since f last_seen events next k
        ∙ ap (λ b. if b then matching f events else later last_seen (matching f events)) (sym next)
  ]
]

-- A tick whose query succeeds sends, up to the limit, the matching events: on the first tick, when
-- nothing has been sent, all of them, and afterwards exactly those that are later than the one sent
-- last, which is taken to be later than the time that the filter itself asks for, if any.
pub poll_events-later :
    (f : QueryFilter) (files : Map (List StoredLine)) (last_seen : Time)
    → AllReadable files
    → (is_zero last_seen ≡ true) ⊎ NotBefore f last_seen
    → let sent = limited f.limit (fresh f last_seen (all_events files)) in
      poll_events f none files last_seen ≡ (sent, last_sent last_seen sent)
unfolding poll_events sent_of
poll_events-later f files last_seen readable h =
    let g = since last_seen f in
    let Tick : Found → List Event × Time =
      λ r. if r.failed then ([], last_seen) else (r.events, last_sent last_seen r.events) in
    ap Tick (query-matching g files readable)
    ∙ ap₂ (λ (n : ℤ) (l : List Event). (limited n l, last_sent last_seen (limited n l)))
        (since-limit last_seen f) (matching-fresh f last_seen (all_events files) h)
