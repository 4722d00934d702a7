-- ===== src/Ingestion/Schema.antt =====
-- cmd/ingestion/pipeline.go: what validateEvent accepts, and what of it a message can fail.
use agent_transponder.Prelude.{
  String, ◌≡◌, ◌≢◌, refl, ◌↔◌, ◌==◌, eq_iff, Bool, true, false, Option, none, some, any, arith,
  if◌then◌else◌,
}
use agent_transponder.Prelude.Int.{pos}
use agent_transponder.Types.Event.{Event, Time, is_zero}
use agent_transponder.Conversion.Roundtrip.{All-any}
use agent_transponder.Ingestion.{
  id_required, session_id_required, type_required, validate_event, known_event_types, SchemaError,
  timestamp_required, unknown_event_type,
}

-- Midnight of January 1, 1970: what AsTime gives for a nil Timestamp.
abbrev pub unix_epoch : Time
unix_epoch = pos 62_135_596_800_000_000_000

-- The checks, given whether the type is on the list.
checks : Bool → Event → Option SchemaError
checks known e =
    if e.id == ""
    then some id_required
    else if e.session_id == ""
    then some session_id_required
    else if e.type == ""
    then some type_required
    else if known
    then if is_zero e.timestamp then some timestamp_required else none
    else some (unknown_event_type e.type)

checks-none_iff :
    (known : Bool) (e : Event)
    → (known ≡ true → (e.type == "") ≡ false)
    → (checks known e ≡ none)
      ↔ ((e.id ≢ "") × (e.session_id ≢ "") × (known ≡ true) × (is_zero e.timestamp ≡ false))
unfolding checks
checks-none_iff known e named = ground (arith, named, eq_iff e.id "", eq_iff e.session_id "")

known_named : (t : String) → any (λ known. t == known) known_event_types ≡ true → (t == "") ≡ false
known_named t =
    All-any (λ k. (k == "") ≡ false) t known_event_types
      (refl, (refl, (refl, (refl, (refl, (refl, (refl, (refl, (refl, (refl, tt))))))))))

-- validateEvent accepts exactly the events with an ID, a session, a type of the list and a time
-- that is not the zero time.
pub validate_event-none_iff :
    (e : Event)
    → (validate_event e ≡ none) ↔ (
        (e.id ≢ "")
        × (e.session_id ≢ "")
        × (any (λ known. e.type == known) known_event_types ≡ true)
        × (is_zero e.timestamp ≡ false))
unfolding validate_event checks
validate_event-none_iff e =
    checks-none_iff (any (λ known. e.type == known) known_event_types) e (known_named e.type)
