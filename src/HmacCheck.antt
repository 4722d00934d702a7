-- ===== src/HmacCheck.antt =====
-- cmd/hmaccheck/main.go: the digest that the tool prints, against the check of the service.
use agent_transponder.Prelude.{ℕ, ◌≡◌, refl, ap, ◌∙◌, String, ◌==◌, Option, none, some, List, []}
use mathlib.Core.Option
use agent_transponder.Prelude.Int.{pos}
use agent_transponder.Prelude.Loops.{◌>>=◌}
use agent_transponder.Types.Event.{Event, event_prompt, severity_info}
use agent_transponder.Types.Hmac.{Signing, compute_hmac, verify_hmac}

-- The built-in event.
abbrev pub test_event : Event
test_event = record {
  id = "test-123";
  session_id = "sess-1";
  agent_id = "sdk-demo";
  tenant_id = "demo";
  type = event_prompt;
  severity = severity_info;
  timestamp = pos 0;
  received_at = pos 0;
  prompt = none;
  response = none;
  tool_call = none;
  memory = none;
  reasoning = none;
  error = none;
  model = "";
  token_usage = none;
  labels = [];
  run_id = "";
  parent_run_id = "";
  tags = [];
  hmac = "";
  redacted_fields = [];
  duration = pos 0;
}

module _ (lib : Signing) where
  -- The canonical JSON and the digest; `none` where the tool ends with a message.
  unfoldable pub compute_with_canonical : List ℕ → Event → Option (String × String)
  compute_with_canonical key e = lib.marshal_event (record e { hmac = "" }) >>= λ raw.
      lib.unmarshal_object raw >>= λ m.
      lib.marshal_object (lib.delete_key "hmac" m) >>= λ canonical.
      some (canonical, lib.hmac_sha256_hex key canonical)

  -- The event of a file, or the built-in one; `none` if the file cannot be read or parsed.
  unfoldable pub load_event : Option (Option Event) → Option Event
  load_event none = some test_event
  load_event (some read) = read

  last_step :
      (key : List ℕ) (o : Option String)
      → Option.map (lib.hmac_sha256_hex key) o
        ≡ Option.map
            (λ (r : String × String). r.1)
            (o >>= λ canonical. some (canonical, lib.hmac_sha256_hex key canonical))
  last_step key none = refl
  last_step key (some canonical) = refl

  sorted :
      (key : List ℕ) (o : Option lib.JsonObject)
      → Option.map
          (lib.hmac_sha256_hex key)
          (elim o [ none ↦ none | some m ↦ lib.marshal_object (lib.delete_key "hmac" m) ])
        ≡ Option.map
            (λ (r : String × String). r.1)
            (o >>= λ m. lib.marshal_object (lib.delete_key "hmac" m) >>= λ canonical.
              some (canonical, lib.hmac_sha256_hex key canonical))
  sorted key none = refl
  sorted key (some m) = last_step key (lib.marshal_object (lib.delete_key "hmac" m))

  marshalled :
      (key : List ℕ) (o : Option String)
      → Option.map (lib.hmac_sha256_hex key) (elim o [
        | none ↦ none
        | some raw ↦ elim (lib.unmarshal_object raw) [
          | none ↦ none
          | some m ↦ lib.marshal_object (lib.delete_key "hmac" m)
        ]
      ])
        ≡ Option.map
            (λ (r : String × String). r.1)
            (o >>= λ raw. lib.unmarshal_object raw >>= λ m.
              lib.marshal_object (lib.delete_key "hmac" m) >>= λ canonical.
              some (canonical, lib.hmac_sha256_hex key canonical))
  marshalled key none = refl
  marshalled key (some raw) = sorted key (lib.unmarshal_object raw)

  -- The tool's digest is the HMAC of the event.
  pub compute_hmac-compute_with_canonical :
      (key : List ℕ) (e : Event)
      → compute_hmac lib key e
        ≡ Option.map (λ (r : String × String). r.1) (compute_with_canonical key e)
  unfolding compute_with_canonical compute_hmac
  compute_hmac-compute_with_canonical key e =
      marshalled key (lib.marshal_event (record e { hmac = "" }))

  -- Of all events that differ in their HMAC only, the service takes the one with the digest that the
  -- tool prints.
  pub verify_hmac-digest :
      (key : List ℕ) (e : Event) (canonical digest signature : String)
      → compute_with_canonical key e ≡ some (canonical, digest)
      → verify_hmac lib key (record e { hmac = signature }) ≡ some (signature == digest)
  unfolding verify_hmac compute_hmac
  verify_hmac-digest key e canonical digest signature h =
      ap (Option.map (λ expected. signature == expected)) (
        compute_hmac-compute_with_canonical key e
        ∙ ap (Option.map (λ (r : String × String). r.1)) h)
