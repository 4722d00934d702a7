-- ===== src/Types/Hmac.antt =====
-- internal/types/event.go: ComputeHMAC and VerifyHMAC. encoding/json and HMAC-SHA256 are parameters.
use agent_transponder.Prelude.{ℕ, String, ◌==◌, Bool, Option, none, some, List}
use mathlib.Core.Option
use agent_transponder.Types.Event.{Event}

-- json.Marshal of an event, json.Unmarshal into a map[string]interface{}, delete, json.Marshal of
-- the map, and the HMAC in hexadecimal; `none` for an error.
pub record Signing : Type 1 where
  pub JsonObject : Type 0
  pub marshal_event : Event → Option String
  pub unmarshal_object : String → Option JsonObject
  pub delete_key : String → JsonObject → JsonObject
  pub marshal_object : JsonObject → Option String
  pub hmac_sha256_hex : List ℕ → String → String

module _ (lib : Signing) where
  canonical_of : Option String → Option String
  canonical_of none = none
  canonical_of (some raw) = elim (lib.unmarshal_object raw) [
    | none ↦ none
    | some m ↦ lib.marshal_object (lib.delete_key "hmac" m)
  ]

  -- The HMAC field is cleared for the computation and then restored.
  unfoldable pub compute_hmac : List ℕ → Event → Option String
  unfolding canonical_of
  compute_hmac key e =
      Option.map (lib.hmac_sha256_hex key)
        (canonical_of (lib.marshal_event (record e { hmac = "" })))

  unfoldable pub verify_hmac : List ℕ → Event → Option Bool
  verify_hmac key e = Option.map (λ expected. e.hmac == expected) (compute_hmac key e)
