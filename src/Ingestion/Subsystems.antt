-- ===== src/Ingestion/Subsystems.antt =====
-- cmd/ingestion/main.go: what run builds before it serves. base64 and the constructors of the
-- subsystems are parameters; of a constructor only its success matters here.
use agent_transponder.Prelude.{
  ℕ, ◌≡◌, refl, String, ◌==◌, Bool, true, false, Option, none, some, List, [], ◌∷◌, ◌++◌, length,
  replicate, eqb, get_or, if◌then◌else◌, if_ind, arith,
}
use agent_transponder.Prelude.Float.{Float}
use agent_transponder.Prelude.Maps.{Map, insert}
use agent_transponder.Prelude.Text.{codes}
use agent_transponder.Prelude.Result.{Result, ok, err}

-- base64.StdEncoding.DecodeString
abbrev pub Decode : Type 0
Decode = String → Option (List ℕ)

-- A key that is not base64 is taken as it is.
abbrev pub key_bytes : Decode → String → List ℕ
key_bytes decode key = get_or (codes key) (decode key)

-- `agents`: the HMAC key of each agent, empty if it has none.
unfoldable pub build_hmac_key_map : Decode → Map String → Map (List ℕ) → Map (List ℕ)
build_hmac_key_map decode [] keys = keys
build_hmac_key_map decode ((agent_id, key) ∷ agents) keys =
    build_hmac_key_map decode agents
      (if key == "" then keys else insert agent_id (key_bytes decode key) keys)

pub data KekError : Type 0 where
  decode_kek : KekError
  wrong_length : ℕ → KekError

unfoldable pub check_kek : Option (List ℕ) → Result KekError (List ℕ)
check_kek none = err decode_kek
check_kek (some key) = if eqb (length key) 32 then ok key else err (wrong_length (length key))

-- `raw`: the variable AT_KEK, empty if it is not set. Then the key is all zeros.
unfoldable pub build_kek : Decode → String → Result KekError (List ℕ)
build_kek decode raw = if raw == "" then ok (replicate 32 0) else check_kek (decode raw)

-- The key encryption key has 32 bytes.
abbrev Has32 : Result KekError (List ℕ) → Type 0
Has32 (ok key) = length key ≡ 32
Has32 (err e) = Unit

check_kek-length : (key : Option (List ℕ)) → Has32 (check_kek key)
unfolding check_kek
check_kek-length none = tt
check_kek-length (some key) = if_ind Has32 (eqb (length key) 32) (λ t. ground (arith, t)) (λ t. tt)

pub build_kek-length : (decode : Decode) (raw : String) → Has32 (build_kek decode raw)
unfolding build_kek
build_kek-length decode raw =
    if_ind Has32 (raw == "") (λ t. refl) (λ t. check_kek-length (decode raw))

-- The subsystems that are closed, and the steps of initSubsystems that can fail.
pub data Subsystem : Type 0 where
  id_provider store audit_sink km policy_eng forwarder : Subsystem

pub data InitStep : Type 0 where
  init_identity init_store init_audit derive_kek init_keys init_policy init_redactor : InitStep

pub record Subsystems : Type 0 where
  pub has_id_provider : Bool
  pub has_store : Bool
  pub has_audit_sink : Bool
  pub has_km : Bool
  pub has_policy_eng : Bool
  pub has_forwarder : Bool

abbrev pub no_subsystems : Subsystems
no_subsystems = record {
  has_id_provider = false;
  has_store = false;
  has_audit_sink = false;
  has_km = false;
  has_policy_eng = false;
  has_forwarder = false;
}

abbrev when : Bool → Subsystem → List Subsystem
when present s = if present then s ∷ [] else []

-- close: the subsystems in the order in which they are closed.
unfoldable pub close : Subsystems → List Subsystem
close s =
    when s.has_forwarder forwarder
    ++ when s.has_policy_eng policy_eng
    ++ when s.has_km km
    ++ when s.has_audit_sink audit_sink
    ++ when s.has_store store
    ++ when s.has_id_provider id_provider

-- initSubsystems: the subsystems, or the step that failed and what is closed then.
unfoldable pub init_subsystems : (InitStep → Bool) → Result (InitStep × List Subsystem) Subsystems
init_subsystems fails =
    let s0 = no_subsystems in
    let s1 : Subsystems = record s0 { has_id_provider = true } in
    let s2 : Subsystems = record s1 { has_store = true } in
    let s3 : Subsystems = record s2 { has_audit_sink = true } in
    let s4 : Subsystems = record s3 { has_km = true } in
    let s5 : Subsystems = record s4 { has_policy_eng = true } in
    if fails init_identity
    then err (init_identity, close s0)
    else if fails init_store
    then err (init_store, close s1)
    else if fails init_audit
    then err (init_audit, close s2)
    else if fails derive_kek
    then err (derive_kek, close s3)
    else if fails init_keys
    then err (init_keys, close s3)
    else if fails init_policy
    then err (init_policy, close s4)
    else if fails init_redactor
    then err (init_redactor, close s5)
    else ok (record s5 { has_forwarder = true })

-- connectionCountInterceptor: the gauge goes up before the handler and down after it, on every path.
unfoldable pub connection_count_interceptor :
    (fl : Float) {A : Type 0} → (fl.F → fl.F × A) → fl.F → fl.F × A
connection_count_interceptor fl handler active =
    let (active', answer) = handler (fl.add active (fl.lit 1 0)) in
    (fl.sub active' (fl.lit 1 0), answer)
