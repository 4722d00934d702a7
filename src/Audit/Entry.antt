-- ===== src/Audit/Entry.antt =====
-- internal/audit/sink.go: the entry of the audit log; and the text that its hash covers, from
-- `computeHash` of internal/audit/hashchain.go.
use agent_transponder.Prelude.{
  ℕ, zero, suc, ◌≡◌, ◌+◌, ◌/◌, ◌%◌, String, Bool, Option, List, [], ◌∷◌, ◌++◌, if◌then◌else◌, ltb,
}
use agent_transponder.Prelude.Int.{ℤ, pos, negsuc}
use agent_transponder.Prelude.Maps.{Map}
use agent_transponder.Prelude.Text.{codes}
use agent_transponder.Types.Event.{Time}

abbrev pub ActionType : Type 0
ActionType = String

abbrev pub action_ingest_event : ActionType
action_ingest_event = "ingest_event"

abbrev pub action_access_denied : ActionType
action_access_denied = "access_denied"

abbrev pub Outcome : Type 0
Outcome = String

abbrev pub outcome_success : Outcome
outcome_success = "success"

abbrev pub outcome_failure : Outcome
outcome_failure = "failure"

abbrev pub outcome_denied : Outcome
outcome_denied = "denied"

pub record Entry : Type 0 where
  pub timestamp : Time
  pub action : ActionType
  pub outcome : Outcome
  pub actor_id : String
  pub resource : String
  pub detail : String
  pub source_ip : String
  pub correlation_id : String
  pub labels : Map String
  pub previous_hash : String
  pub entry_hash : String
  pub sequence_num : ℤ

-- A line of the file: the entry that `json.Unmarshal` reads from it, `none` if it reads none, its
-- length, which the scanner bounds, and whether it has its newline.
pub record Line : Type 0 where
  pub content : Option Entry
  pub size : ℕ
  pub terminated : Bool

-- What the log takes from the standard library: SHA-256 in hexadecimal, the RFC 3339 text of a
-- time, the length of an entry's JSON line, and what is read from the bytes of two lines in one.
pub record Hashing : Type 0 where
  pub sha256_hex : List ℕ → String
  pub rfc3339_nano : Time → List ℕ
  pub json_size : Entry → ℕ
  pub glue : Line → Line → Line

-- The decimal digits of n before those of `rest`. A number has at most as many digits as its
-- value, so `suc n` is fuel enough.
unfoldable pub digits_before : ℕ → ℕ → List ℕ → List ℕ
digits_before zero n rest = rest
digits_before (suc fuel) n rest =
    let more = digits_before fuel (n / 10) ((b'0' + n % 10) ∷ rest) in
    if ltb n 10 then (b'0' + n) ∷ rest else more

-- %d
unfoldable pub decimal : ℤ → List ℕ
unfolding digits_before
decimal (pos n) = digits_before (suc n) n []
decimal (negsuc n) = b'-' ∷ digits_before (suc (suc n)) (suc n) []

abbrev pub bar : ℕ
bar = b'|'

module _ (hashing : Hashing) where
  open hashing use {sha256_hex, rfc3339_nano}

  -- "%d|%s|%s|%s|%s|%s|%s|%s"
  unfoldable pub preimage : Entry → List ℕ
  preimage e =
      decimal e.sequence_num
      ++ (bar
          ∷ (codes e.previous_hash
              ++ (bar
                  ∷ (rfc3339_nano e.timestamp
                      ++ (bar
                          ∷ (codes e.action
                              ++ (bar
                                  ∷ (codes e.outcome
                                      ++ (bar
                                          ∷ (codes e.actor_id
                                              ++ (bar
                                                  ∷ (codes e.resource
                                                      ++ (bar ∷ codes e.detail)))))))))))))

  unfoldable pub compute_hash : Entry → String
  compute_hash e = sha256_hex (preimage e)

  -- The hash does not cover the field that holds it.
  pub compute_hash-entry_hash :
      (e : Entry) (h : String) → h ≡ compute_hash e → h ≡ compute_hash (record e { entry_hash = h })
  unfolding compute_hash preimage
  compute_hash-entry_hash e h p = p
