-- ===== src/Examples/AuditExamples.antt =====
-- The theorems on internal/audit at concrete inputs, with a toy hash in place of SHA-256.
use agent_transponder.Prelude.{
  ◌≡◌, ◌≢◌, ◌+◌, none, refl, ◌↔◌, ◌⊎◌, inl, inr, Bool, true, false, some, List, [], ◌∷◌, eq_iff,
  arith, ltb, length, map, All, if◌then◌else◌,
}
use agent_transponder.Prelude.Int.{pos}
use agent_transponder.Prelude.Text.{codes}
use agent_transponder.Audit.Entry.{Line, Entry, Hashing, bar, decimal, preimage, compute_hash}
use agent_transponder.Audit.Sink.{
  no_fault, flush_fails, genesis_hash, intact, broken, verify, too_long,
}
use agent_transponder.Audit.Chain.{background}
use agent_transponder.Audit.Sessions.{Step, logged, restarted}
use agent_transponder.Audit.Tamper.{
  Links, verify-intact_iff, verify_tampered, relabel, verify-relabel,
}
use agent_transponder.Audit.Commit.{
  NoneSkipped, Collision, covered, same_head, compute_hash_ambiguous,
}

abbrev pub toy : Hashing
toy = record {
  sha256_hex = λ text. if ltb 120 (length text) then "ff" else "0a";
  rfc3339_nano = λ t. b'Z' ∷ [];
  json_size = λ e. 200;
  glue = λ x y. record { content = none; size = x.size + y.size; terminated = true };
}

digest_plain : (b : Bool) → All (λ c. c ≢ bar) (codes (if b then "ff" else "0a"))
digest_plain true = omega arith
digest_plain false = omega arith

abbrev entry : Entry
entry = record {
  timestamp = pos 7;
  action = "ingest_event";
  outcome = "success";
  actor_id = "sdk-demo";
  resource = "my-team/2026-01-01:e1";
  detail = "event_type=prompt";
  source_ip = "10.0.0.1";
  correlation_id = "";
  labels = [];
  previous_hash = genesis_hash;
  entry_hash = "ff";
  sequence_num = pos 1;
}

abbrev life : List Step
life =
    logged no_fault (pos 7) entry
    ∷ (logged (flush_fails none) (pos 8) entry ∷ (restarted ∷ (logged no_fault (pos 9) entry ∷ [])))

abbrev line : Line
line = record { content = some entry; size = 200; terminated = true }

abbrev forged : Entry
forged = record entry { previous_hash = "0b" }

verify-intact_iff_example :
    (verify toy background (pos 0) (line ∷ []) ≡ intact)
    ↔ Links toy (pos 0) genesis_hash (line ∷ [])
verify-intact_iff_example = verify-intact_iff toy 0 (line ∷ [])

links : Links toy (pos 0) genesis_hash (line ∷ [])
unfolding compute_hash too_long preimage decimal
links = (entry, refl, refl, inr (refl, refl), tt)

accepted : verify toy background (pos 0) (line ∷ []) ≡ intact
accepted = (verify-intact_iff toy 0 (line ∷ [])).1 links

none_skipped : NoneSkipped toy 0 (line ∷ [])
none_skipped = (λ e h low. ground arith, tt)

verify_tampered_example :
    verify toy background
      (pos 0)
      (record { content = some forged; size = 200; terminated = true } ∷ line ∷ [])
    ≡ broken (pos 1)
unfolding too_long
verify_tampered_example =
    verify_tampered toy (pos 0) [] genesis_hash (pos 0)
      (record { content = some forged; size = 200; terminated = true }) (line ∷ []) forged
      (refl, refl) refl refl (λ h. omega arith)
      (inl (λ h. ground (arith, eq_iff "0b" genesis_hash)))

verify-relabel_example :
    verify toy background (pos 0) (map (relabel toy "10.9.9.9" "x" []) (line ∷ []))
    ≡ verify toy background (pos 0) (line ∷ [])
verify-relabel_example = verify-relabel toy background (pos 0) "10.9.9.9" "x" [] (line ∷ [])

-- Another log, with another resource, that ends in the same toy hash.
abbrev other_line : Line
other_line = record line { content = some (record entry { resource = "my-team/2026-01-01:e2" }) }

other-Links : Links toy (pos 0) genesis_hash (other_line ∷ [])
unfolding compute_hash too_long preimage decimal
other-Links =
    (record entry { resource = "my-team/2026-01-01:e2" }, refl, refl, inr (refl, refl), tt)

other_accepted : verify toy background (pos 0) (other_line ∷ []) ≡ intact
other_accepted = (verify-intact_iff toy 0 (other_line ∷ [])).1 other-Links

other-NoneSkipped : NoneSkipped toy 0 (other_line ∷ [])
other-NoneSkipped = (λ e h low. ground arith, tt)

same_head_example :
    (covered toy (line ∷ []) ≡ covered toy (other_line ∷ []))
    ⊎ Collision toy (line ∷ []) (other_line ∷ [])
same_head_example =
    same_head toy (λ text. digest_plain (ltb 120 (length text))) 0 (line ∷ []) (other_line ∷ [])
      refl accepted other_accepted none_skipped other-NoneSkipped refl

compute_hash_ambiguous_example :
    compute_hash toy (record entry { actor_id = "a|b"; resource = "c" })
    ≡ compute_hash toy (record entry { actor_id = "a"; resource = "b|c" })
compute_hash_ambiguous_example = compute_hash_ambiguous toy entry "a" "b" "c"
