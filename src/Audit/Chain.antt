-- ===== src/Audit/Chain.antt =====
-- A well-linked audit log: what `Verify` and `resumeChain` of internal/audit/hashchain.go make of it.
use agent_transponder.Prelude.{
  ℕ, suc, String, ◌≡◌, refl, sym, subst₂, eq_iff, Bool, true, false, Option, none, some, List, [],
  ◌∷◌, ◌++◌, arith,
}
use agent_transponder.Prelude.Int.{ℤ, pos, inc64}
use agent_transponder.Audit.Entry.{Line, Entry, Hashing, compute_hash}
use agent_transponder.Audit.Sink.{
  genesis_hash, too_long, intact, last_entry, link_holds, verify_loop, verify, new_hash_chain_sink,
}

-- A context that is never cancelled.
abbrev pub background : ℕ → Bool
background k = false

module _ (hashing : Hashing) where
  -- The line holds this entry, linked to the hash and the number before it.
  pub record Linked (prev : String) (seq : ℤ) (line : Line) (e : Entry) : Type 0 where
    pub readable : line.content ≡ some e
    pub fits : too_long line ≡ false
    pub previous : e.previous_hash ≡ prev
    pub hashed : e.entry_hash ≡ compute_hash hashing e
    pub numbered : e.sequence_num ≡ inc64 seq

  -- Every line is linked to the one before it, from `prev` and `seq` on, up to `head` and `last`.
  abbrev pub Chain : String → ℤ → List Line → String → ℤ → Type 0
  Chain prev seq [] head last = (prev ≡ head) × (seq ≡ last)
  Chain prev seq (line ∷ lines) head last =
      (e : Entry) × Linked prev seq line e × Chain e.entry_hash e.sequence_num lines head last

  pub Chain-append :
      (prev : String) (seq : ℤ) (lines more : List Line) (mid : String) (n : ℤ) (head : String)
      (last : ℤ)
      → Chain prev seq lines mid n
      → Chain mid n more head last
      → Chain prev seq (lines ++ more) head last
  Chain-append prev seq [] more mid n head last (p, q) d =
      subst₂ (λ h k. Chain h k more head last) (sym p) (sym q) d
  Chain-append prev seq (line ∷ lines) more mid n head last (e, l, c) d =
      (e, l, Chain-append e.entry_hash e.sequence_num lines more mid n head last c d)

  pub link_holds-Linked :
      (prev : String) (seq : ℤ) (line : Line) (e : Entry)
      → Linked prev seq line e
      → link_holds hashing prev e ≡ true
  unfolding link_holds
  link_holds-Linked prev seq line e l =
      ground (arith, eq_iff e.previous_hash prev, eq_iff e.entry_hash (compute_hash hashing e))

  pub verify_loop-Chain :
      (from : ℤ) (k : ℕ) (prev : String) (seq seen : ℤ) (lines : List Line) (head : String)
      (last : ℤ)
      → Chain prev seq lines head last
      → verify_loop hashing background from k prev seen lines ≡ intact
  unfolding verify_loop
  verify_loop-Chain from k prev seq seen [] head last c = refl
  verify_loop-Chain from k prev seq seen (line ∷ lines) head last (e, l, c) = ground (
    arith,
    link_holds-Linked prev seq line e l,
    verify_loop-Chain from (suc k) e.entry_hash e.sequence_num e.sequence_num lines head last c,
  )

  -- What the sink resumes from, after the lines read so far.
  abbrev pub hash_after : Option Entry → String
  hash_after none = genesis_hash
  hash_after (some e) = e.entry_hash

  abbrev pub seq_after : Option Entry → ℤ
  seq_after none = pos 0
  seq_after (some e) = e.sequence_num

  pub last_entry-Chain :
      (found : Option Entry) (lines : List Line) (head : String) (last : ℤ)
      → Chain (hash_after found) (seq_after found) lines head last
      → ((last_entry found lines).1 ≡ false)
        × (hash_after (last_entry found lines).0 ≡ head)
        × (seq_after (last_entry found lines).0 ≡ last)
  unfolding last_entry
  last_entry-Chain found [] head last c = (refl, c.0, c.1)
  last_entry-Chain found (line ∷ lines) head last (e, l, c) =
      ground (arith, last_entry-Chain (some e) lines head last c)

  -- A chain from the genesis hash is resumed at its head.
  pub new_hash_chain_sink-Chain :
      (file : List Line) (head : String) (last : ℤ)
      → Chain genesis_hash (pos 0) file head last
      → new_hash_chain_sink file
        ≡ some (record { file = file; previous_hash = head; seq = last; writer_failed = false })
  unfolding new_hash_chain_sink
  new_hash_chain_sink-Chain file head last c =
      ground (arith, last_entry-Chain none file head last c)

  -- A chain from the genesis hash is intact to Verify, from whatever number on.
  pub verify-Chain :
      (from : ℤ) (file : List Line) (head : String) (last : ℤ)
      → Chain genesis_hash (pos 0) file head last
      → verify hashing background from file ≡ intact
  unfolding verify
  verify-Chain from file head last c =
      verify_loop-Chain from 0 genesis_hash (pos 0) (pos 0) file head last c
