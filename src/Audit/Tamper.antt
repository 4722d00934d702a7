-- ===== src/Audit/Tamper.antt =====
-- What `Verify` of internal/audit/hashchain.go detects, and what it cannot.
use agent_transponder.Prelude.{
  ℕ, suc, String, ◌≡◌, ◌≢◌, refl, sym, ◌↔◌, ◌⊎◌, inl, inr, eq_iff, Bool, true, false, some, List,
  [], ◌∷◌, ◌++◌, arith, map, subst, Bool-cases, Option-cases,
}
use mathlib.Core.Option
use agent_transponder.Prelude.Int.{ℤ, pos, ltb_ℤ, ◌<ℤ◌}
use agent_transponder.Prelude.Maps.{Map}
use agent_transponder.Audit.Entry.{Line, Entry, Hashing, compute_hash, preimage}
use agent_transponder.Audit.Sink.{
  genesis_hash, too_long, intact, broken, link_holds, verify_loop, verify,
}
use agent_transponder.Audit.Chain.{background, Chain}

module _ (hashing : Hashing) where
  -- Every line can be read, and each entry numbered `from` or above is linked to the hash of the
  -- entry before it and carries the hash of its own content.
  abbrev pub Links : ℤ → String → List Line → Type 0
  Links from prev [] = Unit
  Links from prev (line ∷ lines) =
      (e : Entry) × (line.content ≡ some e)
      × (too_long line ≡ false)
      × ((e.sequence_num <ℤ from)
          ⊎ ((e.previous_hash ≡ prev) × (e.entry_hash ≡ compute_hash hashing e)))
      × Links from e.entry_hash lines

  link_holds_iff :
      (prev : String) (e : Entry)
      → (link_holds hashing prev e ≡ true)
        ↔ ((e.previous_hash ≡ prev) × (e.entry_hash ≡ compute_hash hashing e))
  unfolding link_holds
  link_holds_iff prev e = (
    λ h. ground (arith, eq_iff e.previous_hash prev, eq_iff e.entry_hash (compute_hash hashing e)),
    λ h. ground (arith, eq_iff e.previous_hash prev, eq_iff e.entry_hash (compute_hash hashing e)),
  )

  Links→verify_loop :
      (from : ℤ) (k : ℕ) (prev : String) (seen : ℤ) (lines : List Line)
      → Links from prev lines
      → verify_loop hashing background from k prev seen lines ≡ intact
  unfolding verify_loop
  Links→verify_loop from k prev seen [] h = refl
  Links→verify_loop from k prev seen (line ∷ lines) (e, readable, fits, link, rest) = ground (
    arith,
    (link_holds_iff prev e).1,
    Links→verify_loop from (suc k) e.entry_hash e.sequence_num lines rest,
  )

  -- One round of the loop on a readable line, with the rest shut.
  round-Links :
      (n : ℕ) (k : ℕ) (prev : String) (seen : ℤ) (line : Line) (lines : List Line) (e : Entry)
      → line.content ≡ some e
      → verify_loop hashing background (pos n) k prev seen (line ∷ lines) ≡ intact
      → (too_long line ≡ false)
        × ((e.sequence_num <ℤ pos n)
            ⊎ ((e.previous_hash ≡ prev) × (e.entry_hash ≡ compute_hash hashing e)))
        × (verify_loop hashing background (pos n) (suc k) e.entry_hash e.sequence_num lines
            ≡ intact)
  unfolding verify_loop
  round-Links n k prev seen line lines e readable h = ground (arith, (link_holds_iff prev e).0)

  verify_loop→Links :
      (n : ℕ) (k : ℕ) (prev : String) (seen : ℤ) (lines : List Line)
      → verify_loop hashing background (pos n) k prev seen lines ≡ intact
      → Links (pos n) prev lines
  unfolding verify_loop
  verify_loop→Links n k prev seen [] h = tt
  verify_loop→Links n k prev seen (line ∷ lines) h = elim (Option-cases line.content) [
    | inl unreadable ↦ absurd (ground arith)
    | inr (e, readable) ↦
        let (fits, link, rest) = round-Links n k prev seen line lines e readable h in
        (
          e,
          readable,
          fits,
          link,
          verify_loop→Links n (suc k) e.entry_hash e.sequence_num lines rest,
        )
  ]

  -- Verify from a number that is not negative finds a file intact exactly when every line can be
  -- read and every entry with that number or a higher one is linked to the hash of the entry
  -- before it and carries the hash of its own content.
  pub verify-intact_iff :
      (n : ℕ) (file : List Line)
      → (verify hashing background (pos n) file ≡ intact) ↔ Links (pos n) genesis_hash file
  unfolding verify
  verify-intact_iff n file = (
    verify_loop→Links n 0 genesis_hash (pos 0) file,
    Links→verify_loop (pos n) 0 genesis_hash (pos 0) file,
  )

  tampered_loop :
      (from : ℤ) (k : ℕ) (prev : String) (seq seen : ℤ) (before : List Line) (head : String)
      (last : ℤ) (line : Line) (after : List Line) (e : Entry)
      → Chain hashing prev seq before head last
      → line.content ≡ some e
      → too_long line ≡ false
      → ltb_ℤ e.sequence_num from ≡ false
      → link_holds hashing head e ≡ false
      → verify_loop hashing background from k prev seen (before ++ line ∷ after)
        ≡ broken e.sequence_num
  unfolding verify_loop
  tampered_loop from k prev seq seen [] head last line after e c readable fits high bad =
      let b : link_holds hashing prev e ≡ false =
        subst (λ p. link_holds hashing p e ≡ false) (sym c.0) bad in
      ground arith
  tampered_loop from k prev seq seen (x ∷ before) head last line after e (d, l, c) readable fits
        high bad =
      ground (
        arith,
        (link_holds_iff prev d).1 (l.previous, l.hashed),
        tampered_loop from (suc k) d.entry_hash d.sequence_num d.sequence_num before head last line
            after e c readable fits high bad,
      )

  -- After lines that form a chain, an entry that is not skipped, and is not linked to the head of
  -- that chain or does not carry the hash of its content, is reported by its number as the first
  -- broken link, whatever lines follow.
  pub verify_tampered :
      (from : ℤ) (before : List Line) (head : String) (last : ℤ) (line : Line) (after : List Line)
      (e : Entry)
      → Chain hashing genesis_hash (pos 0) before head last
      → line.content ≡ some e
      → too_long line ≡ false
      → ¬ (e.sequence_num <ℤ from)
      → (e.previous_hash ≢ head) ⊎ (e.entry_hash ≢ compute_hash hashing e)
      → verify hashing background from (before ++ line ∷ after) ≡ broken e.sequence_num
  unfolding verify
  verify_tampered from before head last line after e c readable fits high bad =
      tampered_loop from 0 genesis_hash (pos 0) (pos 0) before head last line after e c readable
        fits (ground arith)
        (ground (arith, (link_holds_iff head e).0, Bool-cases (link_holds hashing head e)))

  -- The fields that the hash leaves out, of the entry on a line.
  abbrev pub relabel : String → String → Map String → Line → Line
  relabel ip id labels line = record line {
    content =
        Option.map
          (λ (e : Entry). record e { source_ip = ip; correlation_id = id; labels = labels })
          line.content;
  }

  relabel_loop :
      (done : ℕ → Bool) (from : ℤ) (k : ℕ) (prev : String) (seen : ℤ) (ip id : String)
      (labels : Map String) (lines : List Line)
      → verify_loop hashing done from k prev seen (map (relabel ip id labels) lines)
        ≡ verify_loop hashing done from k prev seen lines
  unfolding verify_loop too_long link_holds compute_hash preimage
  relabel_loop done from k prev seen ip id labels [] = refl
  relabel_loop done from k prev seen ip id labels (line ∷ lines) =
      elim (Option-cases line.content) [
        | inl unreadable ↦ ground arith
        | inr (e, readable) ↦
            ground
              (arith, relabel_loop done from (suc k) e.entry_hash e.sequence_num ip id labels lines)
      ]

  -- Verify does not depend on the source address, the correlation ID and the labels of an entry:
  -- they can all be rewritten, and its verdict on the file stays the same.
  pub verify-relabel :
      (done : ℕ → Bool) (from : ℤ) (ip id : String) (labels : Map String) (file : List Line)
      → verify hashing done from (map (relabel ip id labels) file) ≡ verify hashing done from file
  unfolding verify
  verify-relabel done from ip id labels file =
      relabel_loop done from 0 genesis_hash (pos 0) ip id labels file
