-- ===== src/Audit/Commit.antt =====
-- What the head hash of the log of internal/audit/hashchain.go commits to, and where the text that
-- is hashed is ambiguous.
use agent_transponder.Prelude.{
  ℕ, zero, suc, ◌+◌, ◌/◌, ◌%◌, String, str_append, ◌≡◌, ◌≢◌, refl, sym, subst, ap, ap₂, ◌∙◌, ◌⊎◌,
  inl, inr, Option, none, some, List, [], ◌∷◌, ◌++◌, arith, ltb, length, All, Bool, true, false,
  if◌then◌else◌,
}
use mathlib.Core.Option
use agent_transponder.Prelude.Int.{ℤ, pos, negsuc, ◌<ℤ◌}
use agent_transponder.Prelude.Text.{codes, codes-injective, codes-append}
use agent_transponder.Audit.Entry.{
  Line, Entry, Hashing, bar, digits_before, decimal, preimage, compute_hash,
}
use agent_transponder.Audit.Sink.{genesis_hash, intact, verify}
use agent_transponder.Audit.Chain.{background}
use agent_transponder.Audit.Tamper.{Links, verify-intact_iff}
use mathlib.Core.List.{append_assoc}
use native.Mathlib.Decide.{ℕ_discrete}

abbrev NoBar : List ℕ → Type 0
NoBar = All (λ c. c ≢ bar)

-- The text up to the first bar is determined.
split_at_bar :
    (xs ys : List ℕ) (r s : List ℕ)
    → NoBar xs
    → NoBar ys
    → xs ++ bar ∷ r ≡ ys ++ bar ∷ s
    → (xs ≡ ys) × (r ≡ s)
split_at_bar [] [] r s h k e = (refl, cc)
split_at_bar [] (y ∷ ys) r s h k e = absurd (k.0 (cc))
split_at_bar (x ∷ xs) [] r s h k e = absurd (h.0 (cc))
split_at_bar (x ∷ xs) (y ∷ ys) r s h k e =
    let (p, q) = split_at_bar xs ys r s h.1 k.1 (cc) in (cc, q)

if-NoBar :
    (b : Bool) (xs ys : List ℕ) → (b ≡ true → NoBar xs) → NoBar ys → NoBar (if b then xs else ys)
if-NoBar true xs ys h k = h refl
if-NoBar false xs ys h k = k

digits_before-NoBar : (fuel n : ℕ) (rest : List ℕ) → NoBar rest → NoBar (digits_before fuel n rest)
unfolding digits_before
digits_before-NoBar zero n rest h = h
digits_before-NoBar (suc fuel) n rest h =
    if-NoBar (ltb n 10) _ _ (λ small. (ground arith, h))
      (digits_before-NoBar fuel (n / 10) ((b'0' + n % 10) ∷ rest) (omega arith, h))

decimal-NoBar : (n : ℤ) → NoBar (decimal n)
unfolding decimal
decimal-NoBar (pos n) = digits_before-NoBar (suc n) n [] tt
decimal-NoBar (negsuc n) = (omega arith, digits_before-NoBar (suc (suc n)) (suc n) [] tt)

genesis_hash-NoBar : NoBar (codes genesis_hash)
genesis_hash-NoBar = omega arith

text-discrete : Discrete (List ℕ)
text-discrete = hlevel ℕ_discrete

shift_bar :
    (a b c : String) (rest : List ℕ)
    → codes (str_append a (str_append "|" b)) ++ (bar ∷ (codes c ++ (bar ∷ rest)))
      ≡ codes a ++ (bar ∷ (codes (str_append b (str_append "|" c)) ++ (bar ∷ rest)))
shift_bar a b c rest = simp (codes-append, append_assoc)

-- The last entry hash of the lines, or the hash before them.
abbrev pub head_hash : String → List Line → String
head_hash prev [] = prev
head_hash prev (line ∷ lines) =
    head_hash (elim line.content [ none ↦ prev | some e ↦ e.entry_hash ]) lines

head_hash-cons :
    (p : String) (x : Line) (xs : List Line) (d : Entry)
    → x.content ≡ some d
    → head_hash p (x ∷ xs) ≡ head_hash d.entry_hash xs
head_hash-cons p x xs d h =
    ap (λ (o : Option Entry). head_hash (elim o [ none ↦ p | some e ↦ e.entry_hash ]) xs) h

-- One of the lines holds this entry.
abbrev pub Holds : Entry → List Line → Type 0
Holds e [] = ⊥
Holds e (line ∷ lines) = (line.content ≡ some e) ⊎ Holds e lines

module _ (hashing : Hashing) where
  open hashing use {sha256_hex}

  -- An entry of the one file and an entry of the other that differ in the text that is hashed, and
  -- carry the same hash of it.
  pub record Collision (xs ys : List Line) : Type 0 where
    pub d : Entry
    pub e : Entry
    pub in_first : Holds d xs
    pub in_second : Holds e ys
    pub differ : preimage hashing d ≢ preimage hashing e
    pub same_hash : compute_hash hashing d ≡ compute_hash hashing e
    pub carried : d.entry_hash ≡ e.entry_hash

  later_Collision : (x y : Line) (xs ys : List Line) → Collision xs ys → Collision (x ∷ xs) (y ∷ ys)
  later_Collision x y xs ys c = record {
    d = c.d;
    e = c.e;
    in_first = inr c.in_first;
    in_second = inr c.in_second;
    differ = c.differ;
    same_hash = c.same_hash;
    carried = c.carried;
  }

  -- What the hashes of the entries cover, line by line.
  abbrev pub covered : List Line → List (Option (List ℕ))
  covered [] = []
  covered (line ∷ lines) = Option.map (preimage hashing) line.content ∷ covered lines

  -- No entry is below the number that Verify starts from.
  abbrev pub NoneSkipped : ℕ → List Line → Type 0
  NoneSkipped n =
      All (λ (line : Line). (e : Entry) → line.content ≡ some e → ¬ (e.sequence_num <ℤ pos n))

  same_previous :
      (d e : Entry)
      → NoBar (codes d.previous_hash)
      → NoBar (codes e.previous_hash)
      → preimage hashing d ≡ preimage hashing e
      → d.previous_hash ≡ e.previous_hash
  unfolding preimage
  same_previous d e h k p =
      let (numbers, rest) =
        split_at_bar (decimal d.sequence_num) (decimal e.sequence_num) _ _
          (decimal-NoBar d.sequence_num) (decimal-NoBar e.sequence_num) p in
      let (hashes, rest') =
        split_at_bar (codes d.previous_hash) (codes e.previous_hash) _ _ h k rest in
      codes-injective d.previous_hash e.previous_hash hashes

  module _ (hex : (x : List ℕ) → NoBar (codes (sha256_hex x))) (n : ℕ) where
    hash-NoBar : (e : Entry) → e.entry_hash ≡ compute_hash hashing e → NoBar (codes e.entry_hash)
    unfolding compute_hash
    hash-NoBar e h = subst (λ t. NoBar (codes t)) (sym h) (hex (preimage hashing e))

    -- One line more at the front of two logs.
    extend :
        (p q : String) (x y : Line) (xs ys : List Line) (d e : Entry)
        → NoBar (codes p)
        → NoBar (codes q)
        → x.content ≡ some d
        → y.content ≡ some e
        → d.previous_hash ≡ p
        → e.previous_hash ≡ q
        → d.entry_hash ≡ compute_hash hashing d
        → e.entry_hash ≡ compute_hash hashing e
        → ((d.entry_hash ≡ e.entry_hash) × (covered xs ≡ covered ys)) ⊎ Collision xs ys
        → ((p ≡ q) × (covered (x ∷ xs) ≡ covered (y ∷ ys))) ⊎ Collision (x ∷ xs) (y ∷ ys)
    unfolding compute_hash
    extend p q x y xs ys d e bp bq dr er dp ep dh eh (inr collision) =
        inr (later_Collision x y xs ys collision)
    extend p q x y xs ys d e bp bq dr er dp ep dh eh (inl (hashes, rest)) =
        elim (text-discrete (preimage hashing d) (preimage hashing e)) [
          | yes same ↦ inl (
            sym dp
                ∙ same_previous d e (subst (λ t. NoBar (codes t)) (sym dp) bp)
                    (subst (λ t. NoBar (codes t)) (sym ep) bq) same
                ∙ ep,
            ap₂ ◌∷◌
                (ap (Option.map (preimage hashing)) dr
                  ∙ ap some same
                  ∙ sym (ap (Option.map (preimage hashing)) er))
                rest,
          )
          | no differ ↦ inr (record {
            d = d;
            e = e;
            in_first = inl dr;
            in_second = inl er;
            differ = differ;
            same_hash = sym dh ∙ hashes ∙ eh;
            carried = hashes;
          })
        ]

    commit_loop :
        (p q : String) (xs ys : List Line)
        → NoBar (codes p)
        → NoBar (codes q)
        → length xs ≡ length ys
        → Links hashing (pos n) p xs
        → Links hashing (pos n) q ys
        → NoneSkipped n xs
        → NoneSkipped n ys
        → head_hash p xs ≡ head_hash q ys
        → ((p ≡ q) × (covered xs ≡ covered ys)) ⊎ Collision xs ys
    commit_loop p q [] [] bp bq same lx ly sx sy heads = inl (heads, refl)
    commit_loop p q [] (y ∷ ys) bp bq same lx ly sx sy heads = absurd (omega arith)
    commit_loop p q (x ∷ xs) [] bp bq same lx ly sx sy heads = absurd (omega arith)
    commit_loop p q (x ∷ xs) (y ∷ ys) bp bq same (d, dr, _, inl low, _) ly sx sy heads =
        absurd (sx.0 d dr low)
    commit_loop p q (x ∷ xs) (y ∷ ys) bp bq same (d, dr, _, inr dl, lx) (e, er, _, inl low, ly) sx
          sy heads =
        absurd (sy.0 e er low)
    commit_loop p q (x ∷ xs) (y ∷ ys) bp bq same (d, dr, df, inr (dp, dh), lx)
          (e, er, ef, inr (ep, eh), ly) sx sy heads =
        extend p q x y xs ys d e bp bq dr er dp ep dh eh (
          commit_loop d.entry_hash e.entry_hash xs ys (hash-NoBar d dh) (hash-NoBar e eh)
            (omega arith) lx ly sx.1 sy.1
            (sym (head_hash-cons p x xs d dr) ∙ heads ∙ head_hash-cons q y ys e er))

    -- Two files with equally many lines that Verify finds intact, skipping no entry, and that end
    -- in the same hash: line by line their hashes cover the same text, so that they agree in all
    -- that is hashed; or else an entry of the one file and an entry of the other differ in the text
    -- that is hashed and carry the same hash of it. The hash's hexadecimal text is taken to hold no
    -- vertical bar.
    pub same_head :
        (xs ys : List Line)
        → length xs ≡ length ys
        → verify hashing background (pos n) xs ≡ intact
        → verify hashing background (pos n) ys ≡ intact
        → NoneSkipped n xs
        → NoneSkipped n ys
        → head_hash genesis_hash xs ≡ head_hash genesis_hash ys
        → (covered xs ≡ covered ys) ⊎ Collision xs ys
    same_head xs ys same vx vy sx sy heads =
        elim (commit_loop genesis_hash genesis_hash xs ys genesis_hash-NoBar genesis_hash-NoBar same
          ((verify-intact_iff hashing n xs).0 vx) ((verify-intact_iff hashing n ys).0 vy) sx sy
          heads) [ inl agree ↦ inl agree.1 | inr collision ↦ inr collision ]

  -- The bars between the fields are not escaped: an actor `a|b` that acts on `c` and an actor `a`
  -- that acts on `b|c` have the same hash, whatever the hash function and the other fields.
  pub compute_hash_ambiguous :
      (e : Entry) (a b c : String)
      → compute_hash hashing (record e { actor_id = str_append a (str_append "|" b); resource = c })
        ≡ compute_hash hashing
            (record e { actor_id = a; resource = str_append b (str_append "|" c) })
  unfolding compute_hash preimage
  compute_hash_ambiguous e a b c =
      ap
        (λ tail. sha256_hex (
          decimal e.sequence_num
          ++ (bar
              ∷ (codes e.previous_hash
                  ++ (bar
                      ∷ (hashing.rfc3339_nano e.timestamp
                          ++ (bar
                              ∷ (codes e.action ++ (bar ∷ (codes e.outcome ++ (bar ∷ tail)))))))))))
        (shift_bar a b c (codes e.detail))
