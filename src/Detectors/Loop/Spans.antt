-- ===== src/Detectors/Loop/Spans.antt =====
-- The slices and the inner loop of internal/analyzer/detectors/loop.go: a window that repeats.
use agent_transponder.Prelude.{
  ℕ, zero, suc, ◌+◌, ◌-◌, ◌*◌, ◌≤◌, ◌<◌, ◌≡◌, refl, sym, ap, ap₂, ◌∙◌, String, ◌==◌, eq_iff, true,
  some, List, [], ◌∷◌, ◌++◌, length, take, drop, get_elem?, leb, leb→le, &&-split, append_assoc,
  append_nil, arith,
}
use native.Mathlib.Numerals.{unary_clauses}
use agent_transponder.Prelude.Loops.{while_lem, IsEnd, IsRound}
use agent_transponder.Detectors.Loop.{slice, slice_eq, repeats, count_reps}

pub slice_within :
    {A : Type 0} (i j : ℕ) (xs : List A)
    → i ≤ j
    → j ≤ length xs
    → slice i j xs ≡ some (take (j - i) (drop i xs))
unfolding slice
slice_within i j xs h k = ground (arith, h, k)

module _ {ℓ} {A : Type ℓ} where
  pub take_add : (a b : ℕ) (xs : List A) → take (a + b) xs ≡ take a xs ++ take b (drop a xs)
  take_add zero b xs = let e : 0 + b ≡ b = omega arith in ap (λ k. take k xs) e
  take_add (suc a) zero [] = simp unary_clauses refl
  take_add (suc a) (suc b) [] = simp unary_clauses refl
  take_add (suc a) b (x ∷ xs) =
      let e : suc a + b ≡ suc (a + b) = omega arith in
      ap (λ k. take k (x ∷ xs)) e ∙ ap (λ l. x ∷ l) (take_add a b xs)

  pub drop-drop : (i a : ℕ) (xs : List A) → drop a (drop i xs) ≡ drop (i + a) xs
  drop-drop zero a xs = let e : a ≡ 0 + a = omega arith in ap (λ k. drop k xs) e
  drop-drop (suc i) zero [] = simp unary_clauses refl
  drop-drop (suc i) (suc a) [] = simp unary_clauses refl
  drop-drop (suc i) a (x ∷ xs) =
      let e : suc (i + a) ≡ suc i + a = omega arith in
      drop-drop i a xs ∙ ap (λ k. drop k (x ∷ xs)) e

  -- The element at i begins what is left from i on.
  pub drop-get_elem? :
      (i k : ℕ) (xs : List A)
      → i < length xs
      → (x : A) × (rest : List A) × (get_elem? xs i ≡ some x)
        × (take (suc k) (drop i xs) ≡ x ∷ rest)
  drop-get_elem? i k [] h = absurd (omega (arith, h))
  drop-get_elem? zero k (x ∷ xs) h = (x, take k xs, refl, refl)
  drop-get_elem? (suc i) k (x ∷ xs) h = drop-get_elem? i k xs (omega (arith, h))

  -- A list k times in a row.
  unfoldable pub repeated : ℕ → List A → List A
  repeated zero window = []
  repeated (suc k) window = window ++ repeated k window

  pub repeated-suc :
      (k : ℕ) (window : List A) → repeated k window ++ window ≡ repeated (suc k) window
  unfolding repeated
  repeated-suc zero window = sym (append_nil window)
  repeated-suc (suc k) window =
      append_assoc window (repeated k window) window ∙ ap (λ l. window ++ l) (repeated-suc k window)

  pub repeated_once : (window : List A) → window ≡ repeated 1 window
  unfolding repeated
  repeated_once window = sym (append_nil window)

pub product_positive : (a b : ℕ) → 1 ≤ a → 1 ≤ b → 1 ≤ a * b
product_positive zero b h k = absurd (omega (arith, h))
product_positive (suc a) zero h k = absurd (omega (arith, k))
product_positive (suc a) (suc b) h k = omega arith

pub product_more : (a b : ℕ) → 1 ≤ b → a ≤ a * b
product_more a zero h = absurd (omega (arith, h))
product_more a (suc b) h = omega arith

pub slice_eq→eq : (a b : List String) → slice_eq a b ≡ true → a ≡ b
unfolding slice_eq
slice_eq→eq [] [] h = refl
slice_eq→eq [] (y ∷ b) h = absurd (ground arith)
slice_eq→eq (x ∷ a) [] h = absurd (ground arith)
slice_eq→eq (x ∷ a) (y ∷ b) h =
    let (first, rest) = &&-split (x == y) (slice_eq a b) h in
    ap₂ (λ z l. z ∷ l) (ground (arith, first, eq_iff x y)) (slice_eq→eq a b rest)

-- `reps` repetitions from i on, up to j.
pub record IsRun (names : List String) (i seq_len : ℕ) (p : ℕ × ℕ) : Type 0 where
  pub some_reps : 1 ≤ p.0
  pub at : p.1 ≡ i + seq_len * p.0
  pub inside : p.1 ≤ length names
  pub same : take (seq_len * p.0) (drop i names) ≡ repeated p.0 (take seq_len (drop i names))

module _ (names : List String) (i seq_len : ℕ) (long : 1 ≤ seq_len) where
  abbrev window : List String
  window = take seq_len (drop i names)

  longer :
      (reps j : ℕ)
      → IsRun names i seq_len (reps, j)
      → take seq_len (drop j names) ≡ window
      → take (seq_len * suc reps) (drop i names) ≡ repeated (suc reps) window
  longer reps j h e =
      let more : seq_len * suc reps ≡ seq_len * reps + seq_len = omega arith in
      ap (λ k. take k (drop i names)) more
      ∙ take_add (seq_len * reps) seq_len (drop i names)
      ∙ ap₂ (λ a b. a ++ b) h.same
          (ap (take seq_len)
              (drop-drop i (seq_len * reps) names ∙ ap (λ k. drop k names) (sym h.at))
            ∙ e)
      ∙ repeated-suc reps window

  keep :
      (p : ℕ × ℕ)
      → IsRun names i seq_len p
      → repeats names window seq_len p ≡ true
      → IsRound (IsRun names i seq_len) (λ q. length names - q.1) p (some (suc p.0, p.1 + seq_len))
  unfolding repeats
  keep (reps, j) h t =
      let (fits, same) =
        &&-split (leb (j + seq_len) (length names)) (slice_eq (take seq_len (drop j names)) window)
          t in
      let fits' : j + seq_len ≤ length names = leb→le (j + seq_len) (length names) fits in
      record {
        next = (suc reps, j + seq_len);
        returns = refl;
        kept = record {
          some_reps = omega arith;
          at = omega (arith, h.at);
          inside = fits';
          same = longer reps j h (slice_eq→eq (take seq_len (drop j names)) window same);
        };
        less = omega (arith, fits', long);
      }

  -- The inner loop ends with such a run.
  pub count_reps-IsRun :
      i + seq_len ≤ length names
      → IsEnd
          (IsRun names i seq_len)
          (repeats names window seq_len)
          (count_reps names window seq_len i)
  unfolding count_reps
  count_reps-IsRun h =
      while_lem (IsRun names i seq_len) (λ q. length names - q.1) (repeats names window seq_len)
        (λ (reps, j). some (suc reps, j + seq_len)) (λ p k t. keep p k t) (suc (length names))
        (1, i + seq_len) (omega arith)
        (record {
          some_reps = omega arith;
          at = omega arith;
          inside = h;
          same = ap (λ k. take k (drop i names)) (omega arith) ∙ repeated_once window;
        })
