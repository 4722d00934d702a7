-- ===== src/Detectors/Loop/Silent.antt =====
-- What the search of internal/analyzer/detectors/loop.go passes over without a report.
use agent_transponder.Prelude.{
  ℕ, suc, ◌+◌, ◌*◌, ◌/◌, ◌≤◌, ◌<◌, ◌≡◌, refl, sym, subst, ap, ◌∙◌, String, eq_iff, Bool-cases, inl,
  inr, true, false, if_ind, some, List, [], ◌∷◌, length, take, drop, get_elem?, any, leb, eqb, ltb,
  ◌-◌, ◌&&◌, arith,
}
use native.Mathlib.Nat.{mul-le-mul_left, mul-le-mul_right, le-div_iff_mul-le}
use agent_transponder.Prelude.Float.{Float}
use agent_transponder.Prelude.Loops.{while_kept, some_injective, bind-some_split}
use agent_transponder.Types.Event.{Event}
use agent_transponder.Detectors.Finding.{Finding, has, put}
use agent_transponder.Detectors.Loop.{
  LoopDetector, LoopSession, Search, slice, slice_eq, repeats, count_reps, report, report_at,
  examine, visit_window, visit, in_range, scan, within_max_len, detect_loops,
}

-- A window of the names that repeats `reps` times from i on.
pub record IsRepeated (names : List String) (reps i seq_len : ℕ) : Type 0 where
  pub inside : i + seq_len * reps ≤ length names
  pub same :
      (k : ℕ) → k < reps → take seq_len (drop (i + seq_len * k) names) ≡ take seq_len (drop i names)

slice_eq_refl : (a : List String) → slice_eq a a ≡ true
unfolding slice_eq
slice_eq_refl [] = refl
slice_eq_refl (x ∷ a) = ground (arith, slice_eq_refl a, eq_iff x x)

-- The inner loop stops where the window does not follow.
count_reps_stop :
    (names window : List String) (seq_len i : ℕ) (p : ℕ × ℕ)
    → count_reps names window seq_len i ≡ some p
    → (p.1 ≡ i + seq_len * p.0) × (repeats names window seq_len p ≡ false)
unfolding count_reps
count_reps_stop names window seq_len i p e =
    while_kept (λ (q : ℕ × ℕ). q.1 ≡ i + seq_len * q.0) (repeats names window seq_len)
      (λ (reps, j). some (suc reps, j + seq_len))
      (λ (reps, j) (reps', j') h t k.
        let same = some_injective (suc reps, j + seq_len) (reps', j') k in
        subst (λ (q : ℕ × ℕ). q.1 ≡ i + seq_len * q.0) same (omega (arith, h)))
      (suc (length names)) (1, i + seq_len) p e (omega arith)

-- So the window is not repeated more often than it was counted.
window_stops :
    (names : List String) (m seq_len i reps j : ℕ)
    → j ≡ i + seq_len * reps
    → repeats names (take seq_len (drop i names)) seq_len (reps, j) ≡ false
    → reps < m
    → ¬ IsRepeated names m i seq_len
unfolding repeats
window_stops names m seq_len i reps j at stop few h =
    let window = take seq_len (drop i names) in
    let next : take seq_len (drop j names) ≡ window =
      ap (λ k. take seq_len (drop k names)) at ∙ h.same reps few in
    let fits : j + seq_len ≤ length names =
      omega (arith, at, h.inside, mul-le-mul_left {m = suc reps} {n = m} seq_len few) in
    let equal : slice_eq (take seq_len (drop j names)) window ≡ true =
      ap (λ l. slice_eq l window) next ∙ slice_eq_refl window in
    ground (arith, stop, equal, fits)

sliced :
    (i seq_len : ℕ) (xs window : List String)
    → slice i (i + seq_len) xs ≡ some window
    → window ≡ take seq_len (drop i xs)
unfolding slice
sliced i seq_len xs window e =
    if_ind (λ r. r ≡ some window → window ≡ take seq_len (drop i xs))
      (leb i (i + seq_len) && leb (i + seq_len) (length xs))
      (λ t k.
        sym (some_injective (take (i + seq_len - i) (drop i xs)) window k)
        ∙ ap (λ n. take n (drop i xs)) (omega arith))
      (λ t k. absurd (ground arith)) e

put_ne_nil : (k : String) (xs : List String) → ¬ (put k xs ≡ [])
put_ne_nil k [] e = ground arith
put_ne_nil k (x ∷ xs) e =
    if_ind (λ l. ¬ (l ≡ [])) (has k (x ∷ xs)) (λ t e'. ground arith) (λ t e'. ground arith) e

module _ (fl : Float) (d : LoopDetector) (event : Event) (sess : LoopSession) where
  open fl use {F}

  abbrev names : List String
  names = sess.tool_names

  -- A search that has emitted nothing has passed over no repeated window of a length below seq_len.
  abbrev pub IsQuiet : ℕ × Search fl → Type 0
  IsQuiet (seq_len, s) =
      s.emitted ≡ []
      → (s.reported ≡ [])
        × ((i len : ℕ) → d.min_seq_len ≤ len → len < seq_len → ¬ IsRepeated names d.min_reps i len)

  -- Nor one of the length seq_len before the position i.
  abbrev IsQuietTo : ℕ → ℕ × Search fl → Type 0
  IsQuietTo seq_len (i, s) =
      IsQuiet (seq_len, s)
      × (s.emitted ≡ [] → (k : ℕ) → k < i → ¬ IsRepeated names d.min_reps k seq_len)

  report_at-emits :
      (seq_len i : ℕ) (window : List String) (reps : ℕ) (s : Search fl) (q : ℕ × Search fl)
      → report_at fl d event sess seq_len i window reps s ≡ some q
      → ¬ (q.1.emitted ≡ [])
  unfolding report_at report
  report_at-emits seq_len i window reps s q e nil =
      let (involved, _, e') = bind-some_split (slice i (i + seq_len * reps) sess.event_ids) _ q e in
      let (key, _, e'') = bind-some_split (get_elem? sess.event_ids i) _ q e' in
      put_ne_nil key s.emitted
        (ap (λ (p : ℕ × Search fl). p.1.emitted) (some_injective _ q e'') ∙ nil)

  -- Once something is emitted, nothing more is claimed.
  loud : (seq_len : ℕ) (q : ℕ × Search fl) → ¬ (q.1.emitted ≡ []) → IsQuietTo seq_len q
  loud seq_len (i, s) h = (λ nil. absurd (h nil), λ nil. absurd (h nil))

  passed :
      (seq_len i : ℕ) (s : Search fl)
      → IsQuietTo seq_len (i, s)
      → ¬ IsRepeated names d.min_reps i seq_len
      → IsQuietTo seq_len (suc i, s)
  passed seq_len i s h absent = (
    h.0,
    λ nil k less r. elim (Bool-cases (eqb k i)) [
      | inl t ↦
          let same : k ≡ i = ground arith in
          absent (subst (λ x. IsRepeated names d.min_reps x seq_len) same r)
      | inr t ↦ h.1 nil k (ground arith) r
    ],
  )

  examine-IsQuietTo :
      (seq_len i reps j : ℕ) (s : Search fl) (q : ℕ × Search fl)
      → j ≡ i + seq_len * reps
      → repeats names (take seq_len (drop i names)) seq_len (reps, j) ≡ false
      → IsQuietTo seq_len (i, s)
      → examine fl d event sess seq_len i (take seq_len (drop i names)) reps s ≡ some q
      → IsQuietTo seq_len q
  unfolding examine
  examine-IsQuietTo seq_len i reps j s q at stop h e =
      if_ind (λ r. r ≡ some q → IsQuietTo seq_len q) (leb d.min_reps reps)
        (λ t k. loud seq_len q (report_at-emits seq_len i (take seq_len (drop i names)) reps s q k))
        (λ t k. subst (IsQuietTo seq_len) (some_injective (suc i, s) q k) (
          passed seq_len i s h
            (window_stops names d.min_reps seq_len i reps j at stop (ground arith))))
        e

  visit_window-IsQuietTo :
      (seq_len i : ℕ) (s : Search fl) (q : ℕ × Search fl)
      → IsQuietTo seq_len (i, s)
      → visit_window fl d event sess seq_len i s ≡ some q
      → IsQuietTo seq_len q
  unfolding visit_window
  visit_window-IsQuietTo seq_len i s q h e =
      let (window, cut, e') = bind-some_split (slice i (i + seq_len) names) _ q e in
      let (p, counted, e'') = bind-some_split (count_reps names window seq_len i) _ q e' in
      let (at, stop) = count_reps_stop names window seq_len i p counted in
      let same = sliced i seq_len names window cut in
      examine-IsQuietTo seq_len i p.0 p.1 s q at
        (subst (λ w. repeats names w seq_len p ≡ false) same stop) h
        (subst (λ w. examine fl d event sess seq_len i w p.0 s ≡ some q) same e'')

  visit-IsQuietTo :
      (seq_len : ℕ) (p q : ℕ × Search fl)
      → IsQuietTo seq_len p
      → in_range fl d sess seq_len p ≡ true
      → visit fl d event sess seq_len p ≡ some q
      → IsQuietTo seq_len q
  unfolding visit
  visit-IsQuietTo seq_len (i, s) q h t e =
      if_ind (λ r. r ≡ some q → IsQuietTo seq_len q) (any (eqb i) s.reported)
        (λ u k.
          subst (IsQuietTo seq_len) (some_injective (suc i, s) q k)
            (h.0, λ nil. absurd (ground (arith, u, (h.0 nil).0))))
        (λ u k. visit_window-IsQuietTo seq_len i s q h k) e

  scan-IsQuiet :
      (p q : ℕ × Search fl)
      → IsQuiet p
      → within_max_len fl d sess p ≡ true
      → scan fl d event sess p ≡ some q
      → IsQuiet q
  unfolding scan in_range
  scan-IsQuiet (seq_len, s) q h t e =
      let ((i, s'), looped, e') = bind-some_split _ _ q e in
      let ((quiet, before), out) =
        while_kept (IsQuietTo seq_len) (in_range fl d sess seq_len) (visit fl d event sess seq_len)
          (visit-IsQuietTo seq_len) (suc (suc (length names))) (0, s) (i, s') looped
          (h, λ nil k less. absurd (omega (arith, less))) in
      subst IsQuiet (some_injective (suc seq_len, s') q e') (λ nil. (
        (quiet nil).0,
        λ k len long less r. elim (Bool-cases (eqb len seq_len)) [
          | inl u ↦
              let same : len ≡ seq_len = ground arith in
              let r' = subst (IsRepeated names d.min_reps k) same r in
              before nil k (ground (arith, out, r'.inside)) r'
          | inr u ↦ (quiet nil).1 k len long (ground arith) r
        ],
      ))

  -- A search that ends with nothing emitted has not passed over a loop.
  pub detect_loops_quiet :
      (sess' : LoopSession) (findings : List (Finding F))
      → 1 ≤ d.min_reps
      → detect_loops fl d event sess ≡ some (sess', findings)
      → (sess'.tool_names ≡ names)
        × (sess'.emitted_start_ids ≡ []
            → (i len : ℕ) → d.min_seq_len ≤ len
            → ¬ IsRepeated names d.min_reps i len)
  unfolding detect_loops within_max_len
  detect_loops_quiet sess' findings many e =
      let Goal : LoopSession × List (Finding F) → Type 0 = λ q.
        (q.0.tool_names ≡ names)
        × (q.0.emitted_start_ids ≡ []
            → (i len : ℕ) → d.min_seq_len ≤ len
            → ¬ IsRepeated names d.min_reps i len) in
      if_ind (λ r. r ≡ some (sess', findings) → Goal (sess', findings))
        (ltb (length names) (d.min_seq_len * d.min_reps))
        (λ t k. subst Goal (some_injective (sess, []) (sess', findings) k) (
          refl,
          λ nil i len long r.
              absurd (ground (arith, t, r.inside, mul-le-mul_right d.min_reps long)),
        ))
        (λ t k.
          let (q, looped, k') = bind-some_split _ _ (sess', findings) k in
          let (quiet, out) =
            while_kept IsQuiet (within_max_len fl d sess) (scan fl d event sess) scan-IsQuiet
              (suc (length names))
              (
                d.min_seq_len,
                record { emitted = sess.emitted_start_ids; reported = []; findings = [] },
              )
              q looped (λ nil. (refl, λ i len long less r. absurd (omega (arith, long, less)))) in
          subst Goal (some_injective _ (sess', findings) k') (
            refl,
            λ nil i len long r.
                let most : len * d.min_reps ≤ length names = omega (arith, r.inside) in
                let within : len ≤ length names / d.min_reps =
                  (le-div_iff_mul-le {k = d.min_reps} many).1 most in
                (quiet nil).1 i len long (ground (arith, out, within)) r,
          ))
        e
