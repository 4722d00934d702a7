-- ===== src/Detectors/ToolMisuse/Storms.antt =====
-- When ToolMisuseDetector of internal/analyzer/detectors/toolmisuse.go reports a retry storm.
use agent_transponder.Prelude.{
  ℕ, ◌+◌, ◌≡◌, refl, sym, subst, ap, ◌∙◌, String, ◌==◌, eq_iff, eq_refl, Bool, true, false,
  Bool-cases, inl, inr, not, ◌&&◌, List, [], ◌∷◌, ◌++◌, length, length-append, select, any-append,
  leb, ltb, eqb, get_or, if◌then◌else◌, if_ind, arith,
}
use agent_transponder.Prelude.Maps.{lookup, get_or-insert}
use agent_transponder.Prelude.Float.{Float}
use agent_transponder.Types.Event.{Event}
use agent_transponder.Detectors.Finding.{Finding, has, put}
use agent_transponder.Detectors.ToolMisuse.{
  CallRecord, ToolStats, failures, ToolMisuseDetector, storm_finding, record_call, check_storm,
  check_rate, failure_rate,
}

-- The calls recorded under the arguments.
abbrev pub recorded : String → ToolStats → List CallRecord
recorded key ts = get_or [] (lookup key ts.by_args)

-- A storm is reported for the arguments that failed more often than is allowed, and only for them.
pub record IsStats (allowed : ℕ) (ts : ToolStats) : Type 0 where
  pub storms :
      (key : String)
      → has key ts.emitted_retry_storm ≡ ltb allowed (length (failures (recorded key ts)))

has-put :
    (k k' : String) (set : List String) → has k (put k' set) ≡ (if k == k' then true else has k set)
has-put k k' set = ground (
  arith,
  any-append (λ key. k == key) set (k' ∷ []),
  eq_iff k k',
  λ (e : k ≡ k'). ap (λ x. has x set) e,
)

select-append {ℓ} :
    {A : Type ℓ} (p : A → Bool) (xs ys : List A) → select p (xs ++ ys) ≡ select p xs ++ select p ys
select-append p [] ys = refl
select-append p (x ∷ xs) ys = ground (arith, select-append p xs ys)

-- A property of all keys, from the one and the others.
pub by_key {ℓ} : (k key : String) (P : String → Type ℓ) → P k → ((key == k) ≡ false → P key) → P key
by_key k key P one others = elim (Bool-cases (key == k)) [
  | inl t ↦ subst P (ground (arith, t, eq_iff key k, eq_iff k key)) one
  | inr f ↦ others f
]

-- The failure that a call adds.
abbrev pub added : CallRecord → List CallRecord
added rec = if rec.success then [] else rec ∷ []

pub failures_at :
    (key : String) (rec : CallRecord) (ts : ToolStats)
    → failures (recorded key (record_call key rec ts)) ≡ failures (recorded key ts) ++ added rec
unfolding failures record_call
failures_at key rec ts =
    let old = recorded key ts in
    let at : recorded key (record_call key rec ts) ≡ old ++ rec ∷ [] =
      get_or-insert [] key key (old ++ rec ∷ []) ts.by_args ∙ ground (arith, eq_refl key) in
    ap (λ l. failures l) at
    ∙ select-append (λ (r : CallRecord). not r.success) old (rec ∷ [])
    ∙ ap (λ l. select (λ (r : CallRecord). not r.success) old ++ l) (ground arith)

pub failures_off :
    (key args_key : String) (rec : CallRecord) (ts : ToolStats)
    → (key == args_key) ≡ false
    → failures (recorded key (record_call args_key rec ts)) ≡ failures (recorded key ts)
unfolding record_call
failures_off key args_key rec ts e = ap failures (
    get_or-insert [] args_key key (recorded args_key ts ++ rec ∷ []) ts.by_args ∙ ground (arith, e))

pub length-failures_at :
    (key : String) (rec : CallRecord) (ts : ToolStats)
    → length (failures (recorded key (record_call key rec ts)))
      ≡ length (failures (recorded key ts)) + (if rec.success then 0 else 1)
length-failures_at key rec ts =
    ap length (failures_at key rec ts)
    ∙ length-append (failures (recorded key ts)) (added rec)
    ∙ ground arith

module _ (fl : Float) where
  open fl use {F}

  module _ (d : ToolMisuseDetector fl) (event : Event) (tool_name args_key : String)
      (rec : CallRecord) (ts : ToolStats) where
    abbrev allowed : ℕ
    allowed = d.max_consecutive_failures

    abbrev failed : List CallRecord
    failed = failures (recorded args_key ts)

    -- The report on the call that fails once more than is allowed.
    pub storm : List (Finding F)
    storm =
        if not rec.success && eqb (length failed) allowed
        then storm_finding fl d event tool_name args_key (failed ++ rec ∷ [])
            (put args_key ts.emitted_retry_storm)
          ∷ []
        else []

    pub check_storm-IsStats :
        IsStats allowed ts
        → IsStats allowed
            (check_storm fl d event tool_name args_key (record_call args_key rec ts)).0
    unfolding check_storm record_call
    check_storm-IsStats h =
        let ts' = record_call args_key rec ts in
        if_ind (λ (r : ToolStats × List (Finding F)). IsStats allowed r.0)
          (not (has args_key ts.emitted_retry_storm)
            && ltb allowed (length (failures (recorded args_key ts'))))
          (λ t. record {
            storms = λ key.
                by_key args_key key
                  (λ k.
                    has k (put args_key ts.emitted_retry_storm)
                    ≡ ltb allowed (length (failures (recorded k ts'))))
                  (ground
                    (arith, has-put args_key args_key ts.emitted_retry_storm, eq_refl args_key, t))
                  (λ e.
                    (ground (
                      arith,
                      has-put key args_key ts.emitted_retry_storm,
                      e,
                      h.storms key,
                      failures_off key args_key rec ts e,
                    )));
          })
          (λ t. record {
            storms = λ key.
                by_key args_key key
                  (λ k.
                    has k ts.emitted_retry_storm ≡ ltb allowed (length (failures (recorded k ts'))))
                  (ground (arith, t, h.storms args_key, length-failures_at args_key rec ts))
                  (λ e. (ground (arith, e, h.storms key, failures_off key args_key rec ts e)));
          })

    -- Whether this is that call.
    abbrev exceeds : Bool
    exceeds = not rec.success && eqb (length failed) allowed

    storm-exceeds :
        exceeds ≡ true
        → storm
          ≡ storm_finding fl d event tool_name args_key
              (failures (recorded args_key (record_call args_key rec ts)))
              (put args_key ts.emitted_retry_storm)
            ∷ []
    unfolding storm
    storm-exceeds t =
        let same : failures (recorded args_key (record_call args_key rec ts)) ≡ failed ++ rec ∷ [] =
          failures_at args_key rec ts ∙ ap (λ l. failed ++ l) (ground (arith, t)) in
        rw (same) (ground (arith, t))

    storm_not : exceeds ≡ false → storm ≡ []
    unfolding storm
    storm_not t = ground (arith, t)

    pub check_storm-storm :
        IsStats allowed ts
        → (check_storm fl d event tool_name args_key (record_call args_key rec ts)).1 ≡ storm
    unfolding check_storm record_call
    check_storm-storm h =
        let ts' = record_call args_key rec ts in
        if_ind (λ (r : ToolStats × List (Finding F)). r.1 ≡ storm)
          (not (has args_key ts.emitted_retry_storm)
            && ltb allowed (length (failures (recorded args_key ts'))))
          (λ t. sym (
            storm-exceeds
              (ground (arith, t, h.storms args_key, length-failures_at args_key rec ts))))
          (λ t.
            sym (
              storm_not (ground (arith, t, h.storms args_key, length-failures_at args_key rec ts))))

    pub check_rate-IsStats :
        (ts' : ToolStats)
        → IsStats allowed ts'
        → IsStats allowed (check_rate fl d event tool_name ts').0
    unfolding check_rate
    check_rate-IsStats ts' h =
        if_ind (λ (r : ToolStats × List (Finding F)). IsStats allowed r.0)
          (not ts'.emitted_rate_detection
            && leb d.min_calls_for_rate (length ts'.calls)
            && fl.le d.min_failure_rate (failure_rate fl ts'.calls)
            && not (ltb 0 (length ts'.emitted_retry_storm)))
          (λ t. record { storms = h.storms }) (λ t. h)
