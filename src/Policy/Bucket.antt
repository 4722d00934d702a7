-- ===== src/Policy/Bucket.antt =====
-- internal/policy/config.go: tokenBucket.
use agent_transponder.Prelude.{suc, ◌/◌, ◌%◌, Bool, true, false, if◌then◌else◌}
use agent_transponder.Prelude.Int.{ℤ, pos, negsuc, ◌-ℤ◌, ltb_ℤ}
use agent_transponder.Prelude.Float.{Float}
use agent_transponder.Types.Event.{Time, Duration, second}

-- The range of an int64, to which `t.Sub(u)` saturates.
abbrev max_duration : Duration
max_duration = pos 9_223_372_036_854_775_807

abbrev min_duration : Duration
min_duration = negsuc 9_223_372_036_854_775_807

-- now.Sub(last)
unfoldable pub elapsed_since : Time → Time → Duration
elapsed_since now last =
    let d = now -ℤ last in
    if ltb_ℤ max_duration d then max_duration else if ltb_ℤ d min_duration then min_duration else d

-- d / time.Second and d % time.Second, both toward zero.
whole_seconds : Duration → ℤ
whole_seconds (pos n) = pos (n / 1_000_000_000)
whole_seconds (negsuc n) = pos 0 -ℤ pos (suc n / 1_000_000_000)

nanoseconds_left : Duration → ℤ
nanoseconds_left (pos n) = pos (n % 1_000_000_000)
nanoseconds_left (negsuc n) = pos 0 -ℤ pos (suc n % 1_000_000_000)

module _ (float : Float) where
  open float use {F, of_int, add, sub, mul, div, lt, le, trunc}

  -- d.Seconds()
  unfoldable pub seconds : Duration → F
  unfolding whole_seconds nanoseconds_left ◌-ℤ◌
  seconds d =
      add (of_int (whole_seconds d))
        (div (of_int (nanoseconds_left d)) (of_int (pos 1_000_000_000)))

  pub record TokenBucket : Type 0 where
    pub last_fill : Time
    pub tokens : F
    pub max : F
    pub rate : F

  unfoldable pub new_token_bucket : F → ℤ → Time → TokenBucket
  new_token_bucket rate burst now = record {
    tokens = of_int burst;
    max = of_int burst;
    rate = rate;
    last_fill = now;
  }

  unfoldable pub refill : Time → TokenBucket → TokenBucket
  refill now b =
      let tokens = add b.tokens (mul (seconds (elapsed_since now b.last_fill)) b.rate) in
      record b { tokens = if lt b.max tokens then b.max else tokens; last_fill = now }

  unfoldable pub allow : Time → TokenBucket → TokenBucket × Bool
  allow now b =
      let b' = refill now b in
      if le (of_int (pos 1)) b'.tokens
      then (record b' { tokens = sub b'.tokens (of_int (pos 1)) }, true)
      else (b', false)

  unfoldable pub retry_after : TokenBucket → Duration
  retry_after b = if le b.rate (of_int (pos 0)) then second else trunc (div (of_int second) b.rate)
