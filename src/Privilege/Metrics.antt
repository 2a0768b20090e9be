-- ===== src/Privilege/Metrics.antt =====
-- internal/runner/base/privilege/metrics.go. The time of the last elevation and the success rate, a
-- floating-point quotient of two counters, are left out; durations are nanoseconds.
use go_safe_cmd_runner.Base.{
  ℕ, zero, suc, ◌+◌, ◌*◌, ◌/◌, ◌≤◌, ◌≡◌, Option, none, some, if◌then◌else◌, leb, arith,
}

pub record Metrics (E : Type 0) : Type 0 where
  pub elevation_attempts : ℕ
  pub elevation_successes : ℕ
  pub elevation_failures : ℕ
  pub total_elevation_time : ℕ
  pub average_elevation_time : ℕ
  pub max_elevation_time : ℕ
  pub last_error : Option E

unfoldable pub greater : ℕ → ℕ → ℕ
greater m n = if leb m n then n else m

scale : (n a b : ℕ) → a ≤ b → n * a ≤ n * b
scale zero a b h = omega arith
scale (suc n) a b h = let rest = scale n a b h in omega arith

module _ (E : Type 0) where
  unfoldable pub reset : Metrics E
  reset = record {
    elevation_attempts = 0;
    elevation_successes = 0;
    elevation_failures = 0;
    total_elevation_time = 0;
    average_elevation_time = 0;
    max_elevation_time = 0;
    last_error = none;
  }

  -- The count of successes is positive after its increment, so the code's test always holds.
  unfoldable pub record_elevation_success : ℕ → Metrics E → Metrics E
  unfolding greater
  record_elevation_success duration m = record m {
    elevation_attempts = suc m.elevation_attempts;
    elevation_successes = suc m.elevation_successes;
    total_elevation_time = m.total_elevation_time + duration;
    average_elevation_time = (m.total_elevation_time + duration) / suc m.elevation_successes;
    max_elevation_time = greater m.max_elevation_time duration;
  }

  unfoldable pub record_elevation_failure : E → Metrics E → Metrics E
  record_elevation_failure e m = record m {
    elevation_attempts = suc m.elevation_attempts;
    elevation_failures = suc m.elevation_failures;
    last_error = some e;
  }

  -- The counters add up, and no elevation took longer than the maximum.
  abbrev pub Consistent : Metrics E → Type 0
  Consistent m =
      (m.elevation_attempts ≡ m.elevation_successes + m.elevation_failures)
      × (m.total_elevation_time ≤ m.elevation_successes * m.max_elevation_time)

  pub success_lem :
      (duration : ℕ) (m : Metrics E)
      → Consistent m
      → Consistent (record_elevation_success duration m)
  unfolding record_elevation_success
  success_lem duration m (sums, bounded) = (
    omega arith,
    (let longest = greater m.max_elevation_time duration in
        let wider =
          scale m.elevation_successes m.max_elevation_time longest
            (unfold greater in ground arith) in
        let last : duration ≤ longest = unfold greater in ground arith in omega arith),
  )

  pub failure_lem :
      (e : E) (m : Metrics E) → Consistent m → Consistent (record_elevation_failure e m)
  unfolding record_elevation_failure
  failure_lem e m (sums, bounded) = (omega arith, bounded)
