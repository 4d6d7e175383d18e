-- ===== src/Clock.antt =====
-- internal/clock/clock.go: the exponential backoff that every retry loop takes its delays from.
-- Durations are int64 nanoseconds, as bit patterns.
pub mod Bounds
mod Tests
use flintlock_runner.Prelude.{ℕ, zero, suc, ◌*◌, ◌%◌, ◌&&◌, ltb, if◌then◌else◌}
use flintlock_runner.Prelude.Words.{mod64, lt64, le64}

pub record Exponential : Type 0 where
  pub base : ℕ
  pub max : ℕ

-- The loop of `Next`, over the rounds left, with the test behind it.
doubling : Exponential → ℕ → ℕ → ℕ
doubling e zero d = if lt64 0 e.max && lt64 e.max d then e.max else d
doubling e (suc n) d =
    let d' = (d * 2) % mod64 in
    let rest = doubling e n d' in
    if lt64 0 e.max && le64 e.max d' then e.max else if le64 d' 0 then e.max else rest

unfoldable pub next : Exponential → ℕ → ℕ
unfolding doubling
next e attempt = doubling e (if lt64 attempt 0 then 0 else attempt) e.base
