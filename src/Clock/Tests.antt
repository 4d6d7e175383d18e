-- ===== src/Clock/Tests.antt =====
-- Runs of the backoff.
use flintlock_runner.Prelude.{◌≡◌, refl, ◌*◌, ◌^◌, arith, min, ltb, if◌then◌else◌}
use flintlock_runner.Prelude.Words.{half64}
use flintlock_runner.Clock.{Exponential, next}
use flintlock_runner.Clock.Bounds.{next-min, next_uncapped}

-- The Scheduler's default: half a second, up to thirty.
abbrev default_backoff : Exponential
default_backoff = record { base = 500000000; max = 30000000000 }

abbrev no_cap : Exponential
no_cap = record { base = 1000000000; max = 0 }

third_retry : next default_backoff 3 ≡ 4000000000
unfolding next
third_retry = refl

next-min_example : next default_backoff 7 ≡ min 30000000000 (500000000 * 2 ^ 7)
next-min_example =
    next-min default_backoff 7 (omega arith) (omega arith) (omega arith) (omega arith) (omega arith)

next_uncapped_example :
    next no_cap 34 ≡ (if ltb (1000000000 * 2 ^ 34) half64 then 1000000000 * 2 ^ 34 else 0)
next_uncapped_example = next_uncapped no_cap 34 (omega arith) (omega arith) refl (omega arith)
