-- ===== src/Scheduler/Heartbeat/Delays.antt =====
-- `heartbeatDelay`: how long the keep-alive loop waits.
use flintlock_runner.Prelude.{ℕ, ◌+◌, ◌-◌, ◌*◌, ◌≤◌, ◌<◌, ◌≡◌, ◌⊎◌, max, arith}
use flintlock_runner.Scheduler.State.{Lease}
use flintlock_runner.Scheduler.Heartbeat.{heartbeat_delay, min_heartbeat_delay}

-- The wait for a Lease that has not expired is never shorter than a millisecond. Otherwise twice the
-- wait is over by the expiry, an interval that is set is not exceeded, and after a failure neither is
-- the backoff.
pub heartbeat_delay-bounds :
    (l : Lease) (now interval : ℕ) (backoff : ℕ → ℕ) (attempt : ℕ)
    → now < l.expires_at
    → let d = heartbeat_delay l now interval backoff attempt in
      (min_heartbeat_delay ≤ d)
      × (now + 2 * d ≤ max l.expires_at (now + 2 * min_heartbeat_delay))
      × ((interval ≡ 0) ⊎ (d ≤ max min_heartbeat_delay interval))
      × ((attempt ≡ 0) ⊎ (d ≤ max min_heartbeat_delay (backoff (attempt - 1))))
unfolding heartbeat_delay
heartbeat_delay-bounds l now interval backoff attempt left = ground (arith, left)
