-- ===== src/Scheduler/Heartbeat/Tests.antt =====
-- Runs of the keep-alive loop and of `CheckLease`.
use flintlock_runner.Prelude.{ℕ, ◌*◌, ◌≤◌, ◌<◌, ◌≡◌, ◌⊎◌, refl, true, false, none, is_some}
use flintlock_runner.Prelude.Map.{lookup}
use flintlock_runner.Scheduler.State.{get_handle}
use flintlock_runner.Scheduler.Examples.{busy, first_handle}
use flintlock_runner.Scheduler.Heartbeat.{heartbeat_turn, is_cancelled}
use flintlock_runner.Scheduler.Heartbeat.Losses.{IsLost, heartbeat_turn-IsLost}

abbrev seconds : ℕ → ℕ
seconds n = n * 1000000000

abbrev retries : ℕ
retries = 2

heartbeat_turn-IsLost_example :
    ((is_cancelled false first_handle.heartbeats ≡ true)
      × (heartbeat_turn busy first_handle false (seconds 60) 1 seconds 3 ≡ (busy, none)))
    ⊎ (((is_cancelled false first_handle.heartbeats ≡ false)
          × (first_handle.alloc.lease.expires_at ≤ seconds 60)
          × IsLost busy
              (heartbeat_turn busy first_handle false (seconds 60) 1 seconds 3).0
              first_handle
          × ((heartbeat_turn busy first_handle false (seconds 60) 1 seconds 3).1 ≡ none))
        ⊎ ((is_cancelled false first_handle.heartbeats ≡ false)
            × (seconds 60 < first_handle.alloc.lease.expires_at)
            × ((heartbeat_turn busy first_handle false (seconds 60) 1 seconds 3).0 ≡ busy)
            × (is_some (heartbeat_turn busy first_handle false (seconds 60) 1 seconds 3).1 ≡ true)))
unfolding get_handle lookup
heartbeat_turn-IsLost_example =
    heartbeat_turn-IsLost busy first_handle false (seconds 60) 1 seconds 3 refl
