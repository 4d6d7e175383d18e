-- ===== src/Scheduler/Release/Tests.antt =====
-- Runs of the ends of Allocations, and of a release.
use flintlock_runner.Prelude.{
  ℕ, ◌≤◌, ◌≡◌, refl, ◌⊎◌, Bool, true, false, List, [], ◌∷◌, arith, nat_key, ◌==◌, ==_iff,
  if◌then◌else◌,
}
use flintlock_runner.Prelude.Map.{lookup}
use flintlock_runner.Prelude.Uids.{contains}
use flintlock_runner.Scheduler.State.{Impl, get_handle, shutdown_elapsed}
use flintlock_runner.Scheduler.Examples.{busy, first_handle, first_alloc}
use flintlock_runner.Scheduler.Release.{
  Calls, failed, not_found, release_lease, release_retry_limit, begin_shutdown, end_shutdown,
  released,
}
use flintlock_runner.Scheduler.Release.Ends.{
  releases_it, retains_it, retained_long_enough, loses_it, aborts_it, in_charge, is_gone,
  handed_back, IsKeyed,
}
use flintlock_runner.Scheduler.Release.Once.{
  Move, allocates, closes_background, ends, moves, lease-handed_back_once, lost-not_handed_back,
}
use flintlock_runner.Scheduler.Release.Aborts.{shutdown-IsEmpty}
use flintlock_runner.Scheduler.Release.Ladder.{IsRelease, release_lease-IsRelease}

busy-IsKeyed : IsKeyed busy
unfolding get_handle lookup
busy-IsKeyed id h at = ground (arith, at, ==_iff 2 id)

-- A failed Job whose Allocation is ended twice, beside another Allocation that is made.
abbrev failing : List Move
failing =
    ends retains_it 2
    ∷ allocates 4 (record first_alloc { reservation_id = 3 })
    ∷ ends releases_it 2
    ∷ closes_background
    ∷ ends retained_long_enough 2
    ∷ ends retained_long_enough 2
    ∷ []

abbrev losing : List Move
losing = ends loses_it 2 ∷ ends releases_it 2 ∷ ends (aborts_it shutdown_elapsed) 2 ∷ []

lease-handed_back_once_example :
    (handed_back 2 (moves busy failing).releases ≤ 1)
    × ((is_gone 2 (moves busy failing) ≡ true) ⊎ (in_charge 2 (moves busy failing) ≡ 1))
unfolding contains
lease-handed_back_once_example =
    lease-handed_back_once 2 busy failing (refl, refl) busy-IsKeyed refl

abbrev lost_one : Impl
lost_one = record busy { handles = (2, record first_handle { lease_gone = true }) ∷ [] }

lost_one-IsKeyed : IsKeyed lost_one
unfolding get_handle lookup
lost_one-IsKeyed id h at = ground (arith, at, ==_iff 2 id)

lost-not_handed_back_example :
    handed_back 2 (moves lost_one losing).releases ≡ handed_back 2 lost_one.releases
unfolding get_handle lookup contains
lost-not_handed_back_example =
    lost-not_handed_back 2 lost_one losing refl lost_one-IsKeyed (omega arith) refl

-- What the timeout finds: a second Allocation has been made before its Reservation was dropped.
abbrev waited : Impl
waited = record busy {
  reservations = [];
  allocations = 4 ∷ 2 ∷ [];
  handles = (4, record first_handle { id = 4 }) ∷ (2, first_handle) ∷ [];
}

waited-IsKeyed : IsKeyed waited
unfolding get_handle lookup
waited-IsKeyed id h at = ground (arith, at, ==_iff 2 id, ==_iff 4 id)

shutdown-IsEmpty_example :
    ((begin_shutdown busy).reservations ≡ [])
    × ((begin_shutdown busy).allocations ≡ busy.allocations)
    × ((begin_shutdown busy).handles ≡ busy.handles)
    × ((k : ℕ) → contains k (end_shutdown waited true).allocations ≡ false)
    × ((end_shutdown waited false).allocations ≡ waited.allocations)
    × ((elapsed : Bool)
        → ((end_shutdown waited elapsed).reservations ≡ waited.reservations)
          × ((end_shutdown waited elapsed).bg_closed ≡ true))
unfolding get_handle lookup contains
shutdown-IsEmpty_example =
    shutdown-IsEmpty busy waited waited-IsKeyed
      (λ k here. ground (arith, here, ==_iff 2 k, ==_iff 4 k))

abbrev twice_failed : Calls
twice_failed = record { answer = λ n. if n == 2 then not_found else failed; done = λ n. false }

frees_in_the_end : release_lease twice_failed 0 ≡ (released, 3)
unfolding release_lease
frees_in_the_end = refl

release_lease-IsRelease_example :
    IsRelease twice_failed (release_retry_limit 0) 0 (release_lease twice_failed 0)
release_lease-IsRelease_example = release_lease-IsRelease twice_failed 0
