-- ===== src/Scheduler/Allocate.antt =====
-- internal/scheduler/allocate.go: an allocation from its Reservation to its handle. What other
-- goroutines do meanwhile is left out of a run, since each of them leaves the rest of the state as it
-- is; the answers of the Pool Manager and what ends each wait are arguments.
pub mod Errors
pub mod Units
pub mod Waiting
mod Tests
use flintlock_runner.Prelude.{
  ℕ, suc, ◌+◌, ◌%◌, ltb, Bool, true, false, not, List, [], ◌∷◌, Option, none, some, String,
  if◌then◌else◌,
}
use flintlock_runner.Prelude.Words.{mod64}
use flintlock_runner.Poolmgr.Tracker.{Tracker, wait, mark_exhausted, track}
use flintlock_runner.Poolmgr.Health.{Monitor, mark_unavailable}
use flintlock_runner.Scheduler.State.{
  Impl, Profile, Lease, Allocation, Handle, Placement, RunState, state_new, state_running,
  state_stopping, state_stopped, new_handle,
}
use flintlock_runner.Scheduler.Capacity.{
  convert, enter_profile, leave_profile, wait_on_pool, leave_pool,
}
use flintlock_runner.Scheduler.Release.{start_heartbeat}
use flintlock_runner.Scheduler.Placement.{
  Claim, AllocationError, cancelled, reservation_gone, allocation_timeout, profile_limit,
  shutting_down, not_running, claim_failed, Resolved, placed, unplaced, Around, resolve_placement,
}

pub data Allocated : Type 0 where
  made : Handle → Allocated
  erred : AllocationError → Allocated

-- `config.DefaultHeartbeatExpiry`, thirty seconds.
abbrev pub default_heartbeat_expiry : ℕ
default_heartbeat_expiry = 30000000000

unfoldable pub lease_expiry : Profile → ℕ
lease_expiry p = if ltb 0 p.heartbeat_expiry then p.heartbeat_expiry else default_heartbeat_expiry

-- A release is asked for.
unfoldable pub abandon : Impl → Lease → Impl
abandon s l = record s { abandoned = l ∷ s.abandoned }

abbrev pub lease_of : Profile → Claim → ℕ → Lease
lease_of p c now = record {
  id = c.lease_id;
  pool = p.pool_ref;
  expires_at = now + lease_expiry p;
  last_heartbeat_at = 0;
}

-- The end of `allocated`, on a Host.
unfoldable pub record_allocation : Impl → ℕ → ℕ → Profile → Claim → ℕ → Placement → Impl × Allocated
unfolding abandon convert start_heartbeat new_handle lease_expiry
record_allocation s reservation job p c now placement =
    let s' = record s { next_id = (s.next_id + 1) % mod64 } in
    let h = new_handle s'.next_id (record {
      job_id = job;
      profile = p.name;
      vm_uid = c.vm_uid;
      lease = lease_of p c now;
      placement = placement;
      host = c.host;
      reservation_id = reservation;
      claimed_at = now;
    }) in
    let (s'', converted) = convert s' reservation h in
    if not converted
    then (abandon s'' (lease_of p c now), erred reservation_gone)
    else (start_heartbeat s'' h, made h)

unfoldable pub allocated : Impl → ℕ → ℕ → Profile → Claim → Bool → Around → Impl × Allocated
unfolding abandon record_allocation lease_expiry resolve_placement
allocated s reservation job p c ctx_done e =
    if ctx_done
    then (abandon s (lease_of p c e.now), erred cancelled)
    else elim (resolve_placement s e (some c)) [
      | unplaced err ↦ (abandon s (lease_of p c e.now), erred err)
      | placed placement ↦ record_allocation s reservation job p c e.now placement
    ]

-- The state of the Scheduler and of what it calls.
pub record World : Type 0 where
  pub impl : Impl
  pub tracker : Tracker
  pub health : Monitor

-- How a ClaimVM call fails. For an unknown Pool: whether it is declared again with success.
pub data ClaimError : Type 0 where
  exhausted unavailable aborted ctx_done other_error : ClaimError
  unknown_pool : Bool → ClaimError

-- What ends the wait behind a failed claim; the first two are alike.
pub data WaitEnd : Type 0 where
  backed_off woken timed_out ctx_ended : WaitEnd

-- A round that fails: the error, the time, and what ends the wait.
pub record FailedClaim : Type 0 where
  pub error : ClaimError
  pub now : ℕ
  pub wait_end : WaitEnd

-- What a failed claim does, and the error that it ends the allocation with, if it does. The flag is
-- `waiting`.
unfoldable pub claim_error :
    World → Profile → Bool → ClaimError → ℕ → World × Bool × Option AllocationError
unfolding wait_on_pool
claim_error w p waiting exhausted now =
    let w' = record w { tracker = mark_exhausted w.tracker p.pool_ref } in
    if not waiting
    then (record w' { impl = (wait_on_pool w'.impl p.pool_ref).0 }, true, none)
    else (w', true, none)
claim_error w p waiting (unknown_pool declared) now = (
  record w { tracker = track (mark_exhausted w.tracker p.pool_ref) p.pool_ref declared },
  waiting,
  none,
)
claim_error w p waiting unavailable now =
    (record w { health = mark_unavailable w.health now }, waiting, none)
claim_error w p waiting aborted now = (w, waiting, none)
claim_error w p waiting ctx_done now = (w, waiting, some cancelled)
claim_error w p waiting other_error now = (w, waiting, some claim_failed)

unfoldable pub wait_to_retry : WaitEnd → Option AllocationError
wait_to_retry backed_off = none
wait_to_retry woken = none
wait_to_retry timed_out = some allocation_timeout
wait_to_retry ctx_ended = some cancelled

-- What ends the loop behind a failed claim: its error, or else the wait.
unfoldable pub ends_with : Option AllocationError → WaitEnd → Option AllocationError
unfolding wait_to_retry
ends_with none wait_end = wait_to_retry wait_end
ends_with (some err) wait_end = some err

unfoldable pub stop_or :
    Option AllocationError
    → World
    → Bool
    → World × Bool × Option AllocationError
    → World × Bool × Option AllocationError
stop_or none w waiting rest = rest
stop_or (some err) w waiting rest = (w, waiting, some err)

-- The rounds of the loop of `claim` that fail, up to the one that ends it or to the claim that succeeds.
unfoldable pub claim_loop :
    World → Profile → Bool → List FailedClaim → World × Bool × Option AllocationError
unfolding claim_error ends_with stop_or
claim_loop w p waiting [] = (record w { tracker = (wait w.tracker p.pool_ref).1 }, waiting, none)
claim_loop w p waiting (f ∷ fs) =
    let w' = record w { tracker = (wait w.tracker p.pool_ref).1 } in
    let r = claim_error w' p waiting f.error f.now in
    stop_or (ends_with r.2 f.wait_end) r.0 r.1 (claim_loop r.0 p r.1 fs)

-- The deferred call of `claim`.
unfoldable pub stop_waiting : World → Profile → Bool → World
unfolding leave_pool
stop_waiting w p waiting =
    if waiting then record w { impl = (leave_pool w.impl p.pool_ref).0 } else w

-- An allocation's Job and Reservation, and the claim that succeeds in the end.
pub record Request : Type 0 where
  pub reservation : ℕ
  pub job : ℕ
  pub profile : Profile
  pub claim : Claim
  pub cancelled_then : Bool
  pub around : Around

unfoldable pub claim_vm : World → Request → List FailedClaim → World × Allocated
unfolding claim_loop stop_waiting allocated
claim_vm w r fs =
    let (w', waiting, err) = claim_loop w r.profile false fs in
    elim err [
      | some e ↦ (stop_waiting w' r.profile waiting, erred e)
      | none ↦
          let (s, result) =
            allocated w'.impl r.reservation r.job r.profile r.claim r.cancelled_then r.around in
          (stop_waiting (record w' { impl = s }) r.profile waiting, result)
    ]

-- What ends a wait for a unit of the Profile: another one's return, in the state that it leaves.
pub data UnitWait : Type 0 where
  freed : Impl → UnitWait
  cancelled_first timed_out_first : UnitWait

-- The waits are used up where the unit is still not free: the context then counts as cancelled.
unfoldable pub await_profile_limit : Impl → Profile → List UnitWait → Impl × Option AllocationError
unfolding enter_profile
await_profile_limit s p [] =
    let (s', entered, free) = enter_profile s p in
    if entered then (s', none) else (s, some cancelled)
await_profile_limit s p (u ∷ us) =
    let (s', entered, free) = enter_profile s p in
    if entered then (s', none) else elim u [
      | freed t ↦ await_profile_limit t p us
      | cancelled_first ↦ (s, some cancelled)
      | timed_out_first ↦ (s, some profile_limit)
    ]

unfoldable pub allocate_running :
    World → Request → List UnitWait → List FailedClaim → World × Allocated
unfolding await_profile_limit claim_vm leave_profile
allocate_running w r us fs =
    let (s, refusal) = await_profile_limit w.impl r.profile us in
    elim refusal [
      | some e ↦ (record w { impl = s }, erred e)
      | none ↦
          let (w', result) = claim_vm (record w { impl = s }) r fs in
          elim result [
            | made h ↦ (w', made h)
            | erred e ↦ (record w' { impl = leave_profile w'.impl r.profile }, erred e)
          ]
    ]

unfoldable pub allocate_in :
    RunState → World → Request → List UnitWait → List FailedClaim → World × Allocated
unfolding allocate_running
allocate_in state_new w r us fs = (w, erred not_running)
allocate_in state_stopped w r us fs = (w, erred not_running)
allocate_in state_stopping w r us fs = (w, erred shutting_down)
allocate_in state_running w r us fs = allocate_running w r us fs

unfoldable pub allocate : World → Request → List UnitWait → List FailedClaim → World × Allocated
unfolding allocate_in
allocate w r us fs = allocate_in w.impl.state w r us fs
