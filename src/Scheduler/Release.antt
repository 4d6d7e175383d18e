-- ===== src/Scheduler/Release.antt =====
-- internal/scheduler/release.go, and `leaseLost`, `startHeartbeat` and `stopHeartbeat` of heartbeat.go:
-- the ways in which an Allocation ends. A Lease is handed back by a run of `releaseLease`, which is
-- below; whether it runs in the background or inline makes no difference to the state.
pub mod Ends
pub mod Kept
pub mod Once
pub mod Aborts
pub mod Ladder
mod Tests
use flintlock_runner.Prelude.{
  ℕ, zero, suc, ◌+◌, leb, ltb, Bool, true, false, not, ◌&&◌, List, [], ◌∷◌, Option, none, some,
  String, if◌then◌else◌, nat_key, str_eq,
}
use flintlock_runner.Prelude.Uids.{contains, put, drop}
use flintlock_runner.Scheduler.State.{
  Impl, Handle, Lease, Cause, shutdown_elapsed, host_unhealthy, lease_lost, Heartbeats, idle,
  beating, stopped, get_handle, set_handle, fail, mark_lease_gone, placement_host,
}
use flintlock_runner.Scheduler.Capacity.{finish, drained}

-- `cancel()` of the keep-alive loop, if there is one.
abbrev pub silence : Heartbeats → Heartbeats
silence idle = idle
silence _ = stopped

unfoldable pub stop_heartbeat : Impl → Handle → Impl
stop_heartbeat s h = set_handle s (record h { heartbeats = silence h.heartbeats })

-- No loop is started once the Scheduler takes no more background work.
unfoldable pub start_heartbeat : Impl → Handle → Impl
start_heartbeat s h =
    set_handle s (record h { heartbeats = if s.bg_closed then stopped else beating })

unfoldable pub request_release : Impl → Handle → Impl
request_release s h = record s { releases = (h.id, h.alloc.lease) ∷ s.releases }

-- What `Release` and `endAllocation` do once the Allocation is theirs to end.
unfoldable pub hand_back : Impl → Handle → Impl
unfolding stop_heartbeat request_release
hand_back s h = let s' = stop_heartbeat s h in if h.lease_gone then s' else request_release s' h

unfoldable pub release : Impl → Handle → Impl
unfolding stop_heartbeat hand_back
release s h =
    let (s', ended) = finish s h in if not ended then stop_heartbeat s' h else hand_back s' h

unfoldable pub retain : Impl → Handle → Impl
unfolding stop_heartbeat request_release release
retain s h =
    let (s', ended) = finish s h in
    if not s.keep_on_failure
    then release s h
    else if not ended
    then stop_heartbeat s' h
    else if h.lease_gone
    then stop_heartbeat s' h
    else if s.bg_closed
    then request_release (stop_heartbeat s' h) h
    else record s' { retaining = put h.id s'.retaining }

-- The goroutine of `Retain` wakes: the time is over, the Lease is lost or the Scheduler is done.
unfoldable pub retained : Impl → Handle → Impl
unfolding hand_back
retained s h =
    if not (contains h.id s.retaining)
    then s
    else hand_back (record s { retaining = drop h.id s.retaining }) h

unfoldable pub lease_is_lost : Impl → Handle → Impl
unfolding fail mark_lease_gone
lease_is_lost s h = let h' = fail (mark_lease_gone h) lease_lost in (finish (set_handle s h') h').0

unfoldable pub end_allocation : Impl → Handle → Impl
unfolding hand_back
end_allocation s h = let (s', ended) = finish s h in if not ended then s' else hand_back s' h

-- A Job that the Scheduler aborts, for its Host or for the end of the shutdown.
unfoldable pub abort : Impl → Handle → Cause → Impl
unfolding fail end_allocation
abort s h cause = let h' = fail h cause in end_allocation (set_handle s h') h'

-- The loop over `liveHandles`, whose handles the store holds.
unfoldable pub abort_all : Impl → List ℕ → (Handle → Bool) → Cause → Impl
unfolding abort
abort_all s [] which cause = s
abort_all s (id ∷ ids) which cause = elim (get_handle s id) [
  | none ↦ abort_all s ids which cause
  | some h ↦ abort_all (if which h then abort s h cause else s) ids which cause
]

unfoldable pub abort_running : Impl → Impl
unfolding abort_all
abort_running s = abort_all s s.allocations (λ h. true) shutdown_elapsed

unfoldable pub abort_host : Impl → String → Impl
unfolding abort_all placement_host
abort_host s name = abort_all s s.allocations (λ h. str_eq (placement_host h) name) host_unhealthy

-- `shutdown` up to its wait for the last Allocation to end, or for the timeout.
unfoldable pub begin_shutdown : Impl → Impl
unfolding drained
begin_shutdown s = (drained (record s { reservations = [] })).1

-- `shutdown` behind its wait, on whatever state the wait has left. `elapsed`: the timeout came first.
unfoldable pub end_shutdown : Impl → Bool → Impl
unfolding abort_running
end_shutdown s elapsed = record (if elapsed then abort_running s else s) { bg_closed = true }

-- How a ReleaseVM call ends.
pub data Answer : Type 0 where
  ok not_found failed : Answer

-- The calls of one `releaseLease`, by the attempt that they belong to: their answers, and whether the
-- Scheduler is done with its background work before the backoff behind an attempt is over.
pub record Calls : Type 0 where
  pub answer : ℕ → Answer
  pub done : ℕ → Bool

pub data Outcome : Type 0 where
  released gave_up abandoned_at_shutdown : Outcome

-- The rounds from an attempt on, with the number of calls made in the end. `left` is how far the attempt
-- is below the limit.
unfoldable pub release_from : Calls → ℕ → ℕ → Outcome × ℕ
release_from c zero attempt = elim (c.answer attempt) [
  | ok ↦ (released, suc attempt)
  | not_found ↦ (released, suc attempt)
  | failed ↦ (gave_up, suc attempt)
]
release_from c (suc left) attempt =
    let rest = release_from c left (suc attempt) in
    elim (c.answer attempt) [
      | ok ↦ (released, suc attempt)
      | not_found ↦ (released, suc attempt)
      | failed ↦ if c.done attempt then (abandoned_at_shutdown, suc attempt) else rest
    ]

-- `config.DefaultPoolManagerReleaseRetry`
abbrev pub default_release_retry : ℕ
default_release_retry = 5

unfoldable pub release_retry_limit : ℕ → ℕ
release_retry_limit configured = if ltb 0 configured then configured else default_release_retry

unfoldable pub release_lease : Calls → ℕ → Outcome × ℕ
unfolding release_from release_retry_limit
release_lease c configured = release_from c (release_retry_limit configured) 0
