-- ===== src/Scheduler/Heartbeat.antt =====
-- internal/scheduler/heartbeat.go: keeping a Lease alive. One round of the loop is a turn before its call
-- to the Pool Manager and one behind it, since anything may happen while the call is in flight. The
-- backoff is a function of the attempt.
pub mod Delays
pub mod Losses
mod Tests
use flintlock_runner.Prelude.{
  ℕ, suc, ◌-◌, ◌/◌, ltb, leb, Bool, true, false, not, ◌&&◌, List, [], ◌∷◌, Option, none, some,
  is_some, String, if◌then◌else◌, nat_key,
}
use flintlock_runner.Prelude.Uids.{contains}
use flintlock_runner.Scheduler.State.{
  Impl, Handle, Lease, Cause, Heartbeats, stopped, set_handle, set_lease, Profile,
}
use flintlock_runner.Scheduler.Release.{lease_is_lost}

-- `minHeartbeatDelay`, a millisecond.
abbrev pub min_heartbeat_delay : ℕ
min_heartbeat_delay = 1000000

abbrev min_left : Lease → ℕ → ℕ → ℕ
min_left l now interval =
    let d = (l.expires_at - now) / 2 in if ltb 0 interval && ltb interval d then interval else d

-- A time in the past counts as now: the difference is not negative, and neither is any half of it.
unfoldable pub heartbeat_delay : Lease → ℕ → ℕ → (ℕ → ℕ) → ℕ → ℕ
heartbeat_delay l now interval backoff attempt =
    let d = min_left l now interval in
    let d' = if ltb 0 attempt && ltb (backoff (attempt - 1)) d then backoff (attempt - 1) else d in
    if ltb d' min_heartbeat_delay then min_heartbeat_delay else d'

-- `config.DefaultHeartbeatInterval`, ten seconds.
abbrev pub default_heartbeat_interval : ℕ
default_heartbeat_interval = 10000000000

unfoldable pub heartbeat_interval : Option Profile → ℕ
heartbeat_interval none = default_heartbeat_interval
heartbeat_interval (some p) =
    if ltb 0 p.heartbeat_interval then p.heartbeat_interval else default_heartbeat_interval

-- The loop's context is cancelled by `stopHeartbeat`, or with all the background work.
abbrev pub is_cancelled : Bool → Heartbeats → Bool
is_cancelled background_done stopped = true
is_cancelled background_done _ = background_done

-- The first half of a round: the delay before the next heartbeat, unless the loop is over.
unfoldable pub heartbeat_turn : Impl → Handle → Bool → ℕ → ℕ → (ℕ → ℕ) → ℕ → Impl × Option ℕ
unfolding lease_is_lost heartbeat_delay
heartbeat_turn s h background_done now interval backoff attempt =
    if is_cancelled background_done h.heartbeats
    then (s, none)
    else if not (ltb now h.alloc.lease.expires_at)
    then (lease_is_lost s h, none)
    else (s, some (heartbeat_delay h.alloc.lease now interval backoff attempt))

-- How a Heartbeat call ends. What it renews comes with the new expiry.
pub data Beat : Type 0 where
  renewed : ℕ → Beat
  gone unknown : Beat

unfoldable pub renew : Lease → ℕ → ℕ → Lease
renew l expires now = record l { expires_at = expires; last_heartbeat_at = now }

-- The second half, with the Lease that the first half read: the number of failures in a row, unless the
-- loop is over.
unfoldable pub heartbeat_answered : Impl → Handle → Lease → Bool → Beat → ℕ → ℕ → Impl × Option ℕ
unfolding lease_is_lost set_lease renew
heartbeat_answered s h l background_done beat now attempt =
    if is_cancelled background_done h.heartbeats then (s, none) else elim beat [
      | renewed expires ↦ (set_handle s (set_lease h (renew l expires now)), some 0)
      | gone ↦ (lease_is_lost s h, none)
      | unknown ↦ (s, some (suc attempt))
    ]

unfoldable pub holds : Impl → Handle → Bool
holds s h = contains h.id s.allocations

-- `CheckLease` before its call: whether there is a call to make, or else the answer.
unfoldable pub check_lease : Impl → Handle → Bool × Option Cause
unfolding holds
check_lease s h =
    if is_some h.err
    then (false, h.err)
    else if not (holds s h)
    then (false, none)
    else (true, none)

unfoldable pub lose_unless_done : Impl → Handle → Impl
unfolding lease_is_lost
lose_unless_done s h = if is_some h.err then s else lease_is_lost s h

-- `CheckLease` behind its call, for the handle as it is then, and the Lease as it was before.
unfoldable pub lease_checked : Impl → Handle → Lease → Beat → ℕ → Impl
unfolding holds lose_unless_done set_lease renew
lease_checked s h l beat now = if not (holds s h) then s else elim beat [
  | renewed expires ↦ set_handle s (set_lease h (renew l expires now))
  | gone ↦ lose_unless_done s h
  | unknown ↦ if not (ltb now l.expires_at) then lose_unless_done s h else s
]
