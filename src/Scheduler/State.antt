-- ===== src/Scheduler/State.antt =====
-- internal/scheduler: scheduler.go, handle.go and interfaces.go, the state that the Scheduler keeps.
-- Times and durations are numbers of nanoseconds. A `*handle` is the id of its Allocation, and the
-- handles are a store, because others hold them after the Allocation has ended. A channel is a number.
use flintlock_runner.Prelude.{ℕ, Bool, true, false, List, Option, none, some, String, nat_key}
use flintlock_runner.Prelude.Map.{lookup, insert}
use flintlock_runner.Poolmgr.Event.{PoolRef}
use flintlock_runner.Poolmgr.Pool.{Chans}

-- The part of a configured Profile that the Scheduler reads, with its PoolRef.
pub record Profile : Type 0 where
  pub name : String
  pub images : List String
  pub image_globs : List String
  pub default : Bool
  pub max_concurrency : ℕ
  pub heartbeat_expiry : ℕ
  pub heartbeat_interval : ℕ
  pub pool_ref : PoolRef

pub data RunState : Type 0 where
  state_new state_running state_stopping state_stopped : RunState

pub data RefusalReason : Type 0 where
  no_free_slot no_warm_microvm pool_manager_not_contacted shutting_down : RefusalReason

pub data PlacementSource : Type 0 where
  from_claim from_lookup : PlacementSource

pub record Placement : Type 0 where
  pub host : String
  pub source : PlacementSource
  pub resolved_at : ℕ

pub record Lease : Type 0 where
  pub id : String
  pub pool : PoolRef
  pub expires_at : ℕ
  pub last_heartbeat_at : ℕ

-- The host that a claim names, and its address.
pub record HostRef : Type 0 where
  pub name : String
  pub address : String

pub record Allocation : Type 0 where
  pub job_id : ℕ
  pub profile : String
  pub vm_uid : String
  pub lease : Lease
  pub placement : Placement
  pub host : HostRef
  pub reservation_id : ℕ
  pub claimed_at : ℕ

-- Why the Scheduler ended a Job.
pub data Cause : Type 0 where
  host_unhealthy lease_lost shutdown_elapsed : Cause

pub data Heartbeats : Type 0 where
  idle beating stopped : Heartbeats

-- `err` is set exactly when `Done` is closed.
pub record Handle : Type 0 where
  pub id : ℕ
  pub alloc : Allocation
  pub err : Option Cause
  pub lease_gone : Bool
  pub heartbeats : Heartbeats

pub record HostState : Type 0 where
  pub healthy : Bool
  pub failures : ℕ
  pub last_probe_at : ℕ

pub record Impl : Type 0 where
  pub slots : ℕ
  pub keep_on_failure : Bool
  pub state : RunState
  pub ready : Bool
  pub reservations : List (ℕ × ℕ)
  pub allocations : List ℕ
  pub handles : List (ℕ × Handle)
  pub placements : List (String × Placement)
  pub profile_use : List (String × ℕ)
  pub profile_free : ℕ
  pub drain : Option ℕ
  pub chans : Chans
  pub waiting : List (PoolRef × ℕ)
  pub hosts : List (String × HostState)
  pub next_id : ℕ
  pub bg_closed : Bool
  -- The handles whose Lease a goroutine of `Retain` keeps for now.
  pub retaining : List ℕ
  -- The runs of `releaseLease` that have been asked for, newest first: for a handle, and for a Lease
  -- that never became an Allocation.
  pub releases : List (ℕ × Lease)
  pub abandoned : List Lease

unfoldable pub get_handle : Impl → ℕ → Option Handle
get_handle s id = lookup id s.handles

-- A write through a `*handle`.
unfoldable pub set_handle : Impl → Handle → Impl
set_handle s h = record s { handles = insert h.id h s.handles }

unfoldable pub new_handle : ℕ → Allocation → Handle
new_handle id alloc = record {
  id = id;
  alloc = alloc;
  err = none;
  lease_gone = false;
  heartbeats = idle;
}

-- Only the first cause has an effect.
unfoldable pub fail : Handle → Cause → Handle
fail h cause = elim h.err [ some earlier ↦ h | none ↦ record h { err = some cause } ]

unfoldable pub set_lease : Handle → Lease → Handle
set_lease h l = record h { alloc = record (h.alloc) { lease = l } }

unfoldable pub mark_lease_gone : Handle → Handle
mark_lease_gone h = record h { lease_gone = true }

unfoldable pub placement_host : Handle → String
placement_host h = h.alloc.placement.host
