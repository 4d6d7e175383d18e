-- ===== src/Scheduler/Capacity.antt =====
-- internal/scheduler/capacity.go: granting and returning Slots, and the limits of the Profiles.
-- Each function but `reserve` is one critical section of `s.mu`. `reserve` is a call with nothing in
-- between its sections: the state, the contact, the warm MicroVMs and the grant are read one by one, and
-- `reserve_in` and `grant` take what was read before as arguments.
pub mod Slots
pub mod Grants
pub mod Counting
pub mod Limits
mod Tests
use flintlock_runner.Prelude.{
  ℕ, ◌+◌, ◌-◌, ◌%◌, ltb, leb, Bool, true, false, not, ◌&&◌, List, [], ◌∷◌, Option, none, some,
  is_some, String, if◌then◌else◌, length, nat_key, string_key,
}
use flintlock_runner.Prelude.Map.{lookup, insert, delete}
use flintlock_runner.Prelude.Uids.{contains, put, drop}
use flintlock_runner.Prelude.Words.{lt32, mod64}
use flintlock_runner.Poolmgr.Event.{PoolRef, ref_key}
use flintlock_runner.Poolmgr.Pool.{Chans}
use flintlock_runner.Poolmgr.Tracker.{PoolAvailability}
use flintlock_runner.Scheduler.State.{
  Profile, RunState, state_new, state_running, state_stopping, state_stopped, RefusalReason,
  no_free_slot, no_warm_microvm, pool_manager_not_contacted, shutting_down, Handle, Impl,
  set_handle,
}

unfoldable pub slots_in_use : Impl → ℕ
slots_in_use s = length s.reservations + length s.allocations

-- The loop over the Tracker's Pools. `total` is an int, which no sum of int32s reaches the end of.
unfoldable pub sum_available : List PoolAvailability → ℕ
sum_available [] = 0
sum_available (pa ∷ pas) =
    let rest = sum_available pas in
    if not pa.declared
    then rest
    else if lt32 0 pa.status.available
    then pa.status.available + rest
    else rest

unfoldable pub warm_available : Bool → List PoolAvailability → ℕ
unfolding sum_available
warm_available healthy pools = if not healthy then 0 else sum_available pools

-- The `0` of a count that is not positive comes with the reason for the refusal.
unfoldable pub available_capacity : Impl → ℕ → ℕ × Option RefusalReason
unfolding slots_in_use
available_capacity s warm =
    let free = s.slots - slots_in_use s in
    if leb s.slots (slots_in_use s)
    then (0, some no_free_slot)
    else if leb warm 0
    then (0, some no_warm_microvm)
    else if ltb warm free
    then (warm, none)
    else (free, none)

pub record Reservation : Type 0 where
  pub id : ℕ
  pub granted_at : ℕ

pub data Grant : Type 0 where
  granted : Reservation → Grant
  refused : RefusalReason → Grant
  not_running cancelled : Grant

unfoldable pub reason_or_default : Option RefusalReason → RefusalReason
reason_or_default none = no_warm_microvm
reason_or_default (some reason) = reason

unfoldable pub grant : Impl → ℕ → ℕ → Impl × Grant
unfolding available_capacity reason_or_default
grant s warm now =
    let (n, reason) = available_capacity s warm in
    if leb n 0 then (s, refused (reason_or_default reason)) else (
      record s {
        next_id = (s.next_id + 1) % mod64;
        reservations = insert ((s.next_id + 1) % mod64) now s.reservations;
      },
      granted (record { id = (s.next_id + 1) % mod64; granted_at = now }),
    )

-- `contacted`: Ready is closed, or it is now because the Health monitor has made contact.
unfoldable pub contacted : Impl → Bool → Impl × Bool
contacted s made_contact =
    if s.ready
    then (s, true)
    else if made_contact
    then (record s { ready = true }, true)
    else (s, false)

-- What `Reserve` reads of its surroundings: its context, the Health monitor, the Tracker, the clock.
pub record Surroundings : Type 0 where
  pub ctx_done : Bool
  pub made_contact : Bool
  pub healthy : Bool
  pub pools : List PoolAvailability
  pub now : ℕ

unfoldable pub reserve_running : Impl → Surroundings → Impl × Grant
unfolding contacted grant warm_available
reserve_running s e =
    let (s', yes_contacted) = contacted s e.made_contact in
    if not yes_contacted
    then (s', refused pool_manager_not_contacted)
    else grant s' (warm_available e.healthy e.pools) e.now

unfoldable pub reserve_in : RunState → Impl → Surroundings → Impl × Grant
unfolding reserve_running
reserve_in state_stopping s e = (s, refused shutting_down)
reserve_in state_new s e = (s, not_running)
reserve_in state_stopped s e = (s, not_running)
reserve_in state_running s e = reserve_running s e

unfoldable pub reserve : Impl → Surroundings → Impl × Grant
unfolding reserve_in
reserve s e = if e.ctx_done then (s, cancelled) else reserve_in s.state s e

unfoldable pub release_reservation : Impl → ℕ → Impl
release_reservation s id = record s { reservations = delete id s.reservations }

-- The Reservation of this id becomes the Allocation of this handle.
unfoldable pub convert : Impl → ℕ → Handle → Impl × Bool
convert s reservation h =
    if not (is_some (lookup reservation s.reservations)) then (s, false) else (
      record s {
        reservations = delete reservation s.reservations;
        allocations = put h.id s.allocations;
        placements = insert h.alloc.vm_uid h.alloc.placement s.placements;
      },
      true,
    )

unfoldable pub use_of : Impl → String → ℕ
use_of s name = elim (lookup name s.profile_use) [ none ↦ 0 | some n ↦ n ]

-- Returns one unit of a Profile, and wakes every caller that waits for one.
unfoldable pub release_profile : Impl → String → Impl
release_profile s name = record s {
  profile_use =
      if ltb 1 (use_of s name)
      then insert name (use_of s name - 1) s.profile_use
      else delete name s.profile_use;
  chans = record { made = s.chans.made + 1; closed = s.profile_free ∷ s.chans.closed };
  profile_free = s.chans.made;
}

unfoldable pub is_empty {ℓ} : {A : Type ℓ} → List A → Bool
is_empty [] = true
is_empty (x ∷ xs) = false

-- `close(s.drain)` when the last Allocation ends.
unfoldable pub close_drain : Impl → Impl
unfolding is_empty
close_drain s = elim s.drain [
  | none ↦ s
  | some chan ↦
      if is_empty s.allocations
      then record s { chans = record (s.chans) { closed = chan ∷ s.chans.closed }; drain = none }
      else s
]

unfoldable pub finish : Impl → Handle → Impl × Bool
unfolding release_profile close_drain
finish s h =
    if not (contains h.id s.allocations)
    then (s, false)
    else let s' = record s {
      allocations = drop h.id s.allocations;
      placements = delete h.alloc.vm_uid s.placements;
    } in
      (close_drain (release_profile s' h.alloc.profile), true)

-- A channel that is closed when the last Allocation ends.
unfoldable pub drained : Impl → ℕ × Impl
unfolding is_empty
drained s =
    if is_empty s.allocations
    then (
      s.chans.made,
      record s {
        chans = record { made = s.chans.made + 1; closed = s.chans.made ∷ s.chans.closed };
      },
    )
    else elim s.drain [
      | some chan ↦ (chan, s)
      | none ↦ (
        s.chans.made,
        record s {
          chans = record (s.chans) { made = s.chans.made + 1 };
          drain = some s.chans.made;
        },
      )
    ]

-- Whether the unit was taken, and the channel to wait on if it was not.
unfoldable pub enter_profile : Impl → Profile → Impl × Bool × ℕ
enter_profile s p =
    if ltb 0 p.max_concurrency && leb p.max_concurrency (use_of s p.name)
    then (s, false, s.profile_free)
    else (
      record s { profile_use = insert p.name (use_of s p.name + 1) s.profile_use },
      true,
      s.profile_free,
    )

unfoldable pub leave_profile : Impl → Profile → Impl
unfolding release_profile
leave_profile s p = release_profile s p.name

unfoldable pub waiting_on : Impl → PoolRef → ℕ
waiting_on s ref = elim (lookup ref s.waiting) [ none ↦ 0 | some n ↦ n ]

-- `waitOnPool(ref, 1)` and `waitOnPool(ref, -1)`.
unfoldable pub wait_on_pool : Impl → PoolRef → Impl × ℕ
wait_on_pool s ref =
    (record s { waiting = insert ref (waiting_on s ref + 1) s.waiting }, waiting_on s ref + 1)

unfoldable pub leave_pool : Impl → PoolRef → Impl × ℕ
leave_pool s ref =
    if leb (waiting_on s ref) 1
    then (record s { waiting = delete ref s.waiting }, 0)
    else (record s { waiting = insert ref (waiting_on s ref - 1) s.waiting }, waiting_on s ref - 1)
