-- ===== src/Scheduler/Allocate/Errors.antt =====
-- What an allocation leaves behind, on each of its paths.
use flintlock_runner.Prelude.{
  ℕ, ◌+◌, ◌%◌, ◌≤◌, ◌≡◌, refl, Bool, true, false, ◌∷◌, Option, none, some, arith, if◌then◌else◌,
  nat_key, string_key, ==_iff, is_some,
}
use flintlock_runner.Prelude.Map.{length-delete_lt}
use flintlock_runner.Prelude.Uids.{contains, contains-put, length-put}
use flintlock_runner.Prelude.Words.{mod64}
use flintlock_runner.Poolmgr.Event.{ref_key}
use flintlock_runner.Scheduler.State.{
  Impl, Profile, Lease, Handle, set_handle, new_handle, Placement,
}
use flintlock_runner.Scheduler.Capacity.{convert, slots_in_use}
use flintlock_runner.Scheduler.Release.{start_heartbeat}
use flintlock_runner.Scheduler.Placement.{
  Claim, AllocationError, cancelled, Around, resolve_placement, placed, unplaced,
}
use flintlock_runner.Scheduler.Allocate.{
  Allocated, made, erred, lease_of, abandon, record_allocation, allocated,
}

abbrev pub handle_of : Allocated → Option Handle
handle_of (made h) = some h
handle_of (erred e) = none

-- The Lease of a handle that is one of the Allocations.
abbrev pub held_lease : Impl → Option Handle → Option Lease
held_lease s none = none
held_lease s (some h) = if contains h.id s.allocations then some (h.alloc.lease) else none

-- A leased MicroVM has become an Allocation, which holds its Lease, or its release has been asked for;
-- and no Slot more is in use.
pub record AccountsFor (l : Lease) (s s' : Impl) (r : Allocated) : Type 0 where
  pub released : s'.abandoned ≡ (if is_some (handle_of r) then s.abandoned else l ∷ s.abandoned)
  pub holder : held_lease s' (handle_of r) ≡ (if is_some (handle_of r) then some l else none)
  pub slots : slots_in_use s' ≤ slots_in_use s

record_allocation-AccountsFor :
    (s : Impl) (reservation job : ℕ) (p : Profile) (c : Claim) (now : ℕ) (at : Placement)
    → AccountsFor
        (lease_of p c now)
        s
        (record_allocation s reservation job p c now at).0
        (record_allocation s reservation job p c now at).1
unfolding record_allocation abandon convert start_heartbeat set_handle new_handle slots_in_use
record_allocation-AccountsFor s reservation job p c now at =
    let id = (s.next_id + 1) % mod64 in
    record {
      released = ground arith;
      holder = ground (arith, contains-put id id s.allocations, ==_iff id id);
      slots =
          ground (arith, length-delete_lt reservation s.reservations, length-put id s.allocations);
    }

abandon-AccountsFor :
    (l : Lease) (s : Impl) (err : AllocationError) → AccountsFor l s (abandon s l) (erred err)
unfolding abandon slots_in_use
abandon-AccountsFor l s err = record { released = refl; holder = refl; slots = omega arith }

-- A claim that has succeeded becomes an Allocation that holds its Lease, or, on each path that fails,
-- its release is asked for; and no Slot more is in use than before.
pub allocated-AccountsFor :
    (s : Impl) (reservation job : ℕ) (p : Profile) (c : Claim) (ctx_done : Bool) (e : Around)
    → AccountsFor
        (lease_of p c e.now)
        s
        (allocated s reservation job p c ctx_done e).0
        (allocated s reservation job p c ctx_done e).1
unfolding allocated
allocated-AccountsFor s reservation job p c true e =
    abandon-AccountsFor (lease_of p c e.now) s cancelled
allocated-AccountsFor s reservation job p c false e =
    elim (resolve_placement s e (some c))
      as (λ r.
        (let out : Impl × Allocated = elim r [
          | unplaced err ↦ (abandon s (lease_of p c e.now), erred err)
          | placed at ↦ record_allocation s reservation job p c e.now at
        ] in
          AccountsFor (lease_of p c e.now) s out.0 out.1)) [
            | unplaced err ↦ abandon-AccountsFor (lease_of p c e.now) s err
            | placed at ↦ record_allocation-AccountsFor s reservation job p c e.now at
          ]
