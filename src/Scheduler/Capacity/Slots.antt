-- ===== src/Scheduler/Capacity/Slots.antt =====
-- No run of the Scheduler uses more Slots than it has.
use flintlock_runner.Prelude.{
  ℕ, ◌+◌, ◌%◌, ◌≤◌, ◌≡◌, true, false, List, [], ◌∷◌, none, is_some, arith, nat_key, string_key,
}
use flintlock_runner.Prelude.Map.{
  lookup, IsMap, length-insert, length-delete, length-delete_le, length-delete_lt, lookup-delete,
}
use flintlock_runner.Prelude.Uids.{contains, put, length-put, length-drop_le, contains-put}
use flintlock_runner.Prelude.Words.{mod64}
use flintlock_runner.Poolmgr.Event.{PoolRef}
use flintlock_runner.Scheduler.State.{Profile, Handle, Impl}
use flintlock_runner.Scheduler.Capacity.{
  Surroundings, slots_in_use, grant, reserve, release_reservation, convert, finish, drained,
  enter_profile, leave_profile, wait_on_pool, leave_pool,
}

-- What the Scheduler's callers and its own goroutines ask of the accounting. `clears` is the first
-- step of a shutdown.
pub data Call : Type 0 where
  reserves : Surroundings → Call
  -- `grant`, of a `Reserve` that has read the state of the Scheduler and the warm MicroVMs before.
  grants : ℕ → ℕ → Call
  returns : ℕ → Call
  converts : ℕ → Handle → Call
  finishes : Handle → Call
  enters leaves : Profile → Call
  waits stops_waiting : PoolRef → Call
  drains clears : Call

unfoldable pub call : Impl → Call → Impl
call s (reserves e) = (reserve s e).0
call s (grants warm now) = (grant s warm now).0
call s (returns id) = release_reservation s id
call s (converts id h) = (convert s id h).0
call s (finishes h) = (finish s h).0
call s (enters p) = (enter_profile s p).0
call s (leaves p) = leave_profile s p
call s (waits ref) = (wait_on_pool s ref).0
call s (stops_waiting ref) = (leave_pool s ref).0
call s drains = (drained s).1
call s clears = record s { reservations = [] }

unfoldable pub calls : Impl → List Call → Impl
calls s [] = s
calls s (c ∷ cs) = calls (call s c) cs

-- The Slots in use stay within the Slots that there are.
abbrev Within : Impl → Impl → Type 0
Within s t = (t.slots ≡ s.slots) × (slots_in_use t ≤ s.slots)

reserve-Within : (s : Impl) (e : Surroundings) → slots_in_use s ≤ s.slots → Within s (reserve s e).0
unfolding slots_in_use reserve
reserve-Within s e h = ground (arith, length-insert ((s.next_id + 1) % mod64) e.now s.reservations)

convert-Within :
    (s : Impl) (id : ℕ) (h : Handle) → slots_in_use s ≤ s.slots → Within s (convert s id h).0
unfolding slots_in_use convert
convert-Within s id h k =
    ground (arith, length-delete_lt id s.reservations, length-put h.id s.allocations)

finish-Within : (s : Impl) (h : Handle) → slots_in_use s ≤ s.slots → Within s (finish s h).0
unfolding slots_in_use finish
finish-Within s h k = ground (arith, length-drop_le h.id s.allocations)

call-Within : (s : Impl) (c : Call) → slots_in_use s ≤ s.slots → Within s (call s c)
unfolding call
call-Within s (reserves e) h = reserve-Within s e h
call-Within s (grants warm now) h =
    unfold slots_in_use grant in
    ground (arith, length-insert ((s.next_id + 1) % mod64) now s.reservations)
call-Within s (returns id) h =
    unfold slots_in_use release_reservation in ground (arith, length-delete_le id s.reservations)
call-Within s (converts id x) h = convert-Within s id x h
call-Within s (finishes x) h = finish-Within s x h
call-Within s (enters p) h = unfold slots_in_use enter_profile in ground arith
call-Within s (leaves p) h = unfold slots_in_use leave_profile in ground arith
call-Within s (waits ref) h = unfold slots_in_use wait_on_pool in ground arith
call-Within s (stops_waiting ref) h = unfold slots_in_use leave_pool in ground arith
call-Within s drains h = unfold slots_in_use drained in ground arith
call-Within s clears h = unfold slots_in_use in ground arith

-- Whatever reservations, conversions, ends of Allocations and other calls there are, in whatever
-- order, the held Reservations and the live Allocations together never exceed the Slots.
pub calls-le-slots :
    (s : Impl) (cs : List Call) → slots_in_use s ≤ s.slots → slots_in_use (calls s cs) ≤ s.slots
unfolding calls
calls-le-slots s [] h = h
calls-le-slots s (c ∷ cs) h =
    let (same, within) = call-Within s c h in
    omega (arith, same, calls-le-slots (call s c) cs (omega (arith, same, within)))

-- A Reservation that is held becomes an Allocation without its Slot being free in between: the Slots
-- in use are as many as before, and the Reservation is gone.
pub convert_keeps_slot :
    (s : Impl) (id : ℕ) (h : Handle)
    → IsMap s.reservations
    → contains h.id s.allocations ≡ false
    → is_some (lookup id s.reservations) ≡ true
    → ((convert s id h).1 ≡ true)
      × (slots_in_use (convert s id h).0 ≡ slots_in_use s)
      × (lookup id (convert s id h).0.reservations ≡ none)
      × (contains h.id (convert s id h).0.allocations ≡ true)
unfolding slots_in_use convert put
convert_keeps_slot s id h maps fresh held = ground (
  arith,
  length-delete id s.reservations maps,
  lookup-delete id id s.reservations,
  contains-put h.id h.id s.allocations,
)
