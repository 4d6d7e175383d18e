-- ===== src/Scheduler/Capacity/Grants.antt =====
-- When a Reservation is granted.
use flintlock_runner.Prelude.{
  ℕ, ◌≡◌, refl, Bool, true, false, not, ◌&&◌, ◌||◌, List, [], ◌∷◌, arith, ltb, any, nat_key,
}
use flintlock_runner.Prelude.Words.{lt32}
use flintlock_runner.Poolmgr.Tracker.{PoolAvailability}
use flintlock_runner.Scheduler.State.{Impl, RunState, state_running}
use flintlock_runner.Scheduler.Capacity.{
  Surroundings, Grant, granted, slots_in_use, sum_available, warm_available, grant, reserve,
}

abbrev pub is_granted : Grant → Bool
is_granted (granted r) = true
is_granted _ = false

abbrev pub is_running : RunState → Bool
is_running state_running = true
is_running _ = false

-- A declared Pool has a warm MicroVM.
abbrev pub is_warm : PoolAvailability → Bool
is_warm pa = pa.declared && lt32 0 pa.status.available

sum_available_pos : (pas : List PoolAvailability) → ltb 0 (sum_available pas) ≡ any is_warm pas
unfolding sum_available
sum_available_pos [] = refl
sum_available_pos (pa ∷ pas) = ground (arith, sum_available_pos pas)

warm_available_pos :
    (healthy : Bool) (pas : List PoolAvailability)
    → ltb 0 (warm_available healthy pas) ≡ (healthy && any is_warm pas)
unfolding warm_available
warm_available_pos healthy pas = ground (arith, sum_available_pos pas)

grant_iff :
    (s : Impl) (warm now : ℕ)
    → is_granted (grant s warm now).1 ≡ (ltb (slots_in_use s) s.slots && ltb 0 warm)
unfolding grant slots_in_use
grant_iff s warm now = ground arith

-- A Reservation is granted exactly if the caller's context is live, the Scheduler is running, the Pool
-- Manager has made contact, a Slot is free, the Pool Manager is healthy and some declared Pool has a
-- warm MicroVM.
pub reserve-granted_iff :
    (s : Impl) (e : Surroundings)
    → is_granted (reserve s e).1 ≡ (
        not e.ctx_done
        && is_running s.state
        && (s.ready || e.made_contact)
        && ltb (slots_in_use s) s.slots
        && (e.healthy && any is_warm e.pools))
unfolding reserve slots_in_use
reserve-granted_iff s e = ground (arith, sum_available_pos e.pools)

-- A refused request takes no Slot and leaves everything else as it was, but for noting that the Pool
-- Manager has made contact.
pub reserve-refused :
    (s : Impl) (e : Surroundings)
    → is_granted (reserve s e).1 ≡ false
    → (reserve s e).0 ≡ record s { ready = (reserve s e).0.ready }
unfolding reserve
reserve-refused s e h = ground arith
