-- ===== src/Scheduler/Capacity/Tests.antt =====
-- Runs of the accounting.
use flintlock_runner.Prelude.{
  ℕ, ◌≤◌, ◌≡◌, not, ◌&&◌, ◌||◌, List, [], ◌∷◌, arith, ltb, any, nat_key, String,
}
use flintlock_runner.Prelude.Map.{insert}
use flintlock_runner.Scheduler.State.{Profile}
use flintlock_runner.Scheduler.Examples.{busy, idle_impl, small, first_handle, warm_pools}
use flintlock_runner.Scheduler.Capacity.{reserve, slots_in_use, enter_profile, convert}
use flintlock_runner.Scheduler.Capacity.Slots.{Call, reserves, finishes, calls, calls-le-slots}
use flintlock_runner.Scheduler.Capacity.Grants.{
  is_granted, is_running, is_warm, reserve-granted_iff,
}
use flintlock_runner.Scheduler.Capacity.Limits.{Ledger}

abbrev rush : List Call
rush = reserves warm_pools ∷ reserves warm_pools ∷ finishes first_handle ∷ reserves warm_pools ∷ []

calls-le-slots_example : slots_in_use (calls busy rush) ≤ busy.slots
unfolding slots_in_use
calls-le-slots_example = calls-le-slots busy rush (omega arith)

reserve-granted_iff_example : is_granted (reserve busy warm_pools).1 ≡ (
    not warm_pools.ctx_done
    && is_running busy.state
    && (busy.ready || warm_pools.made_contact)
    && ltb (slots_in_use busy) busy.slots
    && (warm_pools.healthy && any is_warm warm_pools.pools))
reserve-granted_iff_example = reserve-granted_iff busy warm_pools

abbrev none_yet : Ledger
none_yet = record {
  impl = record idle_impl { reservations = (3, 9) ∷ [] };
  entering = [];
  live = [];
}

-- The Profile had a maximum of 2, which a reload has lowered to 1.
abbrev two_each : String → ℕ
two_each name = 2

abbrev wide : Profile
wide = record small { max_concurrency = 2 }

abbrev one_in : Ledger
one_in = record none_yet { impl = (enter_profile none_yet.impl wide).0; entering = "small" ∷ [] }

abbrev one_live : Ledger
one_live = record {
  impl = (convert one_in.impl 3 first_handle).0;
  entering = [];
  live = insert 2 "small" [];
}

abbrev one_more : Ledger
one_more = record one_live { impl = (enter_profile one_live.impl wide).0; entering = "small" ∷ [] }
