-- ===== src/Poolmgr/Tracker/Reads.antt =====
-- What the capacity computation reads, what a waiter sees, and Pools that are no longer tracked.
use flintlock_runner.Prelude.{
  ℕ, ◌≡◌, refl, Bool, true, false, not, ◌||◌, Option, none, some, is_some, arith, Option-cases,
  if◌then◌else◌, nat_key, string_key,
}
use flintlock_runner.Prelude.Map.{lookup, lookup-insert}
use flintlock_runner.Poolmgr.Count.{total}
use flintlock_runner.Poolmgr.Event.{PoolRef, ref_eq_iff, ref_key, PoolStatus}
use flintlock_runner.Poolmgr.Pool.{TrackedPool, available_count}
use flintlock_runner.Poolmgr.Tracker.{
  Tracker, pool_locked, available, set_declared, apply_poll, answered, not_found, found,
}

-- The Pool as the capacity computation should see it, by its own conditions.
abbrev readable : Tracker → PoolRef → Option TrackedPool
readable t r = elim (lookup r t.pools) [
  | none ↦ none
  | some p ↦ if not p.declared || p.exhausted then none else some p
]

-- The count that the Scheduler reads is that of the Pool's record, and zero while the Pool Manager is
-- unhealthy and for a Pool that is unknown, undeclared or marked exhausted.
pub available_lem :
    (t : Tracker) (healthy : Bool) (r : PoolRef)
    → available t healthy r
      ≡ (if healthy then elim (readable t r) [ none ↦ 0 | some p ↦ total p.available ] else 0)
unfolding available available_count
available_lem t true r = ground (arith, Option-cases (lookup r t.pools))
available_lem t false r = refl

-- A late answer about a Pool that has been untracked: counts are dropped, as the code means to, but
-- "not found" makes the Pool tracked again, and with it a place in every later round of polls.
pub untracked_comes_back :
    (t : Tracker) (r : PoolRef) (asked n : ℕ) (s : PoolStatus)
    → lookup r t.pools ≡ none
    → (answered t r asked (found n s) ≡ t)
      × (is_some (lookup r (answered t r asked not_found).pools) ≡ true)
unfolding answered apply_poll set_declared
untracked_comes_back t r asked n s gone = (
  rw (gone, apply_poll) refl,
  ground (
    arith,
    lookup-insert r r
        (record (pool_locked t r).0 { declared = false; needs_poll = false; unsettled = false })
        (pool_locked t r).1.pools,
    ref_eq_iff r r,
  ),
)
