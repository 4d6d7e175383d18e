-- ===== src/Poolmgr/Pool.antt =====
-- internal/poolmgr/tracker.go, `trackedPool`, and the switch by which `apply` folds an event into it.
-- A Go channel is a number, and `Chans` says which are made and which are closed.
pub mod Laws
pub mod Debts
pub mod Tests
use flintlock_runner.Prelude.{
  ℕ, ◌+◌, ◌%◌, ◌==◌, Bool, true, false, not, ◌&&◌, ◌||◌, List, [], ◌∷◌, Option, none, some,
  if◌then◌else◌, String,
}
use flintlock_runner.Prelude.Words.{mod64, lt32, le32}
use flintlock_runner.Poolmgr.Count.{
  UidCount, new_uid_count, total, add, remove, rebaseline, reset, leaves,
}
use flintlock_runner.Poolmgr.Event.{
  Event, EventType, vm_provisioned, vm_available, vm_claimed, vm_released, vm_deleted_due_to_expiry,
  vm_deleted_on_release, vm_hook_failed, pool_size_below_target, PoolStatus, Wire,
  below_target_counts, hook_failure_quarantined, BelowTargetPayload,
}

pub record Chans : Type 0 where
  pub made : ℕ
  pub closed : List ℕ

pub record TrackedPool : Type 0 where
  pub available : UidCount
  pub leased : UidCount
  pub provisioning : UidCount
  pub quarantined : UidCount
  pub size : ℕ
  pub declared : Bool
  pub exhausted : Bool
  pub needs_poll : Bool
  pub unsettled : Bool
  pub generation : ℕ
  pub waiters : ℕ
  pub waiting : ℕ

-- The Pool that `poolLocked` makes, with a channel of its own.
unfoldable pub new_pool : ℕ → TrackedPool
new_pool chan = record {
  available = new_uid_count;
  leased = new_uid_count;
  provisioning = new_uid_count;
  quarantined = new_uid_count;
  size = 0;
  declared = false;
  exhausted = false;
  needs_poll = false;
  unsettled = false;
  generation = 0;
  waiters = chan;
  waiting = 0;
}

unfoldable pub available_count : TrackedPool → ℕ
available_count p = if not p.declared || p.exhausted then 0 else total p.available

unfoldable pub status : TrackedPool → PoolStatus
status p = record {
  available = available_count p;
  leased = total p.leased;
  provisioning = total p.provisioning;
  quarantined = total p.quarantined;
}

unfoldable pub rebaseline_pool : TrackedPool → PoolStatus → TrackedPool
rebaseline_pool p s = record p {
  available = rebaseline p.available s.available;
  leased = rebaseline p.leased s.leased;
  provisioning = rebaseline p.provisioning s.provisioning;
  quarantined = rebaseline p.quarantined s.quarantined;
}

unfoldable pub close_waiters : TrackedPool → Chans → TrackedPool × Chans
close_waiters p cs = (
  record p { waiters = cs.made; waiting = 0 },
  record { made = cs.made + 1; closed = p.waiters ∷ cs.closed },
)

-- The arm of VM_AVAILABLE; the flag is `woken`.
unfoldable pub on_available : TrackedPool → Chans → String → TrackedPool × Chans × Bool
unfolding close_waiters
on_available p cs uid =
    let (counted, added, took) = add p.available uid in
    let q = record p {
      exhausted = false;
      provisioning = leaves p.provisioning uid;
      available = counted;
    } in
    let (r, cs') = if added then close_waiters q cs else (q, cs) in
    (if took then record r { unsettled = true } else r, cs', added)

-- The counts that a POOL_SIZE_BELOW_TARGET event carries settle the Pool.
unfoldable pub on_below_target : TrackedPool → Option BelowTargetPayload → TrackedPool
unfolding rebaseline_pool
on_below_target p none = p
on_below_target p (some counts) =
    let q =
      rebaseline_pool (record p { exhausted = false; size = counts.target })
        (record {
          available = counts.available;
          leased = counts.leased;
          provisioning = counts.provisioning;
          quarantined = counts.quarantined;
        }) in
    record q { needs_poll = false; unsettled = false }

-- The other arms of the switch.
unfoldable pub on_event : Wire → Event → EventType → TrackedPool → TrackedPool
unfolding on_below_target
on_event w e vm_provisioned p = record p {
  exhausted = false;
  provisioning = (add p.provisioning e.vm_uid).0;
}
on_event w e vm_claimed p = record p {
  available = leaves p.available e.vm_uid;
  leased = (add p.leased e.vm_uid).0;
}
on_event w e vm_released p = record p {
  exhausted = false;
  available = (remove p.available e.vm_uid).0;
  leased = leaves p.leased e.vm_uid;
}
on_event w e vm_deleted_due_to_expiry p = record p {
  exhausted = false;
  available = (remove p.available e.vm_uid).0;
  leased = leaves p.leased e.vm_uid;
}
on_event w e vm_deleted_on_release p = record p {
  exhausted = false;
  available = (remove p.available e.vm_uid).0;
  leased = (remove p.leased e.vm_uid).0;
}
on_event w e vm_hook_failed p = record p {
  available = (remove p.available e.vm_uid).0;
  provisioning = leaves p.provisioning e.vm_uid;
  quarantined =
      if hook_failure_quarantined w e then (add p.quarantined e.vm_uid).0 else p.quarantined;
}
on_event w e pool_size_below_target p = on_below_target p (below_target_counts w e)
on_event w e _ p = p

unfoldable pub switch : Wire → Event → EventType → TrackedPool → Chans → TrackedPool × Chans × Bool
unfolding on_event on_available
switch w e vm_available p cs = on_available p cs e.vm_uid
switch w e type p cs = (on_event w e type p, cs, false)

-- What `apply` does to the Pool behind the switch: the two ways in which a Pool comes to owe a poll.
unfoldable pub settle_debts : ℕ → TrackedPool → TrackedPool
settle_debts before p =
    let q = if lt32 0 before && available_count p == 0 then record p { needs_poll = true } else p in
    if q.unsettled && (le32 q.size 0 || lt32 (available_count q) q.size)
    then record q { needs_poll = true }
    else q

-- One event, folded into its Pool. The flag is `woken`.
unfoldable pub fold_event : Wire → Event → TrackedPool → Chans → TrackedPool × Chans × Bool
fold_event w e p cs =
    let p' = record p { generation = (p.generation + 1) % mod64 } in
    let (q, cs', woken) = switch w e e.type p' cs in
    (settle_debts (available_count p') q, cs', woken)
