-- ===== src/Poolmgr/Pool/Laws.antt =====
-- The invariant of a tracked Pool, and the replay of an event.
use flintlock_runner.Prelude.{
  ℕ, ◌+◌, ◌%◌, ◌<◌, ◌≡◌, refl, Bool, true, false, String, arith, Option, none, some, ap,
  if◌then◌else◌, ◌∙◌, sym,
}
use flintlock_runner.Prelude.Words.{mod64}
use flintlock_runner.Poolmgr.Count.{UidCount, new_uid_count, add, remove, leaves, rebaseline}
use flintlock_runner.Poolmgr.Count.Laws.{
  IsCount, add-IsCount, remove-IsCount, leaves-IsCount, rebaseline-IsCount, new-IsCount,
}
use flintlock_runner.Poolmgr.Count.Covered.{
  IsCovered, add-IsCovered, remove-IsCovered, leaves-IsCovered, rebaseline-IsCovered, new-IsCovered,
  leaves-leaves,
}
use flintlock_runner.Poolmgr.Count.Replay.{add-add, remove-remove}
use flintlock_runner.Poolmgr.Event.{
  Event, EventType, vm_provisioned, vm_available, vm_claimed, vm_released, vm_deleted_due_to_expiry,
  vm_deleted_on_release, vm_hook_failed, pool_size_below_target, other, Wire, below_target_counts,
  hook_failure_quarantined, PoolStatus, BelowTargetPayload,
}
use flintlock_runner.Poolmgr.Pool.{
  Chans, TrackedPool, new_pool, rebaseline_pool, switch, settle_debts, fold_event,
}

abbrev pub IsSound : UidCount → Type 0
IsSound c = IsCount c × IsCovered c

pub record IsPool (p : TrackedPool) : Type 0 where
  pub available_sound : IsSound p.available
  pub leased_sound : IsSound p.leased
  pub provisioning_sound : IsSound p.provisioning
  pub quarantined_sound : IsSound p.quarantined
  pub generation_bound : p.generation < mod64

add-IsSound : (c : UidCount) (u : String) → IsSound c → IsSound (add c u).0
add-IsSound c u (h, k) = (add-IsCount c u h, add-IsCovered c u h.unnamed_positive k)

remove-IsSound : (c : UidCount) (u : String) → IsSound c → IsSound (remove c u).0
remove-IsSound c u (h, k) = (remove-IsCount c u h, remove-IsCovered c u k)

leaves-IsSound : (c : UidCount) (u : String) → IsSound c → IsSound (leaves c u)
leaves-IsSound c u (h, k) = (leaves-IsCount c u h, leaves-IsCovered c u k)

rebaseline-IsSound : (c : UidCount) (n : ℕ) → IsSound c → IsSound (rebaseline c n)
rebaseline-IsSound c n (h, k) = (rebaseline-IsCount c n h, rebaseline-IsCovered c n)

-- The four counts, which are what an event or a poll changes of a Pool's figures.
pub record Counts : Type 0 where
  pub available : UidCount
  pub leased : UidCount
  pub provisioning : UidCount
  pub quarantined : UidCount

abbrev pub counts : TrackedPool → Counts
counts p = record {
  available = p.available;
  leased = p.leased;
  provisioning = p.provisioning;
  quarantined = p.quarantined;
}

abbrev fold_total : Option BelowTargetPayload → Counts → Counts
fold_total none c = c
fold_total (some s) c = record {
  available = rebaseline c.available s.available;
  leased = rebaseline c.leased s.leased;
  provisioning = rebaseline c.provisioning s.provisioning;
  quarantined = rebaseline c.quarantined s.quarantined;
}

-- What the arms of the switch do to the counts.
abbrev fold_counts : Wire → Event → EventType → Counts → Counts
fold_counts w e vm_provisioned c = record c { provisioning = (add c.provisioning e.vm_uid).0 }
fold_counts w e vm_available c = record c {
  provisioning = leaves c.provisioning e.vm_uid;
  available = (add c.available e.vm_uid).0;
}
fold_counts w e vm_claimed c = record c {
  available = leaves c.available e.vm_uid;
  leased = (add c.leased e.vm_uid).0;
}
fold_counts w e vm_released c = record c {
  available = (remove c.available e.vm_uid).0;
  leased = leaves c.leased e.vm_uid;
}
fold_counts w e vm_deleted_due_to_expiry c = record c {
  available = (remove c.available e.vm_uid).0;
  leased = leaves c.leased e.vm_uid;
}
fold_counts w e vm_deleted_on_release c = record c {
  available = (remove c.available e.vm_uid).0;
  leased = (remove c.leased e.vm_uid).0;
}
fold_counts w e vm_hook_failed c = record c {
  available = (remove c.available e.vm_uid).0;
  provisioning = leaves c.provisioning e.vm_uid;
  quarantined =
      if hook_failure_quarantined w e then (add c.quarantined e.vm_uid).0 else c.quarantined;
}
fold_counts w e pool_size_below_target c = fold_total (below_target_counts w e) c
fold_counts w e _ c = c

counts-switch :
    (w : Wire) (e : Event) (t : EventType) (p : TrackedPool) (cs : Chans)
    → counts (switch w e t p cs).0 ≡ fold_counts w e t (counts p)
unfolding switch
counts-switch w e vm_available p cs = ground arith
counts-switch w e _ p cs = ground arith

counts-settle_debts : (n : ℕ) (p : TrackedPool) → counts (settle_debts n p) ≡ counts p
unfolding settle_debts
counts-settle_debts n p = ground arith

counts-fold_event :
    (w : Wire) (e : Event) (p : TrackedPool) (cs : Chans)
    → counts (fold_event w e p cs).0 ≡ fold_counts w e e.type (counts p)
unfolding fold_event
counts-fold_event w e p cs =
    counts-settle_debts _ _
    ∙ counts-switch w e e.type (record p { generation = (p.generation + 1) % mod64 }) cs

fold_total_twice :
    (o : Option BelowTargetPayload) (c : Counts) → fold_total o (fold_total o c) ≡ fold_total o c
unfolding rebaseline
fold_total_twice none c = refl
fold_total_twice (some s) c = refl

fold_counts_twice :
    (w : Wire) (e : Event) (t : EventType) (c : Counts)
    → IsCovered c.available
    → IsCovered c.leased
    → IsCovered c.provisioning
    → fold_counts w e t (fold_counts w e t c) ≡ fold_counts w e t c
fold_counts_twice w e vm_provisioned c a l p = ground (arith, add-add c.provisioning e.vm_uid)
fold_counts_twice w e vm_available c a l p =
    ground (arith, add-add c.available e.vm_uid, leaves-leaves c.provisioning e.vm_uid p)
fold_counts_twice w e vm_claimed c a l p =
    ground (arith, add-add c.leased e.vm_uid, leaves-leaves c.available e.vm_uid a)
fold_counts_twice w e vm_released c a l p =
    ground (arith, remove-remove c.available e.vm_uid, leaves-leaves c.leased e.vm_uid l)
fold_counts_twice w e vm_deleted_due_to_expiry c a l p =
    ground (arith, remove-remove c.available e.vm_uid, leaves-leaves c.leased e.vm_uid l)
fold_counts_twice w e vm_deleted_on_release c a l p =
    ground (arith, remove-remove c.available e.vm_uid, remove-remove c.leased e.vm_uid)
fold_counts_twice w e vm_hook_failed c a l p = ground (
  arith,
  remove-remove c.available e.vm_uid,
  leaves-leaves c.provisioning e.vm_uid p,
  add-add c.quarantined e.vm_uid,
)
fold_counts_twice w e pool_size_below_target c a l p = fold_total_twice (below_target_counts w e) c
fold_counts_twice w e other c a l p = refl

-- An event that arrives twice in a row, as a new subscription may replay it, changes each of the four
-- counts of its Pool once: the second arrival can neither inflate nor deflate any of them.
pub counts_replay :
    (w : Wire) (e : Event) (p : TrackedPool) (cs ds : Chans)
    → IsPool p
    → counts (fold_event w e (fold_event w e p cs).0 ds).0 ≡ counts (fold_event w e p cs).0
counts_replay w e p cs ds h =
    counts-fold_event w e (fold_event w e p cs).0 ds
    ∙ ap (fold_counts w e e.type) (counts-fold_event w e p cs)
    ∙ fold_counts_twice w e e.type (counts p) h.available_sound.1 h.leased_sound.1
        h.provisioning_sound.1
    ∙ sym (counts-fold_event w e p cs)

-- Every arm of the switch keeps the four counts sound.
abbrev pub AreSound : Counts → Type 0
AreSound c = IsSound c.available × IsSound c.leased × IsSound c.provisioning × IsSound c.quarantined

AreSound-fold_total :
    (o : Option BelowTargetPayload) (c : Counts) → AreSound c → AreSound (fold_total o c)
AreSound-fold_total none c h = h
AreSound-fold_total (some s) c (a, l, p, q) = (
  rebaseline-IsSound _ _ a,
  rebaseline-IsSound _ _ l,
  rebaseline-IsSound _ _ p,
  rebaseline-IsSound _ _ q,
)

AreSound-fold_counts :
    (w : Wire) (e : Event) (t : EventType) (c : Counts)
    → AreSound c
    → AreSound (fold_counts w e t c)
AreSound-fold_counts w e vm_provisioned c (a, l, p, q) = (a, l, add-IsSound _ _ p, q)
AreSound-fold_counts w e vm_available c (a, l, p, q) =
    (add-IsSound _ _ a, l, leaves-IsSound _ _ p, q)
AreSound-fold_counts w e vm_claimed c (a, l, p, q) = (leaves-IsSound _ _ a, add-IsSound _ _ l, p, q)
AreSound-fold_counts w e vm_released c (a, l, p, q) =
    (remove-IsSound _ _ a, leaves-IsSound _ _ l, p, q)
AreSound-fold_counts w e vm_deleted_due_to_expiry c (a, l, p, q) =
    (remove-IsSound _ _ a, leaves-IsSound _ _ l, p, q)
AreSound-fold_counts w e vm_deleted_on_release c (a, l, p, q) =
    (remove-IsSound _ _ a, remove-IsSound _ _ l, p, q)
AreSound-fold_counts w e vm_hook_failed c (a, l, p, q) =
    (remove-IsSound _ _ a, l, leaves-IsSound _ _ p, quarantines (hook_failure_quarantined w e))
  where
    quarantines : (b : Bool) → IsSound (if b then (add c.quarantined e.vm_uid).0 else c.quarantined)
    quarantines true = add-IsSound _ _ q
    quarantines false = q
AreSound-fold_counts w e pool_size_below_target c h =
    AreSound-fold_total (below_target_counts w e) c h
AreSound-fold_counts w e other c h = h

generation-settle_debts : (n : ℕ) (p : TrackedPool) → (settle_debts n p).generation ≡ p.generation
unfolding settle_debts
generation-settle_debts n p = ground arith

generation-switch :
    (w : Wire) (e : Event) (t : EventType) (p : TrackedPool) (cs : Chans)
    → (switch w e t p cs).0.generation ≡ p.generation
unfolding switch
generation-switch w e vm_available p cs = ground arith
generation-switch w e _ p cs = ground arith

-- Every event moves its Pool's generation on by one, modulo 2 ^ 64.
pub generation-fold_event :
    (w : Wire) (e : Event) (p : TrackedPool) (cs : Chans)
    → (fold_event w e p cs).0.generation ≡ (p.generation + 1) % mod64
unfolding fold_event
generation-fold_event w e p cs =
    generation-settle_debts _ _
    ∙ generation-switch w e e.type (record p { generation = (p.generation + 1) % mod64 }) cs

pub IsPool-of_counts : (p : TrackedPool) → AreSound (counts p) → p.generation < mod64 → IsPool p
IsPool-of_counts p (a, l, q, r) g = record {
  available_sound = a;
  leased_sound = l;
  provisioning_sound = q;
  quarantined_sound = r;
  generation_bound = g;
}

pub sound_counts : {p : TrackedPool} → IsPool p → AreSound (counts p)
sound_counts h = (h.available_sound, h.leased_sound, h.provisioning_sound, h.quarantined_sound)

pub fold_event-IsPool :
    (w : Wire) (e : Event) (p : TrackedPool) (cs : Chans)
    → IsPool p
    → IsPool (fold_event w e p cs).0
fold_event-IsPool w e p cs h =
    IsPool-of_counts _
      (rw (counts-fold_event w e p cs)
        (AreSound-fold_counts w e e.type (counts p) (sound_counts h)))
      (rw (generation-fold_event w e p cs) (omega arith))

pub rebaseline_pool-IsPool :
    (p : TrackedPool) (s : PoolStatus) → IsPool p → IsPool (rebaseline_pool p s)
unfolding rebaseline_pool
rebaseline_pool-IsPool p s h =
    IsPool-of_counts _
      (
        rebaseline-IsSound _ _ h.available_sound,
        rebaseline-IsSound _ _ h.leased_sound,
        rebaseline-IsSound _ _ h.provisioning_sound,
        rebaseline-IsSound _ _ h.quarantined_sound,
      )
      h.generation_bound

pub new_pool-IsPool : (chan : ℕ) → IsPool (new_pool chan)
unfolding new_pool
new_pool-IsPool chan =
    let n : IsSound new_uid_count = (new-IsCount, new-IsCovered) in
    IsPool-of_counts _ (n, n, n, n) (omega arith)
