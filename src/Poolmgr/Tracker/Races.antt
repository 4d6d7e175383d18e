-- ===== src/Poolmgr/Tracker/Races.antt =====
-- Polls and the events that race them.
use flintlock_runner.Prelude.{
  ℕ, ◌<◌, ◌≡◌, refl, true, false, List, none, some, Option, Bool, any, arith, Option-cases,
  Bool-cases, inl, inr, if◌then◌else◌, count_by, length, ◌⊎◌, max,
}
use flintlock_runner.Prelude.Map.{lookup, insert, lookup-insert}
use flintlock_runner.Prelude.Words.{half32, lt32}
use flintlock_runner.Poolmgr.Count.Laws.{total-rebaseline}
use flintlock_runner.Poolmgr.Event.{PoolRef, ref_eq, ref_eq_iff, ref_key, Event, PoolStatus, Wire}
use flintlock_runner.Poolmgr.Pool.{TrackedPool, available_count, close_waiters, fold_event}
use flintlock_runner.Poolmgr.Tracker.{
  Tracker, Step, events, untracks, request_poll, fold_answer, settle, apply_poll, apply, generation,
  answered, found, PoolStatus,
}

pools-apply :
    (w : Wire) (t : Tracker) (e : Event) (p : TrackedPool)
    → lookup e.pool t.pools ≡ some p
    → (apply w t e).pools ≡ insert e.pool (fold_event w e p t.chans).0 t.pools
unfolding apply request_poll
pools-apply w t e p at = rw (at, apply) (ground arith)

apply_untracked :
    (w : Wire) (t : Tracker) (e : Event) → lookup e.pool t.pools ≡ none → apply w t e ≡ t
unfolding apply
apply_untracked w t e gone = rw (gone, apply) refl

-- An event reaches the Pool that it names, and no other.
pub lookup-apply :
    (w : Wire) (t : Tracker) (e : Event) (r : PoolRef) (p : TrackedPool)
    → lookup r t.pools ≡ some p
    → lookup r (apply w t e).pools
      ≡ some (if ref_eq e.pool r then (fold_event w e p t.chans).0 else p)
lookup-apply w t e r p at = elim (Option-cases (lookup e.pool t.pools)) [
  | inl gone ↦ rw (apply_untracked w t e gone) (ground (arith, ref_eq_iff e.pool r))
  | inr (q, here) ↦ rw (pools-apply w t e q here) (
      ground
        (arith, lookup-insert e.pool r (fold_event w e q t.chans).0 t.pools, ref_eq_iff e.pool r))
]

-- The generation of a Pool that is tracked.
abbrev gen_of : Option TrackedPool → Option ℕ
gen_of none = none
gen_of (some p) = some (p.generation)

abbrev gen_at : Tracker → PoolRef → Option ℕ
gen_at t r = gen_of (lookup r t.pools)

-- The step is an event that names the Pool.
abbrev pub names_pool : PoolRef → Step → Bool
names_pool r (events e) = ref_eq e.pool r
names_pool r _ = false

abbrev pub untracks_pool : PoolRef → Step → Bool
untracks_pool r (untracks other) = ref_eq other r
untracks_pool r _ = false

-- How many of the steps are events that name the Pool, and whether one of them stops tracking it.
abbrev pub naming : PoolRef → List Step → ℕ
naming r = count_by (names_pool r)

abbrev pub untracked : PoolRef → List Step → Bool
untracked r = any (untracks_pool r)

generation-tracked :
    (t : Tracker) (r : PoolRef) (p : TrackedPool)
    → lookup r t.pools ≡ some p
    → generation t r ≡ p.generation
unfolding generation
generation-tracked t r p at = rw (at, generation) refl

apply_poll_fresh :
    (t : Tracker) (r : PoolRef) (p : TrackedPool) (n : ℕ) (s : PoolStatus)
    → lookup r t.pools ≡ some p
    → apply_poll t r p.generation n s ≡ settle t r (fold_answer p n s)
unfolding apply_poll
apply_poll_fresh t r p n s at = rw (at, apply_poll) (ground arith)

settled :
    (t : Tracker) (r : PoolRef) (p : TrackedPool) (n : ℕ) (s : PoolStatus)
    → p.declared ≡ true
    → s.available < half32
    → length p.available.named < half32
    → (lt32 0 (available_count (fold_answer p n s)) ≡ true)
      ⊎ (lt32 0 (available_count (fold_answer p n s)) ≡ false)
    → (q : TrackedPool) × (lookup r (settle t r (fold_answer p n s)).pools ≡ some q)
      × (q.needs_poll ≡ false)
      × (q.unsettled ≡ false)
      × (q.exhausted ≡ false)
      × (q.size ≡ n)
      × (available_count q ≡ max s.available (length p.available.named))
unfolding settle fold_answer available_count
settled t r p n s declared small few (inl warm) =
    let q = (close_waiters (fold_answer p n s) t.chans).0 in
    (
      q,
      rw warm (ground (arith, lookup-insert r r q t.pools, ref_eq_iff r r)),
      refl,
      refl,
      refl,
      refl,
      rw declared (total-rebaseline p.available s.available small few),
    )
settled t r p n s declared small few (inr cold) =
    let q = fold_answer p n s in
    (
      q,
      rw cold (ground (arith, lookup-insert r r q t.pools, ref_eq_iff r r)),
      refl,
      refl,
      refl,
      refl,
      rw declared (total-rebaseline p.available s.available small few),
    )

-- An answer that nothing raced settles its Pool: the Pool owes no poll and its doubt is gone, the
-- exhaustion mark is lifted, and a declared Pool reads the Pool Manager's count, or the number of
-- MicroVMs that events have named if that is more.
pub fresh_answer_settles :
    (t : Tracker) (r : PoolRef) (p : TrackedPool) (n : ℕ) (s : PoolStatus)
    → lookup r t.pools ≡ some p
    → p.declared ≡ true
    → s.available < half32
    → length p.available.named < half32
    → let t' = answered t r (generation t r) (found n s) in
      (q : TrackedPool) × (lookup r t'.pools ≡ some q)
      × (q.needs_poll ≡ false)
      × (q.unsettled ≡ false)
      × (q.exhausted ≡ false)
      × (q.size ≡ n)
      × (available_count q ≡ max s.available (length p.available.named))
unfolding answered
fresh_answer_settles t r p n s at declared small few =
    let q = fold_answer p n s in
    rw (generation-tracked t r p at) (
      rw (apply_poll_fresh t r p n s at)
        (settled t r p n s declared small few (Bool-cases (lt32 0 (available_count q)))))
