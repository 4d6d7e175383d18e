-- ===== src/Poolmgr/Tracker/Invariant.antt =====
-- The invariant of the Tracker: every Pool is sound, and every Pool waits on an open channel of its own.
use flintlock_runner.Prelude.{
  ℕ, ◌+◌, ◌≡◌, refl, Bool, true, false, List, [], ◌∷◌, some, arith, nat_key, Option-cases,
  Bool-cases, inl, inr, if◌then◌else◌, ◌==◌, ◌⊎◌, ◌%◌, is_some,
}
use mathlib.Core.Path.{subst}
use flintlock_runner.Prelude.Map.{lookup, insert, lookup-insert}
use flintlock_runner.Prelude.Uids.{contains}
use flintlock_runner.Prelude.Words.{mod64, lt32}
use flintlock_runner.Poolmgr.Count.{reset}
use flintlock_runner.Poolmgr.Count.Laws.{reset-IsCount}
use flintlock_runner.Poolmgr.Count.Covered.{reset-IsCovered}
use flintlock_runner.Poolmgr.Event.{
  PoolRef, ref_eq_iff, ref_key, Event, EventType, vm_available, PoolStatus, Wire,
}
use flintlock_runner.Poolmgr.Pool.{
  Chans, TrackedPool, new_pool, available_count, rebaseline_pool, close_waiters, fold_event, switch,
  settle_debts,
}
use flintlock_runner.Poolmgr.Pool.Laws.{
  IsPool, fold_event-IsPool, rebaseline_pool-IsPool, new_pool-IsPool, counts, AreSound,
  IsPool-of_counts, sound_counts,
}
use flintlock_runner.Poolmgr.Tracker.{
  Tracker, Step, events, answers, tracks, untracks, exhausts, waits, streams, turns, found,
  not_found, failed, kicked, ticked, set_stream_up, poll_turn, new_tracker, request_poll,
  pool_locked, store, track, set_declared, untrack, mark_exhausted, wait, fold_answer, settle,
  apply_poll, apply, answered, step, run,
}
use flintlock_runner.Poolmgr.Tracker.Channels.{
  IsSafe, replace-IsSafe, rearm-IsSafe, extend-IsSafe, remove-IsSafe,
}

abbrev pub Rearms : TrackedPool → Chans → TrackedPool → Chans → Type 0
Rearms p cs q ds =
    ((q.waiters ≡ p.waiters) × (ds ≡ cs))
    ⊎ ((q.waiters ≡ cs.made) × (ds ≡ record { made = cs.made + 1; closed = p.waiters ∷ cs.closed }))

switch-Rearms :
    (w : Wire) (e : Event) (t : EventType) (p : TrackedPool) (cs : Chans)
    → Rearms p cs (switch w e t p cs).0 (switch w e t p cs).1
unfolding switch
switch-Rearms w e vm_available p cs = ground arith
switch-Rearms w e _ p cs = inl (ground arith, refl)

waiters-settle_debts : (n : ℕ) (p : TrackedPool) → (settle_debts n p).waiters ≡ p.waiters
unfolding settle_debts
waiters-settle_debts n p = ground arith

pub fold_event-Rearms :
    (w : Wire) (e : Event) (p : TrackedPool) (cs : Chans)
    → Rearms p cs (fold_event w e p cs).0 (fold_event w e p cs).1
unfolding fold_event
fold_event-Rearms w e p cs =
    let p' = record p { generation = (p.generation + 1) % mod64 } in
    ground (
      arith,
      switch-Rearms w e e.type p' cs,
      waiters-settle_debts (available_count p') (switch w e e.type p' cs).0,
    )

Rearms-IsSafe :
    (ps : List (PoolRef × TrackedPool)) (cs ds : Chans) (r : PoolRef) (p q : TrackedPool)
    → IsSafe ps cs
    → lookup r ps ≡ some p
    → IsPool q
    → Rearms p cs q ds
    → IsSafe (insert r q ps) ds
Rearms-IsSafe ps cs ds r p q h at ok (inl (same, e)) =
    rw e (replace-IsSafe ps cs r p q h at ok same)
Rearms-IsSafe ps cs ds r p q h at ok (inr (fresh, e)) =
    rw e (rearm-IsSafe ps cs r p q h at ok fresh)

abbrev pub IsTracker : Tracker → Type 0
IsTracker t = IsSafe t.pools t.chans

apply-IsTracker : (w : Wire) (t : Tracker) (e : Event) → IsTracker t → IsTracker (apply w t e)
unfolding apply request_poll
apply-IsTracker w t e h = elim (Option-cases (lookup e.pool t.pools)) [
  | inl gone ↦ rw (gone, apply) h
  | inr (p, at) ↦
      let q = fold_event w e p t.chans in
      let next =
        Rearms-IsSafe t.pools t.chans q.1 e.pool p q.0 h at
          (fold_event-IsPool w e p t.chans (h.sound e.pool p at))
          (fold_event-Rearms w e p t.chans) in
      elim (Bool-cases q.0.needs_poll) [
        | inl owed ↦ rw (at, apply) (rw owed next)
        | inr quiet ↦ rw (at, apply) (rw quiet next)
      ]
]

pool_locked-IsTracker : (t : Tracker) (r : PoolRef) → IsTracker t → IsTracker (pool_locked t r).1
unfolding pool_locked new_pool
pool_locked-IsTracker t r h = elim (Option-cases (lookup r t.pools)) [
  | inl gone ↦
      rw (gone, pool_locked)
        (extend-IsSafe t.pools t.chans r (new_pool t.chans.made) h (new_pool-IsPool t.chans.made)
          refl)
  | inr (p, at) ↦ rw (at, pool_locked) h
]

lookup-pool_locked :
    (t : Tracker) (r : PoolRef) → lookup r (pool_locked t r).1.pools ≡ some (pool_locked t r).0
unfolding pool_locked
lookup-pool_locked t r =
    ground (arith, lookup-insert r r (new_pool t.chans.made) t.pools, ref_eq_iff r r)

-- A write to the Pool that `poolLocked` found or made, its channel left alone.
write-IsTracker :
    (t : Tracker) (r : PoolRef) (q : TrackedPool)
    → IsTracker t
    → (IsPool (pool_locked t r).0 → IsPool q)
    → q.waiters ≡ (pool_locked t r).0.waiters
    → IsTracker (store (pool_locked t r).1 r q)
unfolding store
write-IsTracker t r q h ok same =
    let (p, t') = pool_locked t r in
    let h' = pool_locked-IsTracker t r h in
    let at = lookup-pool_locked t r in
    replace-IsSafe t'.pools t'.chans r p q h' at (ok (h'.sound r p at)) same

IsPool-of_flags :
    (p q : TrackedPool) → counts p ≡ counts q → p.generation ≡ q.generation → IsPool p → IsPool q
IsPool-of_flags p q e g h =
    IsPool-of_counts q (subst AreSound e (sound_counts h)) (omega (arith, g, h.generation_bound))

track-IsTracker : (t : Tracker) (r : PoolRef) (d : Bool) → IsTracker t → IsTracker (track t r d)
unfolding track request_poll
track-IsTracker t r d h =
    let p = (pool_locked t r).0 in
    let q = record p { declared = d } in
    let next = write-IsTracker t r q h (IsPool-of_flags p q refl refl) refl in
    elim (Bool-cases (is_some (lookup r t.pools))) [
      | inl known ↦
          rw (known, track)
            (elim d
              as (λ b. IsTracker (
                if b
                then request_poll (store (pool_locked t r).1 r q)
                else store (pool_locked t r).1 r q)) [ true ↦ next | false ↦ next ])
      | inr unknown ↦ rw (unknown, track) next
    ]

set_declared-IsTracker :
    (t : Tracker) (r : PoolRef) (d : Bool) → IsTracker t → IsTracker (set_declared t r d)
unfolding set_declared
set_declared-IsTracker t r true h =
    let p = (pool_locked t r).0 in
    write-IsTracker t r _ h (IsPool-of_flags p (record p { declared = true }) refl refl) refl
set_declared-IsTracker t r false h =
    let p = (pool_locked t r).0 in
    let q = record p { declared = false; needs_poll = false; unsettled = false } in
    write-IsTracker t r q h (IsPool-of_flags p q refl refl) refl

untrack-IsTracker : (t : Tracker) (r : PoolRef) → IsTracker t → IsTracker (untrack t r)
unfolding untrack close_waiters
untrack-IsTracker t r h = elim (Option-cases (lookup r t.pools)) [
  | inl gone ↦ rw (gone, untrack) h
  | inr (p, at) ↦ rw (at, untrack) (remove-IsSafe t.pools t.chans r p h at)
]

reset-IsPool :
    (p : TrackedPool)
    → IsPool p
    → IsPool (record p { exhausted = true; available = reset p.available })
reset-IsPool p h =
    let (a, l, q, r) = sound_counts h in
    IsPool-of_counts _ ((reset-IsCount p.available, reset-IsCovered p.available), l, q, r)
      h.generation_bound

mark_exhausted-IsTracker :
    (t : Tracker) (r : PoolRef) → IsTracker t → IsTracker (mark_exhausted t r)
unfolding mark_exhausted
mark_exhausted-IsTracker t r h = write-IsTracker t r _ h (reset-IsPool (pool_locked t r).0) refl

wait-IsTracker : (t : Tracker) (r : PoolRef) → IsTracker t → IsTracker (wait t r).1
unfolding wait
wait-IsTracker t r h =
    let p = (pool_locked t r).0 in
    write-IsTracker t r _ h (IsPool-of_flags p (record p { waiting = p.waiting + 1 }) refl refl)
      refl

fold_answer-IsPool :
    (p : TrackedPool) (n : ℕ) (s : PoolStatus) → IsPool p → IsPool (fold_answer p n s)
unfolding fold_answer
fold_answer-IsPool p n s h =
    IsPool-of_flags (rebaseline_pool p s) (fold_answer p n s) refl refl
      (rebaseline_pool-IsPool p s h)

settle-IsTracker :
    (t : Tracker) (r : PoolRef) (p q : TrackedPool)
    → IsTracker t
    → lookup r t.pools ≡ some p
    → IsPool q
    → q.waiters ≡ p.waiters
    → IsTracker (settle t r q)
unfolding settle
settle-IsTracker t r p q h at ok same = elim (Bool-cases (lt32 0 (available_count q))) [
  | inl warm ↦ rw warm (
      rw same (
        rearm-IsSafe t.pools t.chans r p (close_waiters q t.chans).0 h at
          (IsPool-of_flags q (close_waiters q t.chans).0 (unfold close_waiters in refl)
            (unfold close_waiters in refl) ok)
          refl))
  | inr cold ↦ rw cold (replace-IsSafe t.pools t.chans r p q h at ok same)
]

apply_poll-IsTracker :
    (t : Tracker) (r : PoolRef) (asked n : ℕ) (s : PoolStatus)
    → IsTracker t
    → IsTracker (apply_poll t r asked n s)
unfolding apply_poll request_poll
apply_poll-IsTracker t r asked n s h = elim (Option-cases (lookup r t.pools)) [
  | inl gone ↦ rw (gone, apply_poll) h
  | inr (p, at) ↦ elim (Bool-cases (p.generation == asked)) [
    | inl fresh ↦
        rw (at, apply_poll)
          (rw fresh (
            settle-IsTracker t r p (fold_answer p n s) h at
              (fold_answer-IsPool p n s (h.sound r p at)) refl))
    | inr raced ↦
        rw (at, apply_poll)
          (rw raced (
            replace-IsSafe t.pools t.chans r p (record p { needs_poll = true }) h at
              (IsPool-of_flags p (record p { needs_poll = true }) refl refl (h.sound r p at)) refl))
  ]
]

step-IsTracker : (w : Wire) (t : Tracker) (s : Step) → IsTracker t → IsTracker (step w t s)
unfolding step answered set_stream_up poll_turn
step-IsTracker w t (events e) h = apply-IsTracker w t e h
step-IsTracker w t (answers r asked (found n s)) h = apply_poll-IsTracker t r asked n s h
step-IsTracker w t (answers r asked not_found) h = set_declared-IsTracker t r false h
step-IsTracker w t (answers r asked failed) h = h
step-IsTracker w t (tracks r d) h = track-IsTracker t r d h
step-IsTracker w t (untracks r) h = untrack-IsTracker t r h
step-IsTracker w t (exhausts r) h = mark_exhausted-IsTracker t r h
step-IsTracker w t (waits r) h = wait-IsTracker t r h
step-IsTracker w t (streams up) h = h
step-IsTracker w t (turns kicked) h = h
step-IsTracker w t (turns ticked) h = h

new-IsTracker : IsTracker new_tracker
unfolding new_tracker
new-IsTracker = record {
  sound = λ r p e. unfold lookup in cc e;
  opened = λ r p e. unfold lookup in cc e;
  apart = λ r s p q e f w. unfold lookup in cc e;
  closed_once = tt;
  closed_made = λ c e. unfold contains in cc e;
}

run_from-IsTracker :
    (w : Wire) (t : Tracker) (ss : List Step) → IsTracker t → IsTracker (run w t ss)
unfolding run
run_from-IsTracker w t [] h = h
run_from-IsTracker w t (s ∷ ss) h = run_from-IsTracker w (step w t s) ss (step-IsTracker w t s h)

-- Whatever calls, events, answers and turns of the loops a Tracker has seen, in whatever order, the
-- counts of every Pool are sound, every Pool waits on an open channel that it shares with no other
-- Pool, and no channel has been closed twice, which would be a panic.
pub run-IsTracker : (w : Wire) (ss : List Step) → IsTracker (run w new_tracker ss)
run-IsTracker w ss = run_from-IsTracker w new_tracker ss new-IsTracker
