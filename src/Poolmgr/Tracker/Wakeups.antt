-- ===== src/Poolmgr/Tracker/Wakeups.antt =====
-- A caller that waits on a Pool's channel: the channel is closed by the first event that makes a
-- MicroVM available, however the Tracker is used in between.
use flintlock_runner.Prelude.{
  ℕ, ◌+◌, ◌≡◌, refl, Bool, true, false, List, [], ◌∷◌, some, is_some, arith, ◌⊎◌, Option-cases,
  Bool-cases, inl, inr, nat_key, string_key, ◌==◌,
}
use flintlock_runner.Prelude.Map.{lookup, insert, lookup-insert, lookup-delete}
use flintlock_runner.Prelude.Words.{lt32}
use flintlock_runner.Prelude.Uids.{contains}
use flintlock_runner.Poolmgr.Count.{add}
use flintlock_runner.Poolmgr.Event.{
  PoolRef, ref_eq, ref_eq_iff, ref_key, Event, PoolStatus, Wire, vm_available,
}
use flintlock_runner.Poolmgr.Pool.{
  Chans, TrackedPool, available_count, new_pool, close_waiters, fold_event, switch,
}
use flintlock_runner.Poolmgr.Tracker.Invariant.{Rearms, fold_event-Rearms}
use flintlock_runner.Poolmgr.Tracker.{
  Tracker, Step, events, answers, tracks, untracks, exhausts, waits, streams, turns, found,
  not_found, failed, kicked, ticked, pool_locked, store, track, set_declared, untrack,
  mark_exhausted, wait, settle, fold_answer, apply_poll, apply, answered, request_poll,
  set_stream_up, poll_turn, step, run,
}

-- The channel is closed, or it is still the one that the Pool wakes.
abbrev WaitsOn : ℕ → PoolRef → List (PoolRef × TrackedPool) → Chans → Type 0
WaitsOn c r ps cs =
    (contains c cs.closed ≡ true) ⊎ ((p : TrackedPool) × (lookup r ps ≡ some p) × (p.waiters ≡ c))

abbrev Waits : ℕ → PoolRef → Tracker → Type 0
Waits c r t = WaitsOn c r t.pools t.chans

module _ (c : ℕ) (r : PoolRef) where
  Rearms-WaitsOn :
      (ps : List (PoolRef × TrackedPool)) (cs ds : Chans) (s : PoolRef) (p q : TrackedPool)
      → lookup s ps ≡ some p
      → Rearms p cs q ds
      → WaitsOn c r ps cs
      → WaitsOn c r (insert s q ps) ds
  unfolding contains
  Rearms-WaitsOn ps cs ds s p q at (inl (same, e)) (inl closed) = inl (rw e closed)
  Rearms-WaitsOn ps cs ds s p q at (inr (fresh, e)) (inl closed) = inl (rw e (ground arith))
  Rearms-WaitsOn ps cs ds s p q at how (inr (x, here, mine)) = elim (Bool-cases (ref_eq s r)) [
    | inr elsewhere ↦ inr (x, ground (arith, lookup-insert s r q ps), mine)
    | inl hit ↦ elim how [
      | inl (same, e) ↦
          inr (q, ground (arith, lookup-insert s r q ps), ground (arith, ref_eq_iff s r))
      | inr (fresh, e) ↦ inl (rw e (ground (arith, ref_eq_iff s r)))
    ]
  ]

  pool_locked-Waits : (t : Tracker) (s : PoolRef) → Waits c r t → Waits c r (pool_locked t s).1
  unfolding pool_locked
  pool_locked-Waits t s h = elim (Option-cases (lookup s t.pools)) [
    | inr (p, at) ↦ rw (at, pool_locked) h
    | inl gone ↦
        rw (gone, pool_locked)
          (elim h [
            | inl closed ↦ inl closed
            | inr (x, here, mine) ↦ inr (
              x,
              ground (arith, lookup-insert s r (new_pool t.chans.made) t.pools, ref_eq_iff s r),
              mine,
            )
          ])
  ]

  lookup-locked :
      (t : Tracker) (s : PoolRef) → lookup s (pool_locked t s).1.pools ≡ some (pool_locked t s).0
  unfolding pool_locked
  lookup-locked t s =
      ground (arith, lookup-insert s s (new_pool t.chans.made) t.pools, ref_eq_iff s s)

  write-Waits :
      (t : Tracker) (s : PoolRef) (q : TrackedPool)
      → q.waiters ≡ (pool_locked t s).0.waiters
      → Waits c r t
      → Waits c r (store (pool_locked t s).1 s q)
  unfolding store
  write-Waits t s q same h =
      let t' = (pool_locked t s).1 in
      Rearms-WaitsOn t'.pools t'.chans t'.chans s (pool_locked t s).0 q (lookup-locked t s)
        (inl (same, refl)) (pool_locked-Waits t s h)

  apply-Waits : (w : Wire) (t : Tracker) (e : Event) → Waits c r t → Waits c r (apply w t e)
  unfolding apply request_poll
  apply-Waits w t e h = elim (Option-cases (lookup e.pool t.pools)) [
    | inl gone ↦ rw (gone, apply) h
    | inr (p, at) ↦
        let q = fold_event w e p t.chans in
        let next =
          Rearms-WaitsOn t.pools t.chans q.1 e.pool p q.0 at (fold_event-Rearms w e p t.chans) h in
        elim (Bool-cases q.0.needs_poll) [
          | inl owed ↦ rw (at, apply) (rw owed next)
          | inr quiet ↦ rw (at, apply) (rw quiet next)
        ]
  ]

  track-Waits : (t : Tracker) (s : PoolRef) (d : Bool) → Waits c r t → Waits c r (track t s d)
  unfolding track request_poll
  track-Waits t s d h =
      let q = record ((pool_locked t s).0) { declared = d } in
      let next = write-Waits t s q refl h in
      elim (Bool-cases (is_some (lookup s t.pools))) [
        | inr unknown ↦ rw (unknown, track) next
        | inl known ↦ elim (Bool-cases d) [
          | inl yes_declared ↦ rw (known, track) (rw yes_declared (rw yes_declared at next))
          | inr not_declared ↦ rw (known, track) (rw not_declared (rw not_declared at next))
        ]
      ]

  set_declared-Waits :
      (t : Tracker) (s : PoolRef) (d : Bool) → Waits c r t → Waits c r (set_declared t s d)
  unfolding set_declared
  set_declared-Waits t s true h = write-Waits t s _ refl h
  set_declared-Waits t s false h = write-Waits t s _ refl h

  untrack-Waits : (t : Tracker) (s : PoolRef) → Waits c r t → Waits c r (untrack t s)
  unfolding untrack close_waiters contains
  untrack-Waits t s h = elim (Option-cases (lookup s t.pools)) [
    | inl gone ↦ rw (gone, untrack) h
    | inr (p, at) ↦
        rw (at, untrack)
          (elim h [
            | inl closed ↦ inl (ground arith)
            | inr (x, here, mine) ↦ elim (Bool-cases (ref_eq s r)) [
              | inl hit ↦ inl (ground (arith, ref_eq_iff s r))
              | inr elsewhere ↦ inr (x, ground (arith, lookup-delete s r t.pools), mine)
            ]
          ])
  ]

  settle-Waits :
      (t : Tracker) (s : PoolRef) (p q : TrackedPool)
      → lookup s t.pools ≡ some p
      → q.waiters ≡ p.waiters
      → Waits c r t
      → Waits c r (settle t s q)
  unfolding settle
  settle-Waits t s p q at same h = elim (Bool-cases (lt32 0 (available_count q))) [
    | inl warm ↦ rw warm (
        Rearms-WaitsOn t.pools t.chans (close_waiters q t.chans).1 s p (close_waiters q t.chans).0
          at (inr (unfold close_waiters in refl, unfold close_waiters in rw same refl)) h)
    | inr cold ↦ rw cold (Rearms-WaitsOn t.pools t.chans t.chans s p q at (inl (same, refl)) h)
  ]

  apply_poll-Waits :
      (t : Tracker) (s : PoolRef) (asked n : ℕ) (st : PoolStatus)
      → Waits c r t
      → Waits c r (apply_poll t s asked n st)
  unfolding apply_poll request_poll fold_answer
  apply_poll-Waits t s asked n st h = elim (Option-cases (lookup s t.pools)) [
    | inl gone ↦ rw (gone, apply_poll) h
    | inr (p, at) ↦ elim (Bool-cases (p.generation == asked)) [
      | inl fresh ↦
          rw (at, apply_poll) (rw fresh (settle-Waits t s p (fold_answer p n st) at refl h))
      | inr raced ↦
          rw (at, apply_poll)
            (rw raced (
              Rearms-WaitsOn t.pools t.chans t.chans s p (record p { needs_poll = true }) at
                (inl (refl, refl)) h))
    ]
  ]

  step-Waits : (w : Wire) (t : Tracker) (s : Step) → Waits c r t → Waits c r (step w t s)
  unfolding step answered set_stream_up poll_turn mark_exhausted wait
  step-Waits w t (events e) h = apply-Waits w t e h
  step-Waits w t (answers s asked (found n st)) h = apply_poll-Waits t s asked n st h
  step-Waits w t (answers s asked not_found) h = set_declared-Waits t s false h
  step-Waits w t (answers s asked failed) h = h
  step-Waits w t (tracks s d) h = track-Waits t s d h
  step-Waits w t (untracks s) h = untrack-Waits t s h
  step-Waits w t (exhausts s) h = write-Waits t s _ refl h
  step-Waits w t (waits s) h = write-Waits t s _ refl h
  step-Waits w t (streams up) h = h
  step-Waits w t (turns kicked) h = h
  step-Waits w t (turns ticked) h = h

  run-Waits : (w : Wire) (t : Tracker) (ss : List Step) → Waits c r t → Waits c r (run w t ss)
  unfolding run
  run-Waits w t [] h = h
  run-Waits w t (s ∷ ss) h = run-Waits w (step w t s) ss (step-Waits w t s h)

  wait-Waits : (t : Tracker) → (wait t r).0 ≡ c → Waits c r (wait t r).1
  unfolding wait store
  wait-Waits t e =
      let q = record ((pool_locked t r).0) { waiting = (pool_locked t r).0.waiting + 1 } in
      inr (q, ground (arith, lookup-insert r r q (pool_locked t r).1.pools, ref_eq_iff r r), e)

  -- A MicroVM that no event has named becomes available in the Pool.
  available-closes :
      (w : Wire) (t : Tracker) (e : Event) (p : TrackedPool)
      → e.pool ≡ r
      → e.type ≡ vm_available
      → lookup r t.pools ≡ some p
      → (add p.available e.vm_uid).1 ≡ true
      → Waits c r t
      → contains c (apply w t e).chans.closed ≡ true
  unfolding apply request_poll fold_event switch contains
  available-closes w t e p here kind at fresh h = ground (arith, at, h)

-- No wake-up is lost: a caller takes a Pool's channel, the Tracker is then used in any way at all, and
-- an event makes available a MicroVM of that Pool that no event had named. If the Pool is still
-- tracked the channel is closed by then, at the latest by that event.
pub no_lost_wakeup :
    (w : Wire) (t : Tracker) (r : PoolRef) (ss : List Step) (e : Event) (p : TrackedPool)
    → e.pool ≡ r
    → e.type ≡ vm_available
    → lookup r (run w (wait t r).1 ss).pools ≡ some p
    → (add p.available e.vm_uid).1 ≡ true
    → contains (wait t r).0 (apply w (run w (wait t r).1 ss) e).chans.closed ≡ true
no_lost_wakeup w t r ss e p here kind at fresh =
    available-closes (wait t r).0 r w (run w (wait t r).1 ss) e p here kind at fresh
      (run-Waits (wait t r).0 r w (wait t r).1 ss (wait-Waits (wait t r).0 r t refl))
