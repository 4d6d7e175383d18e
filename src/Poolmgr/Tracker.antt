-- ===== src/Poolmgr/Tracker.antt =====
-- internal/poolmgr/tracker.go, `PoolTracker`: the tracked Pools, the Events stream and the polls.
-- One call is one critical section of `t.mu`, so a run of the Tracker is a list of steps. Health is
-- an argument. The maps' iteration order shows nowhere: `Pools` and `refs` sort what they return.
pub mod Channels
pub mod Invariant
pub mod Races
pub mod Reads
pub mod Wakeups
mod Tests
use flintlock_runner.Prelude.{
  ℕ, ◌+◌, ◌==◌, ltb, Bool, true, false, not, ◌&&◌, List, [], ◌∷◌, Option, none, some, is_some, any,
  sort_by, str_lt, if◌then◌else◌,
}
use flintlock_runner.Prelude.Words.{lt32}
use flintlock_runner.Prelude.Map.{lookup, insert, delete}
use flintlock_runner.Poolmgr.Count.{reset}
use flintlock_runner.Poolmgr.Event.{PoolRef, ref_string, ref_key, Event, PoolStatus, Wire}
use flintlock_runner.Poolmgr.Pool.{
  Chans, TrackedPool, new_pool, available_count, status, rebaseline_pool, close_waiters, fold_event,
}

pub record Tracker : Type 0 where
  pub pools : List (PoolRef × TrackedPool)
  pub chans : Chans
  -- The one slot of the channel `kick`.
  pub kick : Bool
  pub stream_up : Bool

unfoldable pub new_tracker : Tracker
new_tracker = record {
  pools = [];
  chans = record { made = 0; closed = [] };
  kick = false;
  stream_up = false;
}

unfoldable pub request_poll : Tracker → Tracker
request_poll t = record t { kick = true }

unfoldable pub set_stream_up : Tracker → Bool → Tracker
set_stream_up t up = record t { stream_up = up }

-- The Pool, made if this is the first time it is named.
unfoldable pub pool_locked : Tracker → PoolRef → TrackedPool × Tracker
pool_locked t ref = elim (lookup ref t.pools) [
  | some p ↦ (p, t)
  | none ↦
      let p = new_pool t.chans.made in
      (
        p,
        record t {
          pools = insert ref p t.pools;
          chans = record (t.chans) { made = t.chans.made + 1 };
        },
      )
]

-- A write through the pointer that `poolLocked` returned.
unfoldable pub store : Tracker → PoolRef → TrackedPool → Tracker
store t ref p = record t { pools = insert ref p t.pools }

unfoldable pub track : Tracker → PoolRef → Bool → Tracker
unfolding store
track t ref declared =
    let known = is_some (lookup ref t.pools) in
    let (p, t') = pool_locked t ref in
    let t'' = store t' ref (record p { declared = declared }) in
    if not known then request_poll t'' else if declared then request_poll t'' else t''

unfoldable pub set_declared : Tracker → PoolRef → Bool → Tracker
unfolding store
set_declared t ref declared =
    let (p, t') = pool_locked t ref in
    let q = record p { declared = declared } in
    store t' ref (if declared then q else record q { needs_poll = false; unsettled = false })

unfoldable pub untrack : Tracker → PoolRef → Tracker
untrack t ref = elim (lookup ref t.pools) [
  | none ↦ t
  | some p ↦ record t { pools = delete ref t.pools; chans = (close_waiters p t.chans).1 }
]

unfoldable pub available : Tracker → Bool → PoolRef → ℕ
available t healthy ref =
    if not healthy then 0 else elim (lookup ref t.pools) [ none ↦ 0 | some p ↦ available_count p ]

unfoldable pub mark_exhausted : Tracker → PoolRef → Tracker
unfolding store
mark_exhausted t ref =
    let (p, t') = pool_locked t ref in
    store t' ref (record p { exhausted = true; available = reset p.available })

-- The channel to wait on.
unfoldable pub wait : Tracker → PoolRef → ℕ × Tracker
unfolding store
wait t ref =
    let (p, t') = pool_locked t ref in
    (p.waiters, store t' ref (record p { waiting = p.waiting + 1 }))

pub record PoolAvailability : Type 0 where
  pub pool : PoolRef
  pub status : PoolStatus
  pub declared : Bool
  pub waiting : ℕ

unfoldable pub snapshot : Bool → List (PoolRef × TrackedPool) → List PoolAvailability
snapshot healthy [] = []
snapshot healthy ((ref, p) ∷ ps) =
    record {
      pool = ref;
      status = if healthy then status p else record (status p) { available = 0 };
      declared = p.declared;
      waiting = p.waiting;
    }
    ∷ snapshot healthy ps

unfoldable pub pools : Tracker → Bool → List PoolAvailability
unfolding snapshot sort_by ref_string
pools t healthy =
    sort_by (λ a b. str_lt (ref_string a.pool) (ref_string b.pool)) (snapshot healthy t.pools)

unfoldable pub generation : Tracker → PoolRef → ℕ
generation t ref = elim (lookup ref t.pools) [ none ↦ 0 | some p ↦ p.generation ]

-- An answer that no event raced, folded into its Pool.
unfoldable pub fold_answer : TrackedPool → ℕ → PoolStatus → TrackedPool
unfolding rebaseline_pool
fold_answer p size s = record (rebaseline_pool p s) {
  size = size;
  exhausted = false;
  needs_poll = false;
  unsettled = false;
}

-- The answer settles the Pool, and wakes what waits on it if it found a warm MicroVM.
unfoldable pub settle : Tracker → PoolRef → TrackedPool → Tracker
unfolding store close_waiters
settle t ref q =
    if lt32 0 (available_count q)
    then record t {
      pools = insert ref (close_waiters q t.chans).0 t.pools;
      chans = (close_waiters q t.chans).1;
    }
    else store t ref q

unfoldable pub apply_poll : Tracker → PoolRef → ℕ → ℕ → PoolStatus → Tracker
unfolding store settle fold_answer
apply_poll t ref asked size s = elim (lookup ref t.pools) [
  | none ↦ t
  | some p ↦
      if p.generation == asked
      then settle t ref (fold_answer p size s)
      else request_poll (store t ref (record p { needs_poll = true }))
]

unfoldable pub apply : Wire → Tracker → Event → Tracker
apply w t e = elim (lookup e.pool t.pools) [
  | none ↦ t
  | some p ↦
      let (q, cs, woken) = fold_event w e p t.chans in
      let t' = record t { pools = insert e.pool q t.pools; chans = cs } in
      if q.needs_poll then request_poll t' else t'
]

unfoldable pub poll_owed : Tracker → Bool
poll_owed t = any (λ ((r, p) : PoolRef × TrackedPool). p.needs_poll) t.pools

-- What wakes the poll loop.
pub data Wake : Type 0 where
  kicked ticked : Wake

-- Whether a turn of the poll loop asks GetPool: `kicked` takes the slot of `kick`.
unfoldable pub poll_turn : Tracker → Wake → Tracker × Bool
poll_turn t kicked = (record t { kick = false }, true)
poll_turn t ticked = (t, not (t.stream_up && not (poll_owed t)))

-- GetPool's answer about one Pool.
pub data Answer : Type 0 where
  found : ℕ → PoolStatus → Answer
  not_found failed : Answer

-- The second half of a turn of `pollAll`, when the answer about one Pool arrives.
unfoldable pub answered : Tracker → PoolRef → ℕ → Answer → Tracker
answered t ref asked (found size s) = apply_poll t ref asked size s
answered t ref asked not_found = set_declared t ref false
answered t ref asked failed = t

-- The calls, and the steps of the loops, that change the Tracker.
pub data Step : Type 0 where
  events : Event → Step
  answers : PoolRef → ℕ → Answer → Step
  tracks : PoolRef → Bool → Step
  untracks exhausts waits : PoolRef → Step
  streams : Bool → Step
  turns : Wake → Step

unfoldable pub step : Wire → Tracker → Step → Tracker
step w t (events e) = apply w t e
step w t (answers ref asked a) = answered t ref asked a
step w t (tracks ref declared) = track t ref declared
step w t (untracks ref) = untrack t ref
step w t (exhausts ref) = mark_exhausted t ref
step w t (waits ref) = (wait t ref).1
step w t (streams up) = set_stream_up t up
step w t (turns wake) = (poll_turn t wake).0

unfoldable pub run : Wire → Tracker → List Step → Tracker
run w t [] = t
run w t (s ∷ ss) = run w (step w t s) ss
