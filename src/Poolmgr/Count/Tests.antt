-- ===== src/Poolmgr/Count/Tests.antt =====
-- Runs of one count.
use flintlock_runner.Prelude.{◌+◌, ◌≤◌, ◌≡◌, refl, List, [], ◌∷◌, String, arith, length}
use flintlock_runner.Poolmgr.Count.{UidCount, total, take, add, remove, leaves}
use flintlock_runner.Poolmgr.Count.Replay.{
  adds, removes, leaving, Move, move, moves, uids_of, moves_spend_once,
}
use flintlock_runner.Prelude.Uids.{contains, put, drop}

-- One MicroVM that an event has named, and two that only a poll has counted.
abbrev polled : UidCount
polled = record { named = "a" ∷ []; unnamed = 2; accounted = "a" ∷ [] }

total-polled : total polled ≡ 3
unfolding total
total-polled = refl

-- The lifecycle of one leased MicroVM takes one out of the anonymous part, not three.
lifecycle :
    (moves polled (("b", leaving) ∷ ("b", removes) ∷ ("b", removes) ∷ ("b", adds) ∷ [])).unnamed ≡ 1
unfolding moves move leaves remove add take contains put drop
lifecycle = refl

-- Two MicroVMs, whose events are mixed.
abbrev mixed : List (String × Move)
mixed = ("b", leaving) ∷ ("a", removes) ∷ ("b", adds) ∷ ("a", adds) ∷ ("b", leaving) ∷ []

moves_spend_once_example :
    ((moves polled mixed).unnamed ≤ 2) × (2 ≤ (moves polled mixed).unnamed + length (uids_of mixed))
moves_spend_once_example = moves_spend_once polled mixed (omega arith)
