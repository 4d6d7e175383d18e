-- ===== src/Poolmgr/Tracker/Tests.antt =====
-- Runs of the Tracker.
use flintlock_runner.Prelude.{◌≡◌, refl, List, [], ◌∷◌, true, false, is_some, nat_key}
use flintlock_runner.Prelude.Map.{lookup, insert}
use flintlock_runner.Prelude.Uids.{contains, put, drop}
use flintlock_runner.Poolmgr.Count.{total, take, add, remove, leaves}
use flintlock_runner.Poolmgr.Event.{ref_eq, ref_key, PoolStatus, vm_available, vm_claimed}
use flintlock_runner.Poolmgr.Pool.{new_pool, available_count, fold_event, switch, settle_debts}
use flintlock_runner.Poolmgr.Pool.Tests.{bytes, warm, event, one_warm, no_chans}
use flintlock_runner.Poolmgr.Tracker.{
  Tracker, Step, events, answers, tracks, untracks, waits, streams, found, not_found, new_tracker,
  request_poll, apply, answered, wait, run, step, pool_locked, store,
}
use flintlock_runner.Poolmgr.Tracker.Invariant.{IsTracker, run-IsTracker}
use flintlock_runner.Poolmgr.Tracker.Reads.{untracked_comes_back}
use flintlock_runner.Poolmgr.Tracker.Wakeups.{no_lost_wakeup}

abbrev day : List Step
day =
    tracks warm true
    ∷ waits warm
    ∷ events (event vm_available "a")
    ∷ untracks warm
    ∷ answers warm 1 not_found
    ∷ []

run-IsTracker_example : IsTracker (run bytes new_tracker day)
run-IsTracker_example = run-IsTracker bytes day

abbrev tracking : Tracker
tracking = record {
  pools = (warm, one_warm) ∷ [];
  chans = no_chans;
  kick = false;
  stream_up = true;
}

abbrev two_warm : PoolStatus
two_warm = record { available = 2; leased = 0; provisioning = 0; quarantined = 0 }

-- What happens while the question is out: a caller waits, an event arrives, the stream breaks.
abbrev meanwhile : List Step
meanwhile = waits warm ∷ events (event vm_claimed "a") ∷ streams false ∷ []

untracked_comes_back_example :
    (answered new_tracker warm 0 (found 2 two_warm) ≡ new_tracker)
    × (is_some (lookup warm (answered new_tracker warm 0 not_found).pools) ≡ true)
unfolding lookup new_tracker
untracked_comes_back_example = untracked_comes_back new_tracker warm 0 2 two_warm refl

no_lost_wakeup_example :
    contains
      (wait tracking warm).0
      (apply bytes
        (run bytes (wait tracking warm).1 (events (event vm_claimed "a") ∷ []))
        (event vm_available "b")).chans.closed
    ≡ true
unfolding wait pool_locked store run step request_poll apply fold_event switch settle_debts
    available_count total leaves remove take add contains put drop new_pool lookup insert ref_eq
no_lost_wakeup_example =
    no_lost_wakeup bytes tracking warm (events (event vm_claimed "a") ∷ []) (event vm_available "b")
      _ refl refl refl refl
