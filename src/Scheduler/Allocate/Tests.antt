-- ===== src/Scheduler/Allocate/Tests.antt =====
-- Runs of an allocation.
use flintlock_runner.Prelude.{◌≡◌, false, List, [], ◌∷◌, none, some}
use flintlock_runner.Poolmgr.Tracker.{new_tracker}
use flintlock_runner.Poolmgr.Health.{new_health}
use flintlock_runner.Scheduler.Capacity.{waiting_on, use_of}
use flintlock_runner.Scheduler.Examples.{busy, small, small_pool}
use flintlock_runner.Scheduler.Placement.{Around, Claim, not_in_registry}
use flintlock_runner.Scheduler.Allocate.{
  World, Request, FailedClaim, exhausted, woken, backed_off, unavailable, lease_of, allocated,
  claim_vm,
}
use flintlock_runner.Scheduler.Allocate.Errors.{AccountsFor, allocated-AccountsFor}
use flintlock_runner.Prelude.{◌+◌, str_eq, is_some, if◌then◌else◌}
use flintlock_runner.Scheduler.Allocate.{allocate_running}
use flintlock_runner.Scheduler.Allocate.Errors.{handle_of}
use flintlock_runner.Scheduler.Allocate.Units.{allocate_running-use_of}
use flintlock_runner.Scheduler.Allocate.Waiting.{claim_vm-waiting_on}

abbrev alone : Around
alone = record {
  endpoint = λ name. some "10.0.0.1";
  pool_hosts_answer = none;
  names = [];
  reply = λ name. not_in_registry;
  cancelled_after = λ name. false;
  claim_backend = false;
  now = 30;
}

abbrev second_vm : Claim
second_vm = record {
  lease_id = "lease-2";
  vm_uid = "vm-2";
  host = record { name = "alpha"; address = "10.0.0.1" };
}

allocated-AccountsFor_example :
    AccountsFor
      (lease_of small second_vm 30)
      busy
      (allocated busy 3 8 small second_vm false alone).0
      (allocated busy 3 8 small second_vm false alone).1
allocated-AccountsFor_example = allocated-AccountsFor busy 3 8 small second_vm false alone

abbrev world : World
world = record {
  impl = busy;
  tracker = new_tracker;
  health = new_health (record { failure_threshold = 3; unhealthy_for = 10 });
}

abbrev second_job : Request
second_job = record {
  reservation = 3;
  job = 8;
  profile = small;
  claim = second_vm;
  cancelled_then = false;
  around = alone;
}

abbrev twice_refused : List FailedClaim
twice_refused =
    record { error = exhausted; now = 21; wait_end = woken }
    ∷ record { error = exhausted; now = 22; wait_end = backed_off }
    ∷ record { error = unavailable; now = 25; wait_end = backed_off }
    ∷ []

claim_vm-waiting_on_example :
    waiting_on (claim_vm world second_job twice_refused).0.impl small_pool
    ≡ waiting_on world.impl small_pool
claim_vm-waiting_on_example = claim_vm-waiting_on world second_job twice_refused small_pool

allocate_running-use_of_example :
    use_of
      (allocate_running
        (record world { impl = record busy { profile_use = [] } })
        second_job
        []
        twice_refused).0.impl
      "small"
    ≡ use_of (record busy { profile_use = [] }) "small"
      + (if is_some (
            handle_of
              (allocate_running
                (record world { impl = record busy { profile_use = [] } })
                second_job
                []
                twice_refused).1)
          then if str_eq "small" "small" then 1 else 0
          else 0)
allocate_running-use_of_example =
    allocate_running-use_of (record world { impl = record busy { profile_use = [] } }) second_job
      twice_refused "small"
