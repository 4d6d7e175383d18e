-- ===== src/Scheduler/Hosts/Tests.antt =====
-- Runs of the probes of a Host.
use flintlock_runner.Prelude.{
  ◌≡◌, refl, true, false, not, ◌&&◌, List, [], ◌∷◌, str_eq, string_key, nat_key, arith, ==_iff,
}
use flintlock_runner.Prelude.Map.{lookup}
use flintlock_runner.Prelude.Uids.{contains}
use flintlock_runner.Scheduler.State.{get_handle}
use flintlock_runner.Scheduler.Examples.{busy}
use flintlock_runner.Scheduler.Release.Ends.{IsKeyed}
use flintlock_runner.Scheduler.Release.Aborts.{passes}
use flintlock_runner.Scheduler.Hosts.{record_probe}
use flintlock_runner.Scheduler.Hosts.Record.{is_up, record_probe-contains}
use flintlock_runner.Scheduler.Hosts.Consecutive.{
  Probe, after_probes, health_of, verdict, after_probes-verdict,
}

busy-IsKeyed : IsKeyed busy
unfolding get_handle lookup
busy-IsKeyed id h at = ground (arith, at, ==_iff 2 id)

record_probe-contains_example : contains 2 (record_probe busy 1 "alpha" false 30).allocations ≡ (
    contains 2 busy.allocations
    && not (
        is_up (lookup "alpha" busy.hosts)
        && not (is_up (lookup "alpha" (record_probe busy 1 "alpha" false 30).hosts))
        && passes (λ a. str_eq a.placement.host "alpha") (get_handle busy 2)))
record_probe-contains_example = record_probe-contains busy 1 "alpha" false 30 2 busy-IsKeyed

-- Newest first.
abbrev flapping : List Probe
flapping =
    record { host = "alpha"; success = false; at = 4 }
    ∷ record { host = "beta"; success = true; at = 3 }
    ∷ record { host = "alpha"; success = false; at = 2 }
    ∷ record { host = "alpha"; success = true; at = 1 }
    ∷ []

after_probes-verdict_example :
    health_of (lookup "alpha" (after_probes 2 busy flapping).hosts) ≡ verdict 2 "alpha" flapping
unfolding lookup
after_probes-verdict_example = after_probes-verdict 2 "alpha" busy flapping (omega arith) refl
