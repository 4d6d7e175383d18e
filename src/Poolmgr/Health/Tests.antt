-- ===== src/Poolmgr/Health/Tests.antt =====
-- Runs of the monitor.
use flintlock_runner.Prelude.{◌≡◌, refl, false, List, [], ◌∷◌, leb, ltb, ◌&&◌}
use flintlock_runner.Poolmgr.Health.{
  Config, Report, success, failure, probes, unavailable, new_health, is_healthy, report,
  mark_failure, mark_healthy, mark_unavailable,
}
use flintlock_runner.Poolmgr.Health.History.{
  reached, failures_since, blamed_until, after, is_healthy_iff_history,
}

abbrev thrice : Config
thrice = record { failure_threshold = 0; unhealthy_for = 100 }

-- Newest first: two failures behind a success and a failed claim.
abbrev outage : List Report
outage = probes failure ∷ probes failure ∷ unavailable 50 ∷ probes success ∷ []

still_blamed : is_healthy (after (new_health thrice) outage) 149 ≡ false
unfolding is_healthy new_health report mark_failure mark_healthy mark_unavailable
still_blamed = refl

is_healthy_iff_history_example : is_healthy (after (new_health thrice) outage) 150 ≡ (
    reached outage
    && ltb (failures_since outage) (new_health thrice).cfg.failure_threshold
    && leb (blamed_until (new_health thrice).cfg.unhealthy_for outage) 150)
is_healthy_iff_history_example = is_healthy_iff_history thrice outage 150
