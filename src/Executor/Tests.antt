-- ===== src/Executor/Tests.antt =====
-- Runs of an executor: a Job that runs two Stages, and one whose guest is not ready.
use flintlock_runner.Executor.{finish}
use flintlock_runner.Prelude.{
  ℕ, suc, ◌≤◌, ◌≡◌, ◌↔◌, refl, true, false, not, ◌&&◌, List, [], ◌∷◌, none, some, is_some, length,
  string_key,
}
use flintlock_runner.Prelude.Map.{lookup}
use flintlock_runner.Executor.{
  build_err, job_execution_timeout, not_ready, retained, new_executor, cleanup,
}
use flintlock_runner.Executor.Prepare.{Setting, exec, shell_ready, dirs_exited, prepare}
use flintlock_runner.Executor.Stages.{Status, exited, below, StageRun, canceled, run}
use flintlock_runner.Executor.Preparing.{ids}
use flintlock_runner.Executor.Jobs.{Call, prepares, runs_stage, finishes, calls}
use flintlock_runner.Executor.Outcomes.{
  cleanup-hands_back, times, lost_stage-times, run-succeeds_iff, succeeds, prepare-failed,
}

abbrev normalize : Status → ℕ
normalize (exited n) = n
normalize (below n) = 1

abbrev usual : Setting
usual = record {
  has_reservation = true;
  has_services = false;
  cache_configured = true;
  caches = [];
  resolves = true;
  shell = shell_ready;
  allocates = some 7;
  kind = exec;
  has_agents = false;
  leases = true;
  reads_key = true;
  connects = true;
  ready = true;
  dirs = dirs_exited 0;
  expired = false;
  job_timed_out = false;
}

-- The guest is not ready before the Job's timeout.
abbrev slow_guest : Setting
slow_guest = record usual { ready = false; expired = true; job_timed_out = true }

abbrev good_run : StageRun
good_run = record {
  result = some (record { status = exited 0; failed = false });
  expired = false;
  cause = canceled;
  lost = false;
}

abbrev broken_stream : StageRun
broken_stream = record {
  result = some (record { status = exited 0; failed = true });
  expired = false;
  cause = canceled;
  lost = false;
}

abbrev job : List Call
job =
    prepares usual
    ∷ runs_stage "step_script" good_run
    ∷ runs_stage "after_script" broken_stream
    ∷ finishes true
    ∷ []

cleanup-retains : (cleanup true (calls normalize new_executor job)).ended ≡ (7, retained) ∷ []
unfolding cleanup finish run prepare lookup
cleanup-retains = refl

prepare-timed_out :
    (prepare slow_guest new_executor).1
    ≡ some (record (build_err job_execution_timeout not_ready) { timed_out = true })
unfolding prepare
prepare-timed_out = refl

cleanup-hands_back_example :
    (length (calls normalize new_executor job).allocated ≤ 1)
    × (ids (cleanup false (calls normalize new_executor job)).ended
        ≡ (calls normalize new_executor job).allocated)
    × ((cleanup false (calls normalize new_executor job)).handle ≡ none)
    × ((cleanup false (calls normalize new_executor job)).opened
        ≡ (cleanup false (calls normalize new_executor job)).closed)
    × ((cleanup false (calls normalize new_executor job)).leased
        ≡ (cleanup false (calls normalize new_executor job)).returned)
cleanup-hands_back_example = cleanup-hands_back normalize job false

lost_stage-times_example :
    times "get_sources"
      (calls normalize
        (run normalize
          (calls normalize new_executor (prepares usual ∷ []))
          "get_sources"
          broken_stream).0
        (runs_stage "get_sources" good_run ∷ [])).runs
    ≡ suc (times "get_sources" (calls normalize new_executor (prepares usual ∷ [])).runs)
unfolding lookup prepare
lost_stage-times_example =
    lost_stage-times normalize (prepares usual ∷ []) (runs_stage "get_sources" good_run ∷ [])
      "get_sources" broken_stream refl refl refl refl

run-succeeds_iff_example :
    ((run normalize (calls normalize new_executor (prepares usual ∷ [])) "step_script" good_run).1
      ≡ none)
    ↔ (((calls normalize new_executor (prepares usual ∷ [])).tr
          && is_some (calls normalize new_executor (prepares usual ∷ [])).handle
          && not (
              is_some (
                lookup "step_script"
                  (calls normalize new_executor (prepares usual ∷ [])).failed_stages))
          && succeeds good_run)
        ≡ true)
run-succeeds_iff_example =
    run-succeeds_iff normalize (calls normalize new_executor (prepares usual ∷ [])) "step_script"
      good_run

prepare-failed_example :
    ((prepare slow_guest (calls normalize new_executor [])).0.handle ≡ none)
    × ((prepare slow_guest (calls normalize new_executor [])).0.tr ≡ false)
    × ((prepare slow_guest (calls normalize new_executor [])).0.host_done ≡ false)
    × (ids (prepare slow_guest (calls normalize new_executor [])).0.ended
        ≡ (prepare slow_guest (calls normalize new_executor [])).0.allocated)
unfolding prepare
prepare-failed_example =
    prepare-failed normalize [] slow_guest
      (record (build_err job_execution_timeout not_ready) { timed_out = true }) refl refl
