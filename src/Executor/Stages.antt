-- ===== src/Executor/Stages.antt =====
-- `Run` of internal/executor/executor.go: one Stage.
use flintlock_runner.Prelude.{
  ℕ, zero, suc, Bool, true, false, not, ◌&&◌, ◌||◌, ◌∷◌, Option, none, some, is_some, String,
  if◌then◌else◌, string_key,
}
use flintlock_runner.Prelude.Map.{lookup, insert}
use flintlock_runner.Executor.{
  runner_system_failure, script_failure, not_prepared, stream_failed, lease_lost, exit_status,
  BuildError, build_err, Executor,
}

-- An exit status, or how far below zero the guest agent's is.
pub data Status : Type 0 where
  exited : ℕ → Status
  below : ℕ → Status

-- `failed`: the transport returned an error.
pub record StageResult : Type 0 where
  pub status : Status
  pub failed : Bool

-- The cause of a context that has ended.
pub data Cause : Type 0 where
  canceled deadline_exceeded : Cause
  because : BuildError → Cause

-- What Run returns besides success.
pub data StageError : Type 0 where
  failed_with : BuildError → StageError
  stopped_by : Cause → StageError

-- The answers that a Stage gets: the transport's, where it comes before the context's end, whether the
-- context has expired by then, its cause, and whether the Scheduler finds the Lease lost.
pub record StageRun : Type 0 where
  pub result : Option StageResult
  pub expired : Bool
  pub cause : Cause
  pub lost : Bool

unfoldable pub stage_cancelled : Cause → StageError
stage_cancelled (because err) = failed_with err
stage_cancelled canceled = stopped_by canceled
stage_cancelled deadline_exceeded = stopped_by deadline_exceeded

abbrev pub is_below : Status → Bool
is_below (exited n) = false
is_below (below n) = true

unfoldable pub no_exit_status : StageResult → Bool
no_exit_status r = r.failed || is_below r.status

unfoldable pub record_failed : Executor → String → BuildError → Executor
record_failed e stage err = record e { failed_stages = insert stage err e.failed_stages }

abbrev pub is_zero : Status → Bool
is_zero (exited zero) = true
is_zero (exited (suc n)) = false
is_zero (below n) = false

abbrev pub script_failed : (Status → ℕ) → Status → BuildError
script_failed normalize status = record (build_err script_failure exit_status) {
  exit_code = normalize status;
}

-- `common.NormalizeExitCode` is the run loop's.
unfoldable pub stage_error :
    (Status → ℕ) → Executor → String → StageResult → Executor × Option StageError
unfolding record_failed
stage_error normalize e stage r =
    if r.failed
    then (
      record_failed e stage (build_err runner_system_failure stream_failed),
      some (failed_with (build_err runner_system_failure stream_failed)),
    )
    else if not (is_zero r.status)
    then (e, some (failed_with (script_failed normalize r.status)))
    else (e, none)

-- `leaseLost`: whether the Stage ended without a status of its own, and the Scheduler finds the Lease lost.
abbrev pub lost_lease : StageRun → StageResult → Bool
lost_lease a r = no_exit_status r && a.lost

-- `stageFailed`
abbrev pub failed_stage : Executor → String → Option BuildError
failed_stage e stage = lookup stage e.failed_stages

unfoldable pub run_stage :
    (Status → ℕ) → Executor → String → StageRun → Executor × Option StageError
unfolding stage_cancelled no_exit_status record_failed stage_error
run_stage normalize e stage a =
    let e' = record e { runs = stage ∷ e.runs } in
    elim a.result [
      | none ↦ (e', some (stage_cancelled a.cause))
      | some r ↦
          if a.expired
          then (e', some (stage_cancelled a.cause))
          else if lost_lease a r
          then (
            record_failed e' stage (build_err runner_system_failure lease_lost),
            some (failed_with (build_err runner_system_failure lease_lost)),
          )
          else stage_error normalize e' stage r
    ]

unfoldable pub run : (Status → ℕ) → Executor → String → StageRun → Executor × Option StageError
unfolding run_stage
run normalize e stage a =
    if not e.tr || not (is_some e.handle)
    then (e, some (failed_with (build_err runner_system_failure not_prepared)))
    else elim (failed_stage e stage) [
      | some err ↦ (e, some (failed_with err))
      | none ↦ run_stage normalize e stage a
    ]
