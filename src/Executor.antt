-- ===== src/Executor.antt =====
-- internal/executor/executor.go: one Job in one MicroVM. What the Scheduler, the guest, the Hosts and the
-- context answer is an argument of each operation, and the calls that hand something out or back are a
-- part of the state. The texts of errors are left out, and so is what only the Job log shows.
pub mod Prepare
pub mod Stages
pub mod Preparing
pub mod Jobs
pub mod Outcomes
mod Tests
use flintlock_runner.Prelude.{
  ℕ, suc, ◌+◌, Bool, true, false, not, ◌&&◌, ◌||◌, List, [], ◌∷◌, Option, none, some, String,
  str_eq, if◌then◌else◌,
}

-- The reasons that GitLab is given for a failure.
pub data Reason : Type 0 where
  runner_system_failure runner_unsupported configuration_error script_failure job_execution_timeout
        other_reason :
      Reason

-- The errors that the executor makes itself, and those of the Build's shell.
pub data Problem : Type 0 where
  already_prepared no_reservation no_services no_cache no_profile shell_not_prepared : Problem
  not_allocated no_host no_agents no_agent no_ssh_key no_transport not_ready no_dirs : Problem
  not_prepared stream_failed lease_lost exit_status handle_done aborted : Problem

-- `timed_out`: the cause of the context is a part of the error.
pub record BuildError : Type 0 where
  pub problem : Problem
  pub reason : Reason
  pub exit_code : ℕ
  pub timed_out : Bool

abbrev pub build_err : Reason → Problem → BuildError
build_err reason problem = record {
  problem = problem;
  reason = reason;
  exit_code = 0;
  timed_out = false;
}

pub data Ending : Type 0 where
  released retained : Ending

-- A Handle is a number. A transport and a lease of a Host are there or not.
pub record Executor : Type 0 where
  pub prepared : Bool
  pub job_failed : Bool
  pub handle : Option ℕ
  pub tr : Bool
  pub host_done : Bool
  pub failed_stages : List (String × BuildError)
  -- The handles that the Scheduler gave, and those it was given back, newest first.
  pub allocated : List ℕ
  pub ended : List (ℕ × Ending)
  -- The Stages that the transport was asked to run, newest first.
  pub runs : List String
  -- The transports that were opened and closed, and the leases of Hosts.
  pub opened : ℕ
  pub closed : ℕ
  pub leased : ℕ
  pub returned : ℕ

abbrev pub new_executor : Executor
new_executor = record {
  prepared = false;
  job_failed = false;
  handle = none;
  tr = false;
  host_done = false;
  failed_stages = [];
  allocated = [];
  ended = [];
  runs = [];
  opened = 0;
  closed = 0;
  leased = 0;
  returned = 0;
}

unfoldable pub close_guest : Executor → Executor
close_guest e = record e {
  tr = false;
  host_done = false;
  closed = if e.tr then suc e.closed else e.closed;
  returned = if e.host_done then suc e.returned else e.returned;
}

unfoldable pub release_after_failed_prepare : Executor → Executor
unfolding close_guest
release_after_failed_prepare e =
    let c = close_guest e in
    elim c.handle [
      | none ↦ c
      | some h ↦ record c { handle = none; ended = (h, released) ∷ c.ended }
    ]

unfoldable pub finish : Executor → Bool → Executor
finish e failed = record e { job_failed = failed }

-- `keep`: the option to keep the MicroVM of a failed Job.
unfoldable pub cleanup : Bool → Executor → Executor
unfolding close_guest
cleanup keep e =
    let c = close_guest e in
    elim c.handle [
      | none ↦ c
      | some h ↦ record c {
        handle = none;
        ended = (h, if c.job_failed && keep then retained else released) ∷ c.ended;
      }
    ]
