-- ===== src/Executor/Prepare.antt =====
-- `Prepare` of internal/executor/executor.go.
use flintlock_runner.Prelude.{
  ℕ, zero, suc, Bool, true, false, not, ◌&&◌, ◌||◌, List, [], ◌∷◌, Option, none, some, String,
  str_eq, if◌then◌else◌,
}
use flintlock_runner.Executor.{
  runner_system_failure, runner_unsupported, configuration_error, job_execution_timeout,
  already_prepared, no_reservation, no_services, no_cache, no_profile, shell_not_prepared,
  not_allocated, no_host, no_agents, no_agent, no_ssh_key, no_transport, not_ready, no_dirs,
  BuildError, build_err, Executor, release_after_failed_prepare,
}

-- What of a cache of the Job is looked at.
pub record Cache : Type 0 where
  pub key : String
  pub paths : List String
  pub untracked : Bool

abbrev no_paths : List String → Bool
no_paths [] = true
no_paths (path ∷ paths) = false

unfoldable pub uses_cache : List Cache → Bool
uses_cache [] = false
uses_cache (c ∷ cs) =
    let rest = uses_cache cs in
    if not (str_eq c.key "") || not (no_paths c.paths) || c.untracked then true else rest

pub data Kind : Type 0 where
  exec ssh agent_exec : Kind

-- How `PrepareBuildAndShell` of the run loop ends.
pub data ShellAnswer : Type 0 where
  shell_ready shell_failed : ShellAnswer
  shell_refused : BuildError → ShellAnswer

-- How the call of the transport that makes the directories ends.
pub data DirsAnswer : Type 0 where
  dirs_failed : DirsAnswer
  dirs_exited : ℕ → DirsAnswer

-- The Job, the configuration, and the answers that Prepare gets.
pub record Setting : Type 0 where
  pub has_reservation : Bool
  pub has_services : Bool
  pub cache_configured : Bool
  pub caches : List Cache
  pub resolves : Bool
  pub shell : ShellAnswer
  pub allocates : Option ℕ
  pub kind : Kind
  pub has_agents : Bool
  pub leases : Bool
  pub reads_key : Bool
  pub connects : Bool
  -- Whether the guest is ready before the ready timeout and the context end.
  pub ready : Bool
  pub dirs : DirsAnswer
  -- Whether the context has expired when a step has failed, and by the Job's own timeout.
  pub expired : Bool
  pub job_timed_out : Bool

unfoldable pub check_job : Setting → Option BuildError
unfolding uses_cache
check_job s =
    if s.has_services
    then some (build_err runner_unsupported no_services)
    else if not s.cache_configured && uses_cache s.caches
    then some (build_err runner_unsupported no_cache)
    else none

unfoldable pub configure_shell : Setting → Option BuildError
configure_shell s = elim s.shell [
  | shell_ready ↦ none
  | shell_refused err ↦ some err
  | shell_failed ↦ some (build_err configuration_error shell_not_prepared)
]

unfoldable pub prepare_err : Setting → BuildError → BuildError
prepare_err s err =
    if not s.expired
    then err
    else if s.job_timed_out
    then record err { reason = job_execution_timeout; timed_out = true }
    else record err { timed_out = true }

abbrev pub leased_host : Executor → Executor
leased_host e = record e { host_done = true; leased = suc e.leased }

unfoldable pub agent_target : Setting → Executor → Executor × Option BuildError
agent_target s e =
    if not s.has_agents
    then (e, some (build_err configuration_error no_agents))
    else if not s.leases
    then (e, some (build_err runner_system_failure no_agent))
    else (leased_host e, none)

-- A transport that goes through the Host of the Placement: over its own key where it is ssh.
unfoldable pub host_target : Setting → Bool → Executor → Executor × Option BuildError
host_target s needs_key e =
    if not s.leases
    then (e, some (build_err runner_system_failure no_host))
    else if needs_key && not s.reads_key
    then (leased_host e, some (build_err configuration_error no_ssh_key))
    else (leased_host e, none)

unfoldable pub guest_target : Setting → Executor → Executor × Option BuildError
unfolding agent_target host_target
guest_target s e = elim s.kind [
  | agent_exec ↦ agent_target s e
  | exec ↦ host_target s false e
  | ssh ↦ host_target s true e
]

unfoldable pub make_dirs : Setting → Option BuildError
make_dirs s = elim s.dirs [
  | dirs_failed ↦ some (build_err runner_system_failure no_dirs)
  | dirs_exited zero ↦ none
  | dirs_exited (suc n) ↦ some (build_err runner_system_failure no_dirs)
]

unfoldable pub start_guest : Setting → Executor → Executor × Option BuildError
unfolding guest_target make_dirs
start_guest s e =
    let (t, err) = guest_target s e in
    elim err [
      | some x ↦ (t, some x)
      | none ↦
          if not s.connects
          then (t, some (build_err runner_system_failure no_transport))
          else let c = record t { tr = true; opened = suc t.opened } in
            (
              c,
              if not s.ready then some (build_err runner_system_failure not_ready) else make_dirs s,
            )
    ]

-- From the allocation on.
unfoldable pub prepare_guest : Setting → Executor → Executor × Option BuildError
unfolding start_guest release_after_failed_prepare prepare_err
prepare_guest s e = elim s.allocates [
  | none ↦ (e, some (prepare_err s (build_err runner_system_failure not_allocated)))
  | some h ↦
      let (g, err) = start_guest s (record e { handle = some h; allocated = h ∷ e.allocated }) in
      elim err [
        | none ↦ (g, none)
        | some x ↦ (release_after_failed_prepare g, some (prepare_err s x))
      ]
]

unfoldable pub prepare : Setting → Executor → Executor × Option BuildError
unfolding check_job configure_shell prepare_guest
prepare s e =
    if e.prepared
    then (e, some (build_err runner_system_failure already_prepared))
    else let p = record e { prepared = true } in
      if not s.has_reservation
      then (p, some (build_err runner_system_failure no_reservation))
      else elim (check_job s) [
        | some err ↦ (p, some err)
        | none ↦
            if not s.resolves
            then (p, some (build_err runner_unsupported no_profile))
            else elim (configure_shell s) [ some err ↦ (p, some err) | none ↦ prepare_guest s p ]
      ]
