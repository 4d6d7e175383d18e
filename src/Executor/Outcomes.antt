-- ===== src/Executor/Outcomes.antt =====
-- What becomes of a Job's MicroVM, and of its Stages.
use flintlock_runner.Prelude.{
  ℕ, suc, ◌≤◌, ◌≡◌, ◌↔◌, refl, sym, ap, ◌∙◌, Bool, true, false, not, ◌&&◌, ◌||◌, List, [], ◌∷◌,
  ◌++◌, none, some, is_some, String, str_eq, eq_iff, if◌then◌else◌, string_key, nat_key, arith,
  length, Option-cases, inl, inr, ◌⊎◌,
}
use flintlock_runner.Prelude.Map.{lookup, lookup-insert}
use flintlock_runner.Executor.{
  BuildError, build_err, runner_system_failure, stream_failed, lease_lost, Executor, new_executor,
  close_guest, release_after_failed_prepare, finish, cleanup,
}
use flintlock_runner.Executor.Prepare.{
  Setting, prepare, prepare_guest, start_guest, guest_target, agent_target, host_target,
}
use flintlock_runner.Executor.Stages.{
  Status, exited, below, StageRun, run, run_stage, stage_error, record_failed, no_exit_status,
  is_zero,
}
use flintlock_runner.Executor.Preparing.{
  ids, held, IsExecutor, IsBegun, begins, begins-IsBegun, prepare-IsExecutor,
}
use flintlock_runner.Executor.Jobs.{
  Call, prepares, runs_stage, finishes, cleans, call, calls, calls-IsExecutor,
  new_executor-IsExecutor,
}

cleanup-all :
    (keep : Bool) (e : Executor)
    → IsExecutor e
    → ((cleanup keep e).handle ≡ none)
      × (ids (cleanup keep e).ended ≡ e.allocated)
      × ((cleanup keep e).opened ≡ (cleanup keep e).closed)
      × ((cleanup keep e).leased ≡ (cleanup keep e).returned)
unfolding cleanup close_guest
cleanup-all keep e i = elim (Option-cases e.handle) [
  | inl none_held ↦ ground (arith, none_held, i.kept, i.transports, i.leases)
  | inr (h, has) ↦ ground (arith, has, i.kept, i.transports, i.leases)
]

-- Whatever the run loop calls of an executor, and in whatever order, Prepare is given one MicroVM at most;
-- behind a Cleanup that one has been handed back to the Scheduler, released or retained, exactly once, and
-- each transport that was opened has been closed, and each lease of a Host returned.
pub cleanup-hands_back :
    (normalize : Status → ℕ) (cs : List Call) (keep : Bool)
    → (length (calls normalize new_executor cs).allocated ≤ 1)
      × (ids (cleanup keep (calls normalize new_executor cs)).ended
          ≡ (calls normalize new_executor cs).allocated)
      × ((cleanup keep (calls normalize new_executor cs)).handle ≡ none)
      × ((cleanup keep (calls normalize new_executor cs)).opened
          ≡ (cleanup keep (calls normalize new_executor cs)).closed)
      × ((cleanup keep (calls normalize new_executor cs)).leased
          ≡ (cleanup keep (calls normalize new_executor cs)).returned)
cleanup-hands_back normalize cs keep =
    let i = calls-IsExecutor normalize new_executor cs new_executor-IsExecutor in
    let (gone, back, shut, returned_all) = cleanup-all keep (calls normalize new_executor cs) i in
    (ground (arith, i.one_job), back, gone, shut, returned_all)

-- How often the transport was asked to run a Stage.
abbrev pub times : String → List String → ℕ
times stage [] = 0
times stage (x ∷ xs) = let rest = times stage xs in if str_eq x stage then suc rest else rest

-- A Stage that must not run again.
abbrev pub Barred : String → Executor → Type 0
Barred stage e = is_some (lookup stage e.failed_stages) ≡ true

run-Barred :
    (normalize : Status → ℕ) (e : Executor) (stage other : String) (a : StageRun)
    → Barred stage e
    → Barred stage ((run normalize e other a).0)
      × (times stage ((run normalize e other a).0.runs) ≡ times stage e.runs)
unfolding run run_stage stage_error record_failed
run-Barred normalize e stage other a barred = elim (Option-cases (lookup other e.failed_stages)) [
  | inr (err, failed) ↦ ground (arith, barred, failed)
  | inl fresh ↦ ground (
    arith,
    barred,
    fresh,
    eq_iff other stage,
    lookup-insert other stage (build_err runner_system_failure stream_failed) e.failed_stages,
    lookup-insert other stage (build_err runner_system_failure lease_lost) e.failed_stages,
  )
]

start_guest-stages :
    (s : Setting) (e : Executor)
    → ((start_guest s e).0.failed_stages ≡ e.failed_stages) × ((start_guest s e).0.runs ≡ e.runs)
unfolding start_guest guest_target agent_target host_target
start_guest-stages s e = ground arith

prepare_guest-stages :
    (s : Setting) (e : Executor)
    → ((prepare_guest s e).0.failed_stages ≡ e.failed_stages)
      × ((prepare_guest s e).0.runs ≡ e.runs)
unfolding prepare_guest release_after_failed_prepare close_guest
prepare_guest-stages s e = elim (Option-cases s.allocates) [
  | inl refused ↦ ground (arith, refused)
  | inr (h, given) ↦ ground (
    arith,
    given,
    start_guest-stages s (record e { handle = some h; allocated = h ∷ e.allocated }),
  )
]

prepare-stages :
    (s : Setting) (e : Executor)
    → ((prepare s e).0.failed_stages ≡ e.failed_stages) × ((prepare s e).0.runs ≡ e.runs)
unfolding prepare
prepare-stages s e = ground (arith, prepare_guest-stages s (record e { prepared = true }))

call-Barred :
    (normalize : Status → ℕ) (e : Executor) (c : Call) (stage : String)
    → Barred stage e
    → Barred stage (call normalize e c)
      × (times stage (call normalize e c).runs ≡ times stage e.runs)
unfolding finish cleanup close_guest
call-Barred normalize e (prepares s) stage barred = ground (arith, barred, prepare-stages s e)
call-Barred normalize e (runs_stage other a) stage barred =
    run-Barred normalize e stage other a barred
call-Barred normalize e (finishes failed) stage barred = ground (arith, barred)
call-Barred normalize e (cleans keep) stage barred = ground (arith, barred)

-- A Stage whose exit status has been lost, by a stream that failed or with the Lease, is never run again in
-- the guest, whatever the run loop calls.
pub Barred-times :
    (normalize : Status → ℕ) (e : Executor) (cs : List Call) (stage : String)
    → Barred stage e
    → Barred stage (calls normalize e cs)
      × (times stage (calls normalize e cs).runs ≡ times stage e.runs)
Barred-times normalize e [] stage barred = (barred, refl)
Barred-times normalize e (c ∷ cs) stage barred =
    let (still, same) = call-Barred normalize e c stage barred in
    let (after_all, rest) = Barred-times normalize (call normalize e c) cs stage still in
    (after_all, rest ∙ same)

-- A Stage whose transport ended without an exit status, by an error or by a killed command whose Lease is
-- lost, and not by the end of the Job's context.
abbrev pub loses_status : StageRun → Bool
loses_status a = elim a.result [
  | none ↦ false
  | some r ↦ not a.expired && (r.failed || (no_exit_status r && a.lost))
]

run-loses :
    (normalize : Status → ℕ) (e : Executor) (stage : String) (a : StageRun)
    → loses_status a ≡ true
    → lookup stage e.failed_stages ≡ none
    → e.tr ≡ true
    → is_some e.handle ≡ true
    → Barred stage ((run normalize e stage a).0)
      × (times stage ((run normalize e stage a).0.runs) ≡ suc (times stage e.runs))
unfolding run run_stage stage_error record_failed no_exit_status
run-loses normalize e stage a lost fresh connected has = elim (Option-cases a.result) [
  | inl early ↦ absurd (ground (arith, early, lost))
  | inr (r, ended) ↦ ground (
    arith,
    lost,
    ended,
    fresh,
    connected,
    has,
    eq_iff stage stage,
    lookup-insert stage stage (build_err runner_system_failure stream_failed) e.failed_stages,
    lookup-insert stage stage (build_err runner_system_failure lease_lost) e.failed_stages,
  )
]

-- After any calls, a Stage that has not failed so and whose exit status is now lost has been run in the
-- guest once more, and whatever calls follow, it is not run there again.
pub lost_stage-times :
    (normalize : Status → ℕ) (before after : List Call) (stage : String) (a : StageRun)
    → loses_status a ≡ true
    → lookup stage (calls normalize new_executor before).failed_stages ≡ none
    → (calls normalize new_executor before).tr ≡ true
    → is_some (calls normalize new_executor before).handle ≡ true
    → times stage
        (calls normalize (run normalize (calls normalize new_executor before) stage a).0 after).runs
      ≡ suc (times stage (calls normalize new_executor before).runs)
lost_stage-times normalize before after stage a lost fresh connected has =
    let e = calls normalize new_executor before in
    let (barred, once) = run-loses normalize e stage a lost fresh connected has in
    (Barred-times normalize (run normalize e stage a).0 after stage barred).1 ∙ once

abbrev pub succeeds : StageRun → Bool
succeeds a = elim a.result [
  | none ↦ false
  | some r ↦ not a.expired && not r.failed && is_zero r.status
]

-- A Stage succeeds exactly if Prepare has left a MicroVM and a transport, no exit status of this Stage has
-- been lost before, and the guest answers with the status 0, without an error, before the context ends or
-- its deadline passes.
pub run-succeeds_iff :
    (normalize : Status → ℕ) (e : Executor) (stage : String) (a : StageRun)
    → ((run normalize e stage a).1 ≡ none) ↔ (
        (e.tr && is_some e.handle && not (is_some (lookup stage e.failed_stages)) && succeeds a)
        ≡ true)
unfolding run run_stage stage_error no_exit_status
run-succeeds_iff normalize e stage a = elim (Option-cases (lookup stage e.failed_stages)) [
  | inr (err, failed) ↦ ground (arith, failed)
  | inl fresh ↦ elim (Option-cases a.result) [
    | inl early ↦ ground (arith, fresh, early)
    | inr (r, ended) ↦ elim (status_cases r.status) [
      | inl (n, known) ↦ ground (arith, fresh, ended, known)
      | inr (n, known) ↦ ground (arith, fresh, ended, known)
    ]
  ]
]
  where
    status_cases : (st : Status) → ((n : ℕ) × (st ≡ exited n)) ⊎ ((n : ℕ) × (st ≡ below n))
    status_cases (exited n) = inl (n, refl)
    status_cases (below n) = inr (n, refl)

prepare_guest_failed_lem :
    (s : Setting) (e : Executor) (err : BuildError)
    → IsBegun e
    → (prepare_guest s e).1 ≡ some err
    → ((prepare_guest s e).0.handle ≡ none)
      × ((prepare_guest s e).0.tr ≡ false)
      × ((prepare_guest s e).0.host_done ≡ false)
unfolding prepare_guest release_after_failed_prepare close_guest
prepare_guest_failed_lem s e err b failed = elim (Option-cases s.allocates) [
  | inl refused ↦ ground (arith, refused, b.nothing_held, b.idle.no_transport, b.idle.no_lease)
  | inr (h, given) ↦ ground (arith, given, failed)
]

prepare_failed_lem :
    (s : Setting) (e : Executor) (err : BuildError)
    → e.prepared ≡ false
    → IsBegun (begins e)
    → (prepare s e).1 ≡ some err
    → ((prepare s e).0.handle ≡ none)
      × ((prepare s e).0.tr ≡ false)
      × ((prepare s e).0.host_done ≡ false)
unfolding prepare
prepare_failed_lem s e err new b failed = ground (
  arith,
  new,
  failed,
  prepare_guest_failed_lem s (begins e) err b,
  b.nothing_held,
  b.idle.no_transport,
  b.idle.no_lease,
)

-- A Prepare that fails, of an executor that the run loop has not prepared before, leaves no MicroVM with
-- the Job, and neither a transport nor a lease of a Host: what was allocated has been released.
pub prepare-failed :
    (normalize : Status → ℕ) (before : List Call) (s : Setting) (err : BuildError)
    → (calls normalize new_executor before).prepared ≡ false
    → (prepare s (calls normalize new_executor before)).1 ≡ some err
    → ((prepare s (calls normalize new_executor before)).0.handle ≡ none)
      × ((prepare s (calls normalize new_executor before)).0.tr ≡ false)
      × ((prepare s (calls normalize new_executor before)).0.host_done ≡ false)
      × (ids (prepare s (calls normalize new_executor before)).0.ended
          ≡ (prepare s (calls normalize new_executor before)).0.allocated)
prepare-failed normalize before s err new failed =
    let e = calls normalize new_executor before in
    let i = calls-IsExecutor normalize new_executor before new_executor-IsExecutor in
    let b = begins-IsBegun e new i in
    let empty = prepare_failed_lem s e err new b failed in
    (empty.0, empty.1, empty.2, without (prepare s e).0 empty.0 (prepare-IsExecutor s e i))
  where
    without : (g : Executor) → g.handle ≡ none → IsExecutor g → ids g.ended ≡ g.allocated
    without g gone i = sym (ap (λ o. held o ++ ids g.ended) gone) ∙ i.kept
