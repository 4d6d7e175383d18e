-- ===== src/Executor/Jobs.antt =====
-- A Job's MicroVM, transport and Host over any calls of its executor.
use flintlock_runner.Prelude.{ℕ, ◌≡◌, refl, Bool, List, [], ◌∷◌, String, string_key, nat_key, arith}
use flintlock_runner.Executor.{Executor, new_executor, finish, cleanup}
use flintlock_runner.Executor.Prepare.{Setting, prepare}
use flintlock_runner.Executor.Stages.{Status, StageRun, run, run_stage, stage_error, record_failed}
use flintlock_runner.Executor.Preparing.{IsExecutor, cleanup-IsExecutor, prepare-IsExecutor}

-- The calls of the run loop, in any order.
pub data Call : Type 0 where
  prepares : Setting → Call
  runs_stage : String → StageRun → Call
  finishes : Bool → Call
  cleans : Bool → Call

abbrev pub call : (Status → ℕ) → Executor → Call → Executor
call normalize e (prepares s) = (prepare s e).0
call normalize e (runs_stage stage a) = (run normalize e stage a).0
call normalize e (finishes failed) = finish e failed
call normalize e (cleans keep) = cleanup keep e

abbrev pub calls : (Status → ℕ) → Executor → List Call → Executor
calls normalize e [] = e
calls normalize e (c ∷ cs) = calls normalize (call normalize e c) cs

-- What a Stage leaves as it was.
run-same :
    (normalize : Status → ℕ) (e : Executor) (stage : String) (a : StageRun)
    → ((run normalize e stage a).0.prepared ≡ e.prepared)
      × ((run normalize e stage a).0.handle ≡ e.handle)
      × ((run normalize e stage a).0.tr ≡ e.tr)
      × ((run normalize e stage a).0.host_done ≡ e.host_done)
      × ((run normalize e stage a).0.allocated ≡ e.allocated)
      × ((run normalize e stage a).0.ended ≡ e.ended)
      × ((run normalize e stage a).0.opened ≡ e.opened)
      × ((run normalize e stage a).0.closed ≡ e.closed)
      × ((run normalize e stage a).0.leased ≡ e.leased)
      × ((run normalize e stage a).0.returned ≡ e.returned)
unfolding run run_stage stage_error record_failed
run-same normalize e stage a = ground arith

call-IsExecutor :
    (normalize : Status → ℕ) (e : Executor) (c : Call)
    → IsExecutor e
    → IsExecutor (call normalize e c)
unfolding finish
call-IsExecutor normalize e (prepares s) i = prepare-IsExecutor s e i
call-IsExecutor normalize e (runs_stage stage a) i = record {
  one_job = ground (arith, i.one_job, run-same normalize e stage a);
  kept = ground (arith, i.kept, run-same normalize e stage a);
  transports = ground (arith, i.transports, run-same normalize e stage a);
  leases = ground (arith, i.leases, run-same normalize e stage a);
  behind = λ off. ground (arith, i.behind, off, run-same normalize e stage a);
}
call-IsExecutor normalize e (finishes failed) i = record {
  one_job = i.one_job;
  kept = i.kept;
  transports = i.transports;
  leases = i.leases;
  behind = i.behind;
}
call-IsExecutor normalize e (cleans keep) i = cleanup-IsExecutor keep e i

pub calls-IsExecutor :
    (normalize : Status → ℕ) (e : Executor) (cs : List Call)
    → IsExecutor e
    → IsExecutor (calls normalize e cs)
calls-IsExecutor normalize e [] i = i
calls-IsExecutor normalize e (c ∷ cs) i =
    calls-IsExecutor normalize (call normalize e c) cs (call-IsExecutor normalize e c i)

pub new_executor-IsExecutor : IsExecutor new_executor
new_executor-IsExecutor = record {
  one_job = omega arith;
  kept = refl;
  transports = refl;
  leases = refl;
  behind = λ off. (refl, refl);
}
