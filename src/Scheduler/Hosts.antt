-- ===== src/Scheduler/Hosts.antt =====
-- internal/scheduler/health.go and `resetHostsLocked` of scheduler.go: the health of the Hosts. What a
-- Host says of its version is only logged. The count of failures is an int, which no run of probes
-- reaches the end of.
pub mod Record
pub mod Consecutive
mod Tests
use flintlock_runner.Prelude.{
  ℕ, ◌+◌, ltb, leb, Bool, true, false, not, ◌&&◌, List, [], ◌∷◌, Option, none, some, String,
  if◌then◌else◌, string_key,
}
use flintlock_runner.Prelude.Map.{lookup, insert}
use flintlock_runner.Scheduler.State.{Impl, HostState, RunState, state_new, state_running}
use flintlock_runner.Scheduler.Release.{abort_host}

-- `config.DefaultHostUnhealthyThreshold`
abbrev pub default_host_unhealthy_threshold : ℕ
default_host_unhealthy_threshold = 3

unfoldable pub host_unhealthy_threshold : ℕ → ℕ
host_unhealthy_threshold configured =
    if ltb 0 configured then configured else default_host_unhealthy_threshold

-- How a call to a Host ends.
pub data HostAnswer : Type 0 where
  answered unimplemented failed : HostAnswer

-- Whether a probe of a Host succeeds, where the registry may not have the Host.
unfoldable pub probe_host : Bool → HostAnswer → HostAnswer → Bool
probe_host false info listed = false
probe_host true answered listed = true
probe_host true failed listed = false
probe_host true unimplemented answered = true
probe_host true unimplemented _ = false

-- The Host's entry after a probe, and whether the Host became unhealthy by it.
unfoldable pub fold_probe : HostState → ℕ → Bool → ℕ → HostState × Bool
fold_probe st threshold success now =
    if success
    then (record { healthy = true; failures = 0; last_probe_at = now }, false)
    else if st.healthy && leb threshold (st.failures + 1)
    then (record { healthy = false; failures = st.failures + 1; last_probe_at = now }, true)
    else (record { healthy = st.healthy; failures = st.failures + 1; last_probe_at = now }, false)

unfoldable pub record_probe : Impl → ℕ → String → Bool → ℕ → Impl
unfolding fold_probe abort_host
record_probe s threshold name success now = elim (lookup name s.hosts) [
  | none ↦ s
  | some st ↦
      let (st', became_unhealthy) = fold_probe st threshold success now in
      let s' = record s { hosts = insert name st' s.hosts } in
      if became_unhealthy then abort_host s' name else s'
]

abbrev pub new_host : HostState
new_host = record { healthy = true; failures = 0; last_probe_at = 0 }

-- The loop over the names of the inventory, where `old` is the table that is replaced.
unfoldable pub reset_loop :
    List String → List (String × HostState) → List (String × HostState) → List (String × HostState)
reset_loop [] old next = next
reset_loop (name ∷ names) old next = elim (lookup name old) [
  | some st ↦ reset_loop names old (insert name st next)
  | none ↦ reset_loop names old (insert name new_host next)
]

unfoldable pub reset_hosts : Impl → List String → Impl
unfolding reset_loop
reset_hosts s inventory = record s { hosts = reset_loop inventory s.hosts [] }

-- `start`: whether the run begins.
unfoldable pub start : Impl → Impl × Bool
start s = elim s.state [ state_new ↦ (record s { state = state_running }, true) | _ ↦ (s, false) ]
