-- ===== src/Scheduler/Placement/Tests.antt =====
-- Runs of the search for a MicroVM.
use flintlock_runner.Prelude.{◌≡◌, refl, false, [], ◌∷◌, none, some, str_eq, if◌then◌else◌}
use flintlock_runner.Scheduler.Placement.{
  Around, has_vm, no_answer, resolve_placement, Claim, placed,
}
use flintlock_runner.Scheduler.State.{from_lookup}
use flintlock_runner.Prelude.Map.{lookup}
use flintlock_runner.Scheduler.Examples.{busy}

-- The Pool Manager names no Hosts, and the second of the registry has the MicroVM.
abbrev on_beta : Around
on_beta = record {
  endpoint = λ name. none;
  pool_hosts_answer = some [];
  names = "alpha" ∷ "beta" ∷ [];
  reply = λ name. if str_eq name "beta" then has_vm else no_answer;
  cancelled_after = λ name. false;
  claim_backend = false;
  now = 8;
}

abbrev hostless : Claim
hostless = record { lease_id = "l"; vm_uid = "vm-2"; host = record { name = ""; address = "" } }

finds_beta :
    resolve_placement busy on_beta (some hostless)
    ≡ placed (record { host = "beta"; source = from_lookup; resolved_at = 8 })
unfolding resolve_placement lookup
finds_beta = refl
