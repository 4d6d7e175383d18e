-- ===== src/Scheduler/Hosts/Consecutive.antt =====
-- The health of a Host against the probes that were made of it.
use flintlock_runner.Prelude.{
  ℕ, suc, ◌<◌, ◌≡◌, ap, ◌∙◌, Bool, true, not, List, [], ◌∷◌, Option, none, some, arith, ltb,
  if◌then◌else◌, string_key, String, str_eq, eq_iff,
}
use flintlock_runner.Prelude.Map.{lookup}
use flintlock_runner.Scheduler.State.{Impl, HostState}
use flintlock_runner.Scheduler.Hosts.{fold_probe, record_probe}
use flintlock_runner.Scheduler.Hosts.Record.{lookup-record_probe, probed}

pub record Probe : Type 0 where
  pub host : String
  pub success : Bool
  pub at : ℕ

-- The probes of a Host that have failed since its last success, of the probes of all Hosts, newest first.
abbrev pub failed_in_a_row : String → List Probe → ℕ
failed_in_a_row name [] = 0
failed_in_a_row name (p ∷ older) =
    let n = failed_in_a_row name older in
    if not (str_eq p.host name) then n else if p.success then 0 else suc n

abbrev pub after_probes : ℕ → Impl → List Probe → Impl
after_probes threshold s [] = s
after_probes threshold s (p ∷ older) =
    record_probe (after_probes threshold s older) threshold p.host p.success p.at

-- The count and the verdict of an entry.
abbrev pub health_of : Option HostState → Option (ℕ × Bool)
health_of none = none
health_of (some st) = some (st.failures, st.healthy)

abbrev pub verdict : ℕ → String → List Probe → Option (ℕ × Bool)
verdict threshold name ps = some (failed_in_a_row name ps, ltb (failed_in_a_row name ps) threshold)

probed-verdict :
    (threshold : ℕ) (name : String) (ps : List Probe) (p : Probe) (o : Option HostState)
    → 0 < threshold
    → health_of o ≡ verdict threshold name ps
    → health_of (if str_eq p.host name then probed o threshold p.success p.at else o)
      ≡ verdict threshold name (p ∷ ps)
unfolding fold_probe
probed-verdict threshold name ps p none pos a = ground (arith, a)
probed-verdict threshold name ps p (some st) pos a = ground (arith, a)

other_probe :
    (threshold : ℕ) (name : String) (s : Impl) (p : Probe)
    → lookup name (record_probe s threshold p.host p.success p.at).hosts ≡ (
        if str_eq p.host name
        then probed (lookup name s.hosts) threshold p.success p.at
        else lookup name s.hosts)
other_probe threshold name s p =
    ground (arith, lookup-record_probe s threshold p.host name p.success p.at, eq_iff p.host name)

-- A Host that starts healthy is healthy after any probes of any Hosts exactly if fewer of its newest
-- probes than the threshold have failed in a row.
pub after_probes-verdict :
    (threshold : ℕ) (name : String) (s : Impl) (ps : List Probe)
    → 0 < threshold
    → health_of (lookup name s.hosts) ≡ some (0, true)
    → health_of (lookup name (after_probes threshold s ps).hosts) ≡ verdict threshold name ps
after_probes-verdict threshold name s [] pos fresh = ground (arith, pos, fresh)
after_probes-verdict threshold name s (p ∷ ps) pos fresh =
    let before = after_probes threshold s ps in
    ap health_of (other_probe threshold name before p)
    ∙ probed-verdict threshold name ps p (lookup name before.hosts) pos
        (after_probes-verdict threshold name s ps pos fresh)
