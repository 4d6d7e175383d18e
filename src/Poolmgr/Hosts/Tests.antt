-- ===== src/Poolmgr/Hosts/Tests.antt =====
-- A choice of Hosts.
use flintlock_runner.Prelude.Map.{lookup}
use flintlock_runner.Prelude.{◌≡◌, refl, List, [], ◌∷◌, str_lt, sort_by}
use flintlock_runner.Config.Hosts.{HostEntry, Wanted, select_hosts}
use flintlock_runner.Poolmgr.Hosts.{select}
use flintlock_runner.Poolmgr.Hosts.Agreement.{select-select_hosts}

abbrev fast_arm : Wanted
fast_arm = record { arch = "arm64"; host_selector = ("disk", "nvme") ∷ [] }

abbrev racks : List HostEntry
racks =
    record { name = "zeta"; arch = "arm64"; labels = ("disk", "nvme") ∷ ("rack", "1") ∷ [] }
    ∷ record { name = "beta"; arch = "amd64"; labels = ("disk", "nvme") ∷ [] }
    ∷ record { name = "alpha"; arch = "arm64"; labels = ("disk", "nvme") ∷ [] }
    ∷ record { name = "gamma"; arch = "arm64"; labels = [] }
    ∷ []

selected : select fast_arm racks ≡ "alpha" ∷ "zeta" ∷ []
unfolding select sort_by lookup
selected = refl

select-select_hosts_example : select fast_arm racks ≡ sort_by str_lt (select_hosts fast_arm racks)
select-select_hosts_example = select-select_hosts fast_arm racks refl
