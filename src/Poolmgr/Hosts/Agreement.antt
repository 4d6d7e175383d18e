-- ===== src/Poolmgr/Hosts/Agreement.antt =====
-- The two choices of Hosts, the selector's and the configuration's, beside each other.
use flintlock_runner.Prelude.{
  ◌≡◌, refl, ap, false, List, [], ◌∷◌, String, str_eq, eq_iff, str_lt, arith, sort_by,
}
use flintlock_runner.Config.Hosts.{HostEntry, Wanted, satisfies, select_hosts}
use flintlock_runner.Poolmgr.Hosts.{matches_selector, qualifying, select}

matches_selector-satisfies :
    (selector labels : List (String × String))
    → matches_selector selector labels ≡ satisfies selector labels
unfolding matches_selector satisfies
matches_selector-satisfies [] labels = refl
matches_selector-satisfies ((key, want) ∷ rest) labels =
    ground (arith, matches_selector-satisfies rest labels)

qualifying-select_hosts :
    (p : Wanted) (hs : List HostEntry)
    → str_eq p.arch "" ≡ false
    → qualifying p hs ≡ select_hosts p hs
unfolding qualifying select_hosts
qualifying-select_hosts p [] named = refl
qualifying-select_hosts p (h ∷ hs) named = ground (
  arith,
  named,
  qualifying-select_hosts p hs named,
  matches_selector-satisfies p.host_selector h.labels,
  eq_iff p.arch h.arch,
  eq_iff h.arch p.arch,
)

-- For a Profile that names its architecture, the selector declares a Pool with the Hosts that the
-- configuration's own choice gives, in the order of their names.
pub select-select_hosts :
    (p : Wanted) (inventory : List HostEntry)
    → str_eq p.arch "" ≡ false
    → select p inventory ≡ sort_by str_lt (select_hosts p inventory)
unfolding select
select-select_hosts p inventory named =
    ap (λ names. sort_by str_lt names) (qualifying-select_hosts p inventory named)
