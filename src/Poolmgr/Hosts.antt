-- ===== src/Poolmgr/Hosts.antt =====
-- internal/poolmgr/hosts.go: the Hosts that a Pool is declared with.
pub mod Agreement
mod Tests
use flintlock_runner.Prelude.{
  ℕ, Bool, true, false, not, ◌&&◌, List, [], ◌∷◌, Option, none, some, String, str_eq, str_lt,
  if◌then◌else◌, sort_by,
}
use flintlock_runner.Config.Hosts.{HostEntry, Wanted, has_label}

-- The loop over the selector's requirements, in any order.
unfoldable pub matches_selector : List (String × String) → List (String × String) → Bool
matches_selector [] labels = true
matches_selector ((key, want) ∷ rest) labels =
    let others = matches_selector rest labels in
    if not (has_label labels key want) then false else others

unfoldable pub qualifying : Wanted → List HostEntry → List String
unfolding matches_selector
qualifying p [] = []
qualifying p (h ∷ hs) =
    let rest = qualifying p hs in
    if not (str_eq p.arch "") && not (str_eq h.arch p.arch)
    then rest
    else if not (matches_selector p.host_selector h.labels)
    then rest
    else h.name ∷ rest

unfoldable pub select : Wanted → List HostEntry → List String
unfolding qualifying
select p inventory = sort_by str_lt (qualifying p inventory)
