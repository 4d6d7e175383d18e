-- ===== src/Config/Hosts.antt =====
-- internal/config/hosts.go: which Hosts of the Inventory can carry the Pool of a Profile. The records have
-- the fields of a Profile and of an Inventory entry that decide it.
use flintlock_runner.Prelude.{
  Bool, true, false, not, List, [], ◌∷◌, Option, none, some, String, str_eq, if◌then◌else◌,
  string_key,
}
use flintlock_runner.Prelude.Map.{lookup}

pub record HostEntry : Type 0 where
  pub name : String
  pub arch : String
  pub labels : List (String × String)

pub record Wanted : Type 0 where
  pub arch : String
  pub host_selector : List (String × String)

abbrev pub has_label : List (String × String) → String → String → Bool
has_label labels key want = elim (lookup key labels) [ none ↦ false | some got ↦ str_eq got want ]

-- The loop over the requirements, in any order.
unfoldable pub satisfies : List (String × String) → List (String × String) → Bool
satisfies [] labels = true
satisfies ((key, want) ∷ rest) labels =
    let others = satisfies rest labels in if not (has_label labels key want) then false else others

unfoldable pub matches_host : Wanted → HostEntry → Bool
unfolding satisfies
matches_host p h = if not (str_eq p.arch h.arch) then false else satisfies p.host_selector h.labels

unfoldable pub select_hosts : Wanted → List HostEntry → List String
unfolding matches_host
select_hosts p [] = []
select_hosts p (h ∷ hs) =
    let rest = select_hosts p hs in if matches_host p h then h.name ∷ rest else rest

unfoldable pub host_by_name : List HostEntry → String → Option HostEntry
host_by_name [] name = none
host_by_name (h ∷ hs) name = if str_eq h.name name then some h else host_by_name hs name
