-- ===== src/Scheduler/Lifecycle.antt =====
-- internal/scheduler/scheduler.go: the Profiles and the Inventory of a Scheduler, their declaration at the
-- Pool Manager and their reload, over the Tracker, the registry of Hosts and the Pool Manager that they
-- change. `Specs`, the Pool Manager and dialling are parameters. `applyMu` keeps reloads apart from one
-- another, but neither a turn of `declareLoop` nor the declaration of an `Allocate` takes it: what these do in
-- the middle of a reload is an argument of it, and a pass of declarations is a run with nothing in between.
pub mod Declaring
pub mod Reloading
pub mod Turns
mod Tests
use flintlock_runner.Prelude.{
  ℕ, Bool, true, false, not, List, [], ◌∷◌, Option, none, some, is_some, String, if◌then◌else◌, map,
  str_lt, sort_by, string_key, str_eq,
}
use flintlock_runner.Prelude.Map.{lookup}
use flintlock_runner.Config.Hosts.{HostEntry, Wanted}
use flintlock_runner.Poolmgr.Event.{PoolRef, ref_key}
use flintlock_runner.Poolmgr.Hosts.{select}
use flintlock_runner.Poolmgr.Tracker.{Tracker, PoolAvailability, track, untrack, pools}
use flintlock_runner.Poolmgr.Declare.{
  PoolSpec, PoolAdmin, Declared, declared, not_created, not_updated, declare_pool,
}
use flintlock_runner.Flintlock.Registry.{
  TlsOptions, Endpoint, Registry, ApplyError, apply, endpoint,
}
use flintlock_runner.Scheduler.State.{Impl, Profile, HostState}
use flintlock_runner.Scheduler.Profiles.{find_profile_by_pool, resolve_ref}
use flintlock_runner.Scheduler.Hosts.{reset_hosts}

-- What a Profile has besides, for the choice of its Hosts.
pub record PoolProfile : Type 0 where
  pub profile : Profile
  pub wanted : Wanted

pub record InventoryHost : Type 0 where
  pub entry : HostEntry
  pub address : String
  pub token : String
  pub tls : TlsOptions

unfoldable pub endpoints : List InventoryHost → List Endpoint
endpoints [] = []
endpoints (h ∷ hs) =
    record { name = h.entry.name; address = h.address; token = h.token; tls = h.tls } ∷ endpoints hs

abbrev pub entries : List InventoryHost → List HostEntry
entries [] = []
entries (h ∷ hs) = h.entry ∷ entries hs

abbrev pub host_names : List InventoryHost → List String
host_names [] = []
host_names (h ∷ hs) = h.entry.name ∷ host_names hs

abbrev pub profiles_of : List PoolProfile → List Profile
profiles_of [] = []
profiles_of (p ∷ ps) = p.profile ∷ profiles_of ps

-- `SpecBuilder.Build`, `none` for its error, and the Pool Manager.
pub record Deps (M S : Type 0) : Type 0 where
  pub build_spec : PoolProfile → List String → Option (PoolSpec S)
  pub admin : PoolAdmin M S
  pub dial : Endpoint → Bool

-- The Tracker and the Pool Manager while Pools are declared.
pub record Pools (M : Type 0) : Type 0 where
  pub tracker : Tracker
  pub manager : M

abbrev pub declare_spec : {M S : Type 0} → Deps M S → Pools M → PoolRef → PoolSpec S → Pools M
declare_spec deps w ref spec =
    let (m, outcome) = declare_pool deps.admin w.manager (record spec { ref = ref }) in
    record {
      tracker = elim outcome [
        | declared hosts ↦ track w.tracker ref true
        | not_created err ↦ track w.tracker ref false
        | not_updated err ↦ track w.tracker ref false
      ];
      manager = m;
    }

unfoldable pub declare :
    {M S : Type 0} → Deps M S → Pools M → PoolProfile → List HostEntry → Pools M
declare deps w p inventory = elim (deps.build_spec p (select p.wanted inventory)) [
  | none ↦ record w { tracker = track w.tracker p.profile.pool_ref false }
  | some spec ↦ declare_spec deps w p.profile.pool_ref spec
]

-- The Hosts of a Pool that a warning names.
unfoldable pub compare_hosts : Registry → List String → List String
compare_hosts r [] = []
compare_hosts r (name ∷ names) =
    let rest = compare_hosts r names in if is_some (endpoint r name) then rest else name ∷ rest

unfoldable pub declare_all :
    {M S : Type 0} → Deps M S → Pools M → List PoolProfile → List HostEntry → Pools M
unfolding declare
declare_all deps w [] inventory = w
declare_all deps w (p ∷ ps) inventory = declare_all deps (declare deps w p inventory) ps inventory

-- The loop of `poolDeclared` over the Tracker's answer.
unfoldable pub declared_in : List PoolAvailability → PoolRef → Bool
declared_in [] ref = false
declared_in (pa ∷ pas) ref = if ref_key.beq pa.pool ref then pa.declared else declared_in pas ref

unfoldable pub pool_declared : Tracker → Bool → PoolRef → Bool
unfolding declared_in
pool_declared t healthy ref = declared_in (pools t healthy) ref

-- A turn of `declareLoop`. Whether the Pool Manager is well, which does not matter, may change meanwhile.
unfoldable pub declare_turn :
    {M S : Type 0} → Deps M S → Bool → Pools M → List PoolProfile → List HostEntry → Pools M
unfolding declare pool_declared
declare_turn deps healthy w [] inventory = w
declare_turn deps healthy w (p ∷ ps) inventory =
    declare_turn deps healthy
      (if pool_declared w.tracker healthy p.profile.pool_ref then w else declare deps w p inventory)
      ps inventory

pub record Lifecycle (M : Type 0) : Type 0 where
  pub impl : Impl
  pub profiles : List PoolProfile
  pub inventory : List InventoryHost
  pub pools : Pools M
  pub hosts : Registry

unfoldable pub resolve_pools : String → List PoolProfile → List PoolProfile
unfolding resolve_ref
resolve_pools namespace [] = []
resolve_pools namespace (p ∷ ps) =
    record p { profile = record (p.profile) { pool_ref = resolve_ref namespace p.profile } }
    ∷ resolve_pools namespace ps

-- The loop over the Profiles that were there before.
unfoldable pub untrack_removed : Tracker → List PoolProfile → List PoolProfile → Tracker
unfolding find_profile_by_pool
untrack_removed t [] next = t
untrack_removed t (p ∷ ps) next =
    untrack_removed
      (if is_some (find_profile_by_pool (profiles_of next) p.profile.pool_ref)
        then t
        else untrack t p.profile.pool_ref)
      ps next

-- What `Reload` replaces under `mu`, and the Pools that it stops tracking.
unfoldable pub replace_config :
    {M : Type 0} → Lifecycle M → List PoolProfile → List InventoryHost → Lifecycle M
unfolding reset_hosts untrack_removed
replace_config s next inventory = record s {
  impl = reset_hosts s.impl (host_names inventory);
  profiles = next;
  inventory = inventory;
  pools = record (s.pools) { tracker = untrack_removed s.pools.tracker s.profiles next };
}

-- `Reload`: what `mu` covers, the Hosts, and the declarations. `meanwhile` is what other goroutines, such as a
-- turn of the declare loop or an `Allocate`, do to the Pools between the first of these and the
-- declarations, which are then run with nothing in between.
unfoldable pub reload :
    {M S : Type 0}
    → Deps M S
    → (Pools M → Pools M)
    → Lifecycle M
    → String
    → List PoolProfile
    → List InventoryHost
    → Lifecycle M × Option ApplyError
unfolding resolve_pools endpoints replace_config declare_all
reload deps meanwhile s namespace profiles inventory =
    let next = resolve_pools namespace profiles in
    let s' = replace_config s next inventory in
    let (hosts, err) = apply deps.dial s'.hosts (endpoints inventory) in
    let pools = meanwhile s'.pools in
    elim err [
      | some e ↦ (record s' { hosts = hosts; pools = pools }, some e)
      | none ↦ (
        record s' { hosts = hosts; pools = declare_all deps pools next (entries inventory) },
        none,
      )
    ]

-- `applyCurrent`, which goes on where the registry refuses the Inventory.
unfoldable pub apply_current : {M S : Type 0} → Deps M S → Lifecycle M → Lifecycle M
unfolding endpoints declare_all
apply_current deps s = record s {
  hosts = (apply deps.dial s.hosts (endpoints s.inventory)).0;
  pools = declare_all deps s.pools s.profiles (entries s.inventory);
}
