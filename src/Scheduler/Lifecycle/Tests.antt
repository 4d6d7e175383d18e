-- ===== src/Scheduler/Lifecycle/Tests.antt =====
-- Reloads and a turn of the declare loop.
use flintlock_runner.Poolmgr.Tracker.{pool_locked}
use flintlock_runner.Poolmgr.Tracker.{request_poll}
use flintlock_runner.Poolmgr.Tracker.{untrack}
use flintlock_runner.Prelude.Map.{delete}
use flintlock_runner.Poolmgr.Event.{ref_eq}
use flintlock_runner.Flintlock.Registry.{apply}
use flintlock_runner.Prelude.Map.{insert}
use flintlock_runner.Prelude.{
  ℕ, ◌≡◌, refl, true, false, not, arith, ◌&&◌, ◌||◌, List, [], ◌∷◌, some, is_some, All, inl,
  string_key,
}
use flintlock_runner.Prelude.Map.{lookup}
use flintlock_runner.Prelude.Uids.{contains}
use flintlock_runner.Config.Hosts.{Wanted}
use flintlock_runner.Poolmgr.Event.{PoolRef, ref_key, ref_eq_iff}
use flintlock_runner.Poolmgr.Tracker.{new_tracker, track}
use flintlock_runner.Poolmgr.Declare.Examples.{Held, held_spec, manager, manager-IsManager}
use flintlock_runner.Flintlock.Registry.{empty_registry, endpoint}
use flintlock_runner.Flintlock.Registry.Reload.{start}
use flintlock_runner.Scheduler.Examples.{busy, small, small_pool}
use flintlock_runner.Scheduler.Profiles.{find_profile_by_pool}
use flintlock_runner.Scheduler.Lifecycle.{
  PoolProfile, InventoryHost, Deps, Pools, Lifecycle, profiles_of, entries, host_names,
  resolve_pools, reload, replace_config, compare_hosts, declare_turn,
}
use flintlock_runner.Scheduler.Lifecycle.Declaring.{Agrees, lookup-track}
use flintlock_runner.Scheduler.Lifecycle.Reloading.{reload-tracks, reload-same_hosts}
use flintlock_runner.Scheduler.Lifecycle.Turns.{declare_turn-Agrees}

abbrev any_arch : Wanted
any_arch = record { arch = "amd64"; host_selector = [] }

abbrev small_profile : PoolProfile
small_profile = record { profile = small; wanted = any_arch }

-- A Profile that names neither its Pool nor a namespace.
abbrev large_profile : PoolProfile
large_profile = record {
  profile = record small { name = "large"; pool_ref = record { name = ""; namespace = "" } };
  wanted = any_arch;
}

abbrev alpha : InventoryHost
alpha = record {
  entry = record { name = "alpha"; arch = "amd64"; labels = [] };
  address = "10.0.0.1:9090";
  token = "";
  tls = record { ca_file = ""; cert_file = ""; key_file = ""; insecure = true };
}

abbrev deps : Deps Held ℕ
deps = record {
  build_spec = λ p hosts. some (record { ref = small_pool; template = 7 });
  admin = manager;
  dial = λ ep. true;
}

-- A Profile that the reload removes, and one that it keeps.
abbrev old_profile : PoolProfile
old_profile = record {
  profile = record small { name = "old"; pool_ref = record { name = "retired"; namespace = "ci" } };
  wanted = any_arch;
}

abbrev before : Lifecycle Held
before = record {
  impl = busy;
  profiles = old_profile ∷ small_profile ∷ [];
  inventory = [];
  pools = record {
    tracker =
        track (track new_tracker small_pool true) (record { name = "retired"; namespace = "ci" })
          true;
    manager = [];
  };
  hosts = empty_registry;
}

-- A turn of the declare loop that began before the reload fails to declare a Pool.
abbrev late_turn : Pools Held → Pools Held
late_turn w = record w { tracker = track w.tracker small_pool false }

abbrev both : List PoolProfile
both = small_profile ∷ large_profile ∷ []

abbrev after : Lifecycle Held
after = (reload deps late_turn before "ci" both (alpha ∷ [])).0

compare_hosts-after : compare_hosts after.hosts ("alpha" ∷ "omega" ∷ []) ≡ "omega" ∷ []
unfolding compare_hosts endpoint lookup reload apply insert
compare_hosts-after = refl

before-tracks :
    (ref : PoolRef)
    → is_some (lookup ref before.pools.tracker.pools)
      ≡ is_some (find_profile_by_pool (profiles_of before.profiles) ref)
unfolding find_profile_by_pool lookup new_tracker
before-tracks ref = ground (
  arith,
  lookup-track new_tracker small_pool ref true,
  lookup-track (track new_tracker small_pool true) old_profile.profile.pool_ref ref true,
  ref_eq_iff small_pool ref,
  ref_eq_iff old_profile.profile.pool_ref ref,
)

-- What the first stretch of the reload leaves.
abbrev replacing : Pools Held
replacing = (replace_config before (resolve_pools "ci" both) (alpha ∷ [])).pools

small_kept : is_some (lookup small_pool replacing.tracker.pools) ≡ true
unfolding lookup replace_config resolve_pools ref_eq untrack track new_tracker request_poll insert
    pool_locked delete
small_kept = refl

late_turn-tracks :
    (ref : PoolRef)
    → is_some (lookup ref (late_turn replacing).tracker.pools)
      ≡ is_some (lookup ref replacing.tracker.pools)
late_turn-tracks ref = ground (
  arith,
  lookup-track replacing.tracker small_pool ref false,
  small_kept,
  ref_eq_iff small_pool ref,
)

reload-tracks_example : is_some (lookup old_profile.profile.pool_ref after.pools.tracker.pools) ≡ (
    is_some
      (find_profile_by_pool (profiles_of (resolve_pools "ci" both)) old_profile.profile.pool_ref)
    && (is_some (find_profile_by_pool (profiles_of before.profiles) old_profile.profile.pool_ref)
        || not (is_some (reload deps late_turn before "ci" both (alpha ∷ [])).1)))
reload-tracks_example =
    reload-tracks deps late_turn before "ci" both (alpha ∷ []) held_spec manager-IsManager
      before-tracks late_turn-tracks (old_profile.profile.pool_ref)

reload-same_hosts_example :
    (is_some (lookup "alpha" after.impl.hosts) ≡ contains "alpha" (host_names (alpha ∷ [])))
    × (is_some (endpoint after.hosts "alpha") ≡ contains "alpha" (host_names (alpha ∷ [])))
unfolding reload apply lookup
reload-same_hosts_example =
    reload-same_hosts deps late_turn before "ci" both (alpha ∷ []) start refl refl "alpha"

abbrev undeclared : Pools Held
undeclared = record { tracker = new_tracker; manager = [] }

declare_turn-Agrees_example :
    All
      (Agrees deps held_spec
        (entries (alpha ∷ []))
        (declare_turn deps false undeclared (small_profile ∷ []) (entries (alpha ∷ []))))
      (small_profile ∷ [])
unfolding new_tracker find_profile_by_pool lookup
declare_turn-Agrees_example =
    declare_turn-Agrees deps held_spec (entries (alpha ∷ [])) manager-IsManager false undeclared
      (small_profile ∷ []) tt (refl, tt) (inl refl, tt)
