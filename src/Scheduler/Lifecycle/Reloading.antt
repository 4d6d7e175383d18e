-- ===== src/Scheduler/Lifecycle/Reloading.antt =====
-- What a reload leaves: the Pools that are tracked, the Hosts, and the Pools at the Pool Manager.
use flintlock_runner.Prelude.{
  ◌≡◌, refl, sym, ap, ◌∙◌, false, not, ◌||◌, ◌&&◌, List, [], ◌∷◌, Option, none, some, is_some,
  String, if◌then◌else◌, arith, Option-cases, Bool-cases, inl, inr, string_key, eq_iff,
}
use flintlock_runner.Prelude.Map.{lookup, lookup-delete}
use flintlock_runner.Prelude.Uids.{contains}
use flintlock_runner.Poolmgr.Event.{PoolRef, ref_key, ref_eq_iff}
use flintlock_runner.Poolmgr.Tracker.{Tracker, untrack}
use flintlock_runner.Poolmgr.Declare.{PoolSpec}
use flintlock_runner.Poolmgr.Declare.Laws.{IsManager}
use flintlock_runner.Flintlock.Registry.{ApplyError, apply, endpoint}
use flintlock_runner.Flintlock.Registry.Reload.{Reached}
use flintlock_runner.Flintlock.Registry.Endpoints.{wanted}
use flintlock_runner.Flintlock.Registry.Applied.{apply-endpoint}
use flintlock_runner.Scheduler.Profiles.{find_profile_by_pool}
use flintlock_runner.Scheduler.Hosts.Record.{lookup-reset_hosts}
use flintlock_runner.Scheduler.Lifecycle.{
  PoolProfile, InventoryHost, Deps, Pools, Lifecycle, declare_all, profiles_of, untrack_removed,
  replace_config, resolve_pools, reload, endpoints, entries, host_names,
}
use flintlock_runner.Scheduler.Lifecycle.Declaring.{tracked-declare_all}

tracked-untrack :
    (t : Tracker) (ref k : PoolRef)
    → is_some (lookup k (untrack t ref).pools)
      ≡ (if ref_key.beq ref k then false else is_some (lookup k t.pools))
unfolding untrack
tracked-untrack t ref k = elim (Option-cases (lookup ref t.pools)) [
  | inl missing ↦ ground (arith, missing, ref_eq_iff ref k)
  | inr (p, known) ↦ ground (arith, known, lookup-delete ref k t.pools, ref_eq_iff ref k)
]

tracked-untrack_removed :
    (t : Tracker) (ps next : List PoolProfile) (ref : PoolRef)
    → is_some (lookup ref (untrack_removed t ps next).pools) ≡ (
        is_some (lookup ref t.pools)
        && (is_some (find_profile_by_pool (profiles_of next) ref)
            || not (is_some (find_profile_by_pool (profiles_of ps) ref))))
unfolding untrack_removed find_profile_by_pool
tracked-untrack_removed t [] next ref = ground arith
tracked-untrack_removed t (p ∷ ps) next ref =
    elim (Bool-cases (is_some (find_profile_by_pool (profiles_of next) p.profile.pool_ref))) [
      | inl kept ↦
          ground
            (arith, kept, tracked-untrack_removed t ps next ref, ref_eq_iff p.profile.pool_ref ref)
      | inr gone ↦ ground (
        arith,
        gone,
        tracked-untrack_removed (untrack t p.profile.pool_ref) ps next ref,
        tracked-untrack t p.profile.pool_ref ref,
        ref_eq_iff p.profile.pool_ref ref,
      )
    ]

wanted-endpoints :
    (name : String) (inventory : List InventoryHost)
    → is_some (wanted name (endpoints inventory)) ≡ contains name (host_names inventory)
unfolding endpoints contains
wanted-endpoints name [] = refl
wanted-endpoints name (h ∷ hs) =
    ground (arith, wanted-endpoints name hs, eq_iff h.entry.name name, eq_iff name h.entry.name)

module _ {M S : Type 0} (deps : Deps M S) (meanwhile : Pools M → Pools M) (s : Lifecycle M)
    (namespace : String) (profiles : List PoolProfile) (inventory : List InventoryHost) where
  abbrev replaced : Lifecycle M
  replaced = replace_config s (resolve_pools namespace profiles) inventory

  reload-refused :
      (e : ApplyError)
      → (apply deps.dial s.hosts (endpoints inventory)).1 ≡ some e
      → reload deps meanwhile s namespace profiles inventory ≡ (
        record replaced {
          hosts = (apply deps.dial s.hosts (endpoints inventory)).0;
          pools = meanwhile replaced.pools;
        },
        some e,
      )
  unfolding reload replace_config
  reload-refused e failed = ground (arith, failed)

  reload-applied :
      (apply deps.dial s.hosts (endpoints inventory)).1 ≡ none
      → reload deps meanwhile s namespace profiles inventory ≡ (
        record replaced {
          hosts = (apply deps.dial s.hosts (endpoints inventory)).0;
          pools =
              declare_all deps
                (meanwhile replaced.pools)
                (resolve_pools namespace profiles)
                (entries inventory);
        },
        none,
      )
  unfolding reload replace_config
  reload-applied done = ground (arith, done)

  reload-err :
      (reload deps meanwhile s namespace profiles inventory).1
      ≡ (apply deps.dial s.hosts (endpoints inventory)).1
  reload-err = elim (Option-cases ((apply deps.dial s.hosts (endpoints inventory)).1)) [
    | inl done ↦ ap (λ x. x.1) (reload-applied done) ∙ sym done
    | inr (e, failed) ↦ ap (λ x. x.1) (reload-refused e failed) ∙ sym failed
  ]

  -- Where the Tracker has exactly the Pools of the Profiles, and what others do in the middle of the reload
  -- neither tracks nor untracks a Pool, a reload whose own declarations nothing interrupts leaves it with
  -- exactly those of the new Profiles if it succeeds, and with those that are in both if the registry of
  -- Hosts refuses it.
  pub reload-tracks :
      (holds : M → PoolRef → Option (PoolSpec S))
      → IsManager deps.admin holds
      → ((ref : PoolRef)
          → is_some (lookup ref s.pools.tracker.pools)
            ≡ is_some (find_profile_by_pool (profiles_of s.profiles) ref))
      → ((ref : PoolRef)
          → is_some (lookup ref (meanwhile replaced.pools).tracker.pools)
            ≡ is_some (lookup ref replaced.pools.tracker.pools))
      → (ref : PoolRef)
      → is_some (
          lookup ref ((reload deps meanwhile s namespace profiles inventory).0).pools.tracker.pools)
        ≡ (is_some (find_profile_by_pool (profiles_of (resolve_pools namespace profiles)) ref)
            && (is_some (find_profile_by_pool (profiles_of s.profiles) ref)
                || not (is_some (reload deps meanwhile s namespace profiles inventory).1)))
  unfolding replace_config
  reload-tracks holds law before kept ref =
      elim (Option-cases ((apply deps.dial s.hosts (endpoints inventory)).1)) [
        | inl done ↦ ground (
          arith,
          reload-applied done,
          before ref,
          kept ref,
          tracked-untrack_removed s.pools.tracker s.profiles (resolve_pools namespace profiles) ref,
          tracked-declare_all deps holds (entries inventory) law (meanwhile replaced.pools)
              (resolve_pools namespace profiles) ref,
        )
        | inr (e, failed) ↦ ground (
          arith,
          reload-refused e failed,
          before ref,
          kept ref,
          tracked-untrack_removed s.pools.tracker s.profiles (resolve_pools namespace profiles) ref,
        )
      ]

  -- A reload that succeeds leaves the table of Host health and the registry of Hosts with the same Hosts,
  -- those of the new Inventory.
  pub reload-same_hosts :
      Reached s.hosts
      → s.hosts.plan ≡ none
      → (reload deps meanwhile s namespace profiles inventory).1 ≡ none
      → (name : String)
      → (is_some (lookup name ((reload deps meanwhile s namespace profiles inventory).0).impl.hosts)
          ≡ contains name (host_names inventory))
        × (is_some (endpoint ((reload deps meanwhile s namespace profiles inventory).0).hosts name)
            ≡ contains name (host_names inventory))
  unfolding replace_config
  reload-same_hosts reached idle done name =
      let applied = sym reload-err ∙ done in
      ground (
        arith,
        reload-applied applied,
        lookup-reset_hosts s.impl (host_names inventory) name,
        apply-endpoint deps.dial s.hosts (endpoints inventory) reached idle applied name,
        wanted-endpoints name inventory,
      )
