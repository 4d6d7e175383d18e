-- ===== src/Flintlock/Registry/Invariant/Leases.antt =====
-- Leases and their releases keep what holds of a registry.
use flintlock_runner.Prelude.{
  ℕ, ◌+◌, ◌-◌, ◌≡◌, refl, true, false, List, [], ◌∷◌, some, arith, if◌then◌else◌, nat_key,
  string_key, String, ◌==◌, ==_iff, Option-cases, Bool-cases, inl, inr,
}
use flintlock_runner.Prelude.Map.{
  lookup, insert, delete, lookup-insert, lookup-delete, insert-IsMap, delete-IsMap,
}
use flintlock_runner.Prelude.Uids.{contains}
use flintlock_runner.Flintlock.Registry.{
  HostEntry, Plan, Registry, lease, release, release_entry, is_releasable, close_entry,
  forget_retired,
}
use flintlock_runner.Flintlock.Registry.Build.{has_to_leave}
use flintlock_runner.Flintlock.Registry.Invariant.{
  IsRegistry, IsPlan, holders-insert, holders-delete,
}

-- A plan stays one where the table and the names of the entries stay.
pub same_names-IsPlan :
    (r s : Registry) (p : Plan)
    → s.hosts ≡ r.hosts
    → s.made ≡ r.made
    → ((k : ℕ)
        → has_to_leave (lookup k s.entries) s.hosts p.next k
          ≡ has_to_leave (lookup k r.entries) r.hosts p.next k)
    → IsPlan r p
    → IsPlan s p
same_names-IsPlan r s p hosts made names i = record {
  first = i.first;
  sound = record {
    next_map = i.sound.next_map;
    kept_or_new = λ name id listed. ground (arith, hosts, i.sound.kept_or_new name id listed);
    new_listed = i.sound.new_listed;
    new_numbers = λ id. ground (arith, made, i.sound.new_numbers id);
    new_once = λ id. ground (arith, made, i.sound.new_once id);
    growing = omega (arith, made, i.sound.growing);
  };
  leaves = λ id. ground (arith, i.leaves id, names id);
}

abbrev leased_once : Registry → ℕ → HostEntry → Registry
leased_once r id e = record r {
  entries = insert id (record e { leases = e.leases + 1 }) r.entries;
  held = insert r.leased id r.held;
  leased = r.leased + 1;
}

leased_once-IsRegistry :
    (r : Registry) (name : String) (id : ℕ) (e : HostEntry)
    → lookup name r.hosts ≡ some id
    → lookup id r.entries ≡ some e
    → IsRegistry r
    → IsRegistry (leased_once r id e)
leased_once-IsRegistry r name id e at stored i = record {
  accounted = λ k. ground (arith, stored, moved k, ==_iff id k, i.accounted k);
  counted = λ k. ground (arith, stored, moved k, ==_iff id k, i.counted k);
  holding = λ k. ground (
    arith,
    stored,
    moved k,
    ==_iff id k,
    i.holding k,
    holders-insert k r.leased id r.held (i.held_fresh r.leased (omega arith)),
  );
  held_map = insert-IsMap r.leased id r.held i.held_map;
  held_fresh = λ n later. ground (
    arith,
    lookup-insert r.leased n id r.held,
    i.held_fresh n (omega (arith, later)),
    ==_iff r.leased n,
    later,
  );
  fresh = λ k new. ground (arith, stored, moved k, ==_iff id k, i.fresh k new);
  table = record {
    maps = i.table.maps;
    stands = λ other k listed.
        ground (arith, stored, moved k, ==_iff id k, i.table.stands other k listed);
  };
  placed = λ k. elim (Bool-cases r.closed) [
    | inl shut ↦ ground (arith, shut, stored, moved k, ==_iff id k, i.placed k)
    | inr opened ↦
        ground (arith, opened, stored, moved k, ==_iff id k, i.placed k, i.table.stands name id at)
  ];
  plan_ok = λ p opened planned.
      same_names-IsPlan r (leased_once r id e) p refl refl
        (λ k. ground (arith, stored, moved k, ==_iff id k)) (i.plan_ok p opened planned);
}
  where
    moved :
        (k : ℕ)
        → lookup k (insert id (record e { leases = e.leases + 1 }) r.entries)
          ≡ (if id == k then some (record e { leases = e.leases + 1 }) else lookup k r.entries)
    moved k = lookup-insert id k (record e { leases = e.leases + 1 }) r.entries

pub lease-IsRegistry : (r : Registry) (name : String) → IsRegistry r → IsRegistry ((lease r name).0)
unfolding lease
lease-IsRegistry r name i = elim (Option-cases (lookup name r.hosts)) [
  | inl missing ↦ rw (lease, missing) i
  | inr (id, at) ↦ elim (Option-cases (lookup id r.entries)) [
    | inl gone ↦ rw (lease, at, gone) i
    | inr (e, stored) ↦ rw (lease, at, stored) (leased_once-IsRegistry r name id e at stored i)
  ]
]

contains-forget_retired :
    (id k : ℕ) (xs : List ℕ) → (k == id) ≡ false → contains k (forget_retired id xs) ≡ contains k xs
unfolding contains forget_retired
contains-forget_retired id k [] other = refl
contains-forget_retired id k (x ∷ xs) other =
    ground
      (arith, other, contains-forget_retired id k xs other, ==_iff k x, ==_iff x id, ==_iff k id)

abbrev lowered : HostEntry → HostEntry
lowered e = record e { leases = e.leases - 1 }

abbrev kept_lease : Registry → ℕ → ℕ → HostEntry → Registry
kept_lease r n id e = record r { held = delete n r.held; entries = insert id (lowered e) r.entries }

abbrev closed_lease : Registry → ℕ → ℕ → HostEntry → Registry
closed_lease r n id e = record r {
  held = delete n r.held;
  entries = insert id (record e { leases = e.leases - 1; closed = true }) r.entries;
  closes = id ∷ r.closes;
  retired = forget_retired id r.retired;
}

kept_lease-IsRegistry :
    (r : Registry) (n id : ℕ) (e : HostEntry)
    → lookup n r.held ≡ some id
    → lookup id r.entries ≡ some e
    → is_releasable (lowered e) ≡ false
    → IsRegistry r
    → IsRegistry (kept_lease r n id e)
unfolding is_releasable
kept_lease-IsRegistry r n id e at stored stays i = record {
  accounted = λ k. ground (arith, stored, moved k, ==_iff id k, i.accounted k);
  counted = λ k. ground (arith, stored, moved k, ==_iff id k, i.counted k);
  holding = λ k. ground (
    arith,
    stored,
    moved k,
    ==_iff id k,
    i.holding k,
    holders-delete k n id r.held i.held_map at,
  );
  held_map = delete-IsMap n r.held i.held_map;
  held_fresh = λ m later. ground (arith, lookup-delete n m r.held, i.held_fresh m later);
  fresh = λ k new. ground (arith, stored, moved k, ==_iff id k, i.fresh k new);
  table = record {
    maps = i.table.maps;
    stands = λ other k listed.
        ground (arith, stored, moved k, ==_iff id k, i.table.stands other k listed);
  };
  placed = λ k. elim (Bool-cases r.closed) [
    | inl shut ↦ ground (arith, shut, stored, moved k, ==_iff id k, i.placed k)
    | inr opened ↦ ground (arith, opened, stored, stays, moved k, ==_iff id k, i.placed k)
  ];
  plan_ok = λ p opened planned.
      same_names-IsPlan r (kept_lease r n id e) p refl refl
        (λ k. ground (arith, stored, moved k, ==_iff id k)) (i.plan_ok p opened planned);
}
  where
    moved :
        (k : ℕ)
        → lookup k (insert id (lowered e) r.entries)
          ≡ (if id == k then some (lowered e) else lookup k r.entries)
    moved k = lookup-insert id k (lowered e) r.entries

closed_lease-IsRegistry :
    (r : Registry) (n id : ℕ) (e : HostEntry)
    → lookup n r.held ≡ some id
    → lookup id r.entries ≡ some e
    → is_releasable (lowered e) ≡ true
    → IsRegistry r
    → IsRegistry (closed_lease r n id e)
unfolding is_releasable
closed_lease-IsRegistry r n id e at stored ends i = record {
  accounted = λ k. ground (arith, stored, ends, moved k, ==_iff id k, i.accounted k);
  counted = λ k. ground (arith, stored, ends, moved k, ==_iff id k, i.counted k);
  holding = λ k. ground (
    arith,
    stored,
    moved k,
    ==_iff id k,
    i.holding k,
    holders-delete k n id r.held i.held_map at,
  );
  held_map = delete-IsMap n r.held i.held_map;
  held_fresh = λ m later. ground (arith, lookup-delete n m r.held, i.held_fresh m later);
  fresh = λ k new. ground (arith, stored, moved k, ==_iff id k, i.fresh k new);
  table = record {
    maps = i.table.maps;
    stands = λ other k listed.
        ground (arith, stored, ends, moved k, ==_iff id k, i.table.stands other k listed);
  };
  placed = λ k. elim (Bool-cases r.closed) [
    | inl shut ↦ ground (arith, shut, stored, moved k, ==_iff id k, i.placed k)
    | inr opened ↦ ground (
      arith,
      opened,
      stored,
      ends,
      moved k,
      ==_iff id k,
      ==_iff k id,
      i.placed k,
      contains-forget_retired id k r.retired,
    )
  ];
  plan_ok = λ p opened planned.
      same_names-IsPlan r (closed_lease r n id e) p refl refl
        (λ k. ground (arith, stored, moved k, ==_iff id k)) (i.plan_ok p opened planned);
}
  where
    moved :
        (k : ℕ)
        → lookup k (insert id (record e { leases = e.leases - 1; closed = true }) r.entries) ≡ (
            if id == k
            then some (record e { leases = e.leases - 1; closed = true })
            else lookup k r.entries)
    moved k = lookup-insert id k (record e { leases = e.leases - 1; closed = true }) r.entries

pub release-IsRegistry : (r : Registry) (n : ℕ) → IsRegistry r → IsRegistry (release r n)
unfolding release release_entry close_entry
release-IsRegistry r n i = elim (Option-cases (lookup n r.held)) [
  | inl missing ↦ rw (release, missing) i
  | inr (id, at) ↦ elim (Option-cases (lookup id r.entries)) [
    | inl gone ↦ rw (release, at, gone) i
    | inr (e, stored) ↦ elim (Bool-cases (is_releasable (lowered e))) [
      | inl ends ↦
          rw (release, at, stored, release_entry, ends)
            (closed_lease-IsRegistry r n id e at stored ends i)
      | inr stays ↦
          rw (release, at, stored, release_entry, stays)
            (kept_lease-IsRegistry r n id e at stored stays i)
    ]
  ]
]
