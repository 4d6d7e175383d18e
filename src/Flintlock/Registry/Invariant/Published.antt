-- ===== src/Flintlock/Registry/Invariant/Published.antt =====
-- The second critical section of `Apply` keeps what holds of a registry.
use flintlock_runner.Prelude.{
  ℕ, ◌+◌, ◌≤◌, ◌≡◌, sym, subst, ltb, true, false, ◌++◌, none, some, is_some, arith, if◌then◌else◌,
  nat_key, string_key, String, eq_iff, ==_iff, Option-cases, Bool-cases, inl, inr,
}
use flintlock_runner.Prelude.Map.{lookup, IsMap}
use flintlock_runner.Flintlock.Registry.{Plan, Registry, ids_of, publish, apply_publish, retire_all}
use flintlock_runner.Flintlock.Registry.Store.{
  count_of, count_of-append, is_open, Keeps, retire_all-Keeps,
}
use flintlock_runner.Flintlock.Registry.Build.{in_table}
use flintlock_runner.Flintlock.Registry.Invariant.{
  IsRegistry, IsPlan, holders, planned, closed_count, leases_of, is_placed,
}
use flintlock_runner.Flintlock.Registry.Invariant.Publishing.{
  names_id-lookup, published, dialled-absent, next_registry, Published,
}

-- Everything that a plan's publishing is proved from.
record Publishing (r t : Registry) (p : Plan) : Type 0 where
  has : r.plan ≡ some p
  before : IsRegistry r
  plan : IsPlan r p
  kept : Keeps (next_registry r p) t
  at : (k : ℕ) → Published r t p k

published-accounted :
    (r t : Registry) (p : Plan) (k : ℕ)
    → Publishing r t p
    → count_of k t.closes + count_of k t.lost + planned k t.plan + is_open (lookup k t.entries)
      ≡ (if ltb k t.made then 1 else 0)
published-accounted r t p k g = elim (Option-cases (lookup k r.entries)) [
  | inl missing ↦ elim (Option-cases (lookup k p.dialled)) [
    | inl old ↦ ground (
      arith,
      missing,
      old,
      g.has,
      g.before.accounted k,
      g.kept.same_lost,
      g.kept.same_plan,
      g.kept.same_made,
      (g.at k).entry,
      (g.at k).closing,
      g.plan.sound.new_once k,
      g.plan.sound.new_numbers k,
    )
    | inr (ep, new) ↦ ground (
      arith,
      missing,
      new,
      g.has,
      g.before.accounted k,
      g.kept.same_lost,
      g.kept.same_plan,
      g.kept.same_made,
      (g.at k).entry,
      (g.at k).closing,
      g.plan.sound.new_once k,
      g.plan.sound.new_numbers k,
    )
  ]
  | inr (e, at) ↦ ground (
    arith,
    at,
    g.has,
    g.before.accounted k,
    g.kept.same_lost,
    g.kept.same_plan,
    g.kept.same_made,
    (g.at k).entry,
    (g.at k).closing,
    g.plan.sound.new_once k,
    g.plan.sound.new_numbers k,
    dialled-absent r p k g.has g.before g.plan,
  )
]

published-counted :
    (r t : Registry) (p : Plan) (k : ℕ)
    → Publishing r t p
    → closed_count (lookup k t.entries) ≤ count_of k t.closes
published-counted r t p k g = elim (Option-cases (lookup k r.entries)) [
  | inl missing ↦ elim (Option-cases (lookup k p.dialled)) [
    | inl old ↦ ground (arith, missing, old, (g.at k).entry)
    | inr (ep, new) ↦ ground (arith, missing, new, (g.at k).entry)
  ]
  | inr (e, at) ↦ ground (arith, at, g.before.counted k, (g.at k).entry, (g.at k).closing)
]

published-holding :
    (r t : Registry) (p : Plan) (k : ℕ)
    → Publishing r t p
    → leases_of (lookup k t.entries) ≡ holders k t.held
published-holding r t p k g = elim (Option-cases (lookup k r.entries)) [
  | inl missing ↦ elim (Option-cases (lookup k p.dialled)) [
    | inl old ↦ ground (arith, missing, old, (g.at k).entry, g.before.holding k, g.kept.same_held)
    | inr (ep, new) ↦
        ground (arith, missing, new, (g.at k).entry, g.before.holding k, g.kept.same_held)
  ]
  | inr (e, at) ↦ ground (arith, at, (g.at k).entry, g.before.holding k, g.kept.same_held)
]

published-IsFresh :
    (r t : Registry) (p : Plan) (k : ℕ)
    → Publishing r t p
    → t.made ≤ k
    → is_some (lookup k t.entries) ≡ false
published-IsFresh r t p k g new = ground (
  arith,
  (g.at k).entry,
  g.before.fresh k (omega (arith, new, g.kept.same_made)),
  g.plan.sound.new_numbers k,
  g.kept.same_made,
  new,
)

published-stands :
    (r t : Registry) (p : Plan) (name : String) (k : ℕ)
    → Publishing r t p
    → lookup name p.next ≡ some k
    → in_table name (lookup k t.entries) ≡ true
published-stands r t p name k g listed = elim (Option-cases (lookup k r.entries)) [
  | inl missing ↦ elim (Option-cases (lookup k p.dialled)) [
    | inl old ↦ absurd (
        ground (
          arith,
          missing,
          old,
          g.plan.sound.kept_or_new name k listed,
          names_id-lookup name r.hosts k,
          g.before.table.stands name k,
        ))
    | inr (ep, new) ↦ ground (
      arith,
      missing,
      new,
      (g.at k).entry,
      g.plan.sound.kept_or_new name k listed,
      names_id-lookup name r.hosts k,
      g.before.table.stands name k,
    )
  ]
  | inr (e, at) ↦ ground (
    arith,
    at,
    listed,
    (g.at k).entry,
    dialled-absent r p k g.has g.before g.plan,
    g.plan.sound.kept_or_new name k listed,
    names_id-lookup name r.hosts k,
    g.before.table.stands name k,
    eq_iff e.ep.name name,
    ==_iff k k,
  )
]

published-placed :
    (r t : Registry) (p : Plan) (k : ℕ)
    → r.closed ≡ false
    → Publishing r t p
    → is_placed false p.next t.retired k (lookup k t.entries) ≡ true
published-placed r t p k opened g = elim (Option-cases (lookup k r.entries)) [
  | inl missing ↦ elim (Option-cases (lookup k p.dialled)) [
    | inl old ↦ ground (arith, missing, old, (g.at k).entry)
    | inr (ep, new) ↦
        ground (arith, missing, new, (g.at k).entry, g.plan.sound.new_listed k ep new, ==_iff k k)
  ]
  | inr (e, at) ↦ ground (
    arith,
    at,
    opened,
    (g.at k).entry,
    (g.at k).waiting,
    g.before.placed k,
    names_id-lookup e.ep.name r.hosts k,
    g.before.table.stands e.ep.name k,
  )
]

published-IsRegistry :
    (r t : Registry) (p : Plan) → r.closed ≡ false → Publishing r t p → IsRegistry t
published-IsRegistry r t p opened g = record {
  accounted = λ k. published-accounted r t p k g;
  counted = λ k. published-counted r t p k g;
  holding = λ k. published-holding r t p k g;
  held_map = subst IsMap (sym g.kept.same_held) g.before.held_map;
  held_fresh = λ n later.
      ground
        (arith, g.kept.same_held, g.before.held_fresh n (omega (arith, later, g.kept.same_leased)));
  fresh = λ k new. published-IsFresh r t p k g new;
  table = record {
    maps = subst IsMap (sym g.kept.same_hosts) g.plan.sound.next_map;
    stands = λ name k listed.
        published-stands r t p name k g (ground (arith, listed, g.kept.same_hosts));
  };
  placed = λ k.
      ground
        (arith, published-placed r t p k opened g, g.kept.same_closed, g.kept.same_hosts, opened);
  plan_ok = λ q alive same. absurd (ground (arith, same, g.kept.same_plan));
}

unpublished-IsRegistry :
    (r : Registry) (p : Plan)
    → r.closed ≡ true
    → r.plan ≡ some p
    → IsRegistry r
    → IsRegistry (record r { plan = none; closes = ids_of p.dialled ++ r.closes })
unpublished-IsRegistry r p shut has i = record {
  accounted =
      λ k. ground (arith, has, i.accounted k, count_of-append k (ids_of p.dialled) r.closes);
  counted = λ k. ground (arith, i.counted k, count_of-append k (ids_of p.dialled) r.closes);
  holding = i.holding;
  held_map = i.held_map;
  held_fresh = i.held_fresh;
  fresh = i.fresh;
  table = i.table;
  placed = i.placed;
  plan_ok = λ q alive same. absurd (ground (arith, shut, alive));
}

publish-closed :
    (r : Registry) (p : Plan)
    → r.closed ≡ true
    → publish r p ≡ record r { plan = none; closes = ids_of p.dialled ++ r.closes }
unfolding publish
publish-closed r p shut = ground (arith, shut)

pub publish-open :
    (r : Registry) (p : Plan)
    → r.closed ≡ false
    → publish r p ≡ retire_all (next_registry r p) p.leaving
unfolding publish
publish-open r p opened = ground (arith, opened)

publish-IsRegistry :
    (r : Registry) (p : Plan) → r.plan ≡ some p → IsRegistry r → IsRegistry (publish r p)
publish-IsRegistry r p has i = elim (Bool-cases r.closed) [
  | inl shut ↦
      subst IsRegistry (sym (publish-closed r p shut)) (unpublished-IsRegistry r p shut has i)
  | inr opened ↦ subst IsRegistry (sym (publish-open r p opened)) (
      published-IsRegistry r (retire_all (next_registry r p) p.leaving) p opened (record {
        has = has;
        before = i;
        plan = i.plan_ok p opened has;
        kept = retire_all-Keeps (next_registry r p) p.leaving;
        at = λ k. published r p k has i (i.plan_ok p opened has);
      }))
]

pub apply_publish-IsRegistry : (r : Registry) → IsRegistry r → IsRegistry ((apply_publish r).0)
unfolding apply_publish
apply_publish-IsRegistry r i = elim (Option-cases r.plan) [
  | inl idle ↦ subst IsRegistry (sym (unplanned idle)) i
  | inr (p, has) ↦ subst IsRegistry (sym (with_plan p has)) (publish-IsRegistry r p has i)
]
  where
    unplanned : r.plan ≡ none → (apply_publish r).0 ≡ r
    unplanned idle = ground (arith, idle)

    with_plan : (p : Plan) → r.plan ≡ some p → (apply_publish r).0 ≡ publish r p
    with_plan p has = ground (arith, has)
