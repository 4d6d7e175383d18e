-- ===== src/Flintlock/Registry/Invariant/Applying.antt =====
-- `Apply` and `Close` keep what holds of a registry.
use flintlock_runner.Prelude.{
  ℕ, ◌≤◌, ◌≡◌, sym, subst, leb, ltb, Bool, true, false, ◌&&◌, List, ◌++◌, none, some, arith,
  if◌then◌else◌, nat_key, string_key, Option-cases, Bool-cases, inl, inr,
}
use flintlock_runner.Prelude.Map.{lookup}
use flintlock_runner.Flintlock.Registry.{
  Endpoint, Plan, Registry, Built, built, refused, ids_of, apply_begin, build, keep_build,
  empty_plan,
}
use flintlock_runner.Flintlock.Registry.Store.{count_of, count_of-append}
use flintlock_runner.Flintlock.Registry.Build.{IsBuilt, Leaves}
use flintlock_runner.Flintlock.Registry.Plans.{LeavesTable, Outcome, build-Outcome}
use flintlock_runner.Flintlock.Registry.Invariant.{IsRegistry, IsPlan}

pub empty_plan-IsBuilt : (r : Registry) → IsBuilt r r.made empty_plan r.made
unfolding lookup
empty_plan-IsBuilt r = record {
  next_map = tt;
  kept_or_new = λ name id listed. ground (arith, listed);
  new_listed = λ id ep dialled. ground (arith, dialled);
  new_numbers = λ id. ground arith;
  new_once = λ id. ground arith;
  growing = omega arith;
}

pub empty_plan-Leaves : (r : Registry) → Leaves r empty_plan
unfolding lookup
empty_plan-Leaves r id = elim (Option-cases (lookup id r.entries)) [
  | inl missing ↦ ground (arith, missing)
  | inr (e, at) ↦ ground (arith, at)
]

pub planned-IsRegistry :
    (r : Registry) (p : Plan) (n : ℕ)
    → r.plan ≡ none
    → IsBuilt r r.made p n
    → LeavesTable r p
    → IsRegistry r
    → IsRegistry (record r { plan = some p; made = n })
planned-IsRegistry r p n idle sound leaves i = record {
  accounted = λ k. ground (arith, idle, i.accounted k, sound.new_once k, sound.growing);
  counted = i.counted;
  holding = i.holding;
  held_map = i.held_map;
  held_fresh = i.held_fresh;
  fresh = λ k new. i.fresh k (omega (arith, new, sound.growing));
  table = i.table;
  placed = i.placed;
  plan_ok = λ q opened same.
      subst (IsPlan (record r { plan = some p; made = n })) (ground (arith, same)) (record {
        first = r.made;
        sound = record {
          next_map = sound.next_map;
          kept_or_new = sound.kept_or_new;
          new_listed = sound.new_listed;
          new_numbers = sound.new_numbers;
          new_once = sound.new_once;
          growing = sound.growing;
        };
        leaves = leaves;
      });
}

refused_closed-IsRegistry :
    (r : Registry) (ids : List (ℕ × Endpoint)) (n : ℕ)
    → r.plan ≡ none
    → r.made ≤ n
    → ((id : ℕ) → count_of id (ids_of ids) ≡ (if leb r.made id && ltb id n then 1 else 0))
    → IsRegistry r
    → IsRegistry (record r { made = n; closes = ids_of ids ++ r.closes })
refused_closed-IsRegistry r ids n idle growing once i = record {
  accounted =
      λ k. ground (arith, i.accounted k, once k, growing, count_of-append k (ids_of ids) r.closes);
  counted = λ k. ground (arith, i.counted k, count_of-append k (ids_of ids) r.closes);
  holding = i.holding;
  held_map = i.held_map;
  held_fresh = i.held_fresh;
  fresh = λ k new. i.fresh k (omega (arith, new, growing));
  table = i.table;
  placed = i.placed;
  plan_ok = λ q opened same. absurd (ground (arith, idle, same));
}

refused_lost-IsRegistry :
    (r : Registry) (ids : List (ℕ × Endpoint)) (n : ℕ)
    → r.plan ≡ none
    → r.made ≤ n
    → ((id : ℕ) → count_of id (ids_of ids) ≡ (if leb r.made id && ltb id n then 1 else 0))
    → IsRegistry r
    → IsRegistry (record r { made = n; lost = ids_of ids ++ r.lost })
refused_lost-IsRegistry r ids n idle growing once i = record {
  accounted =
      λ k. ground (arith, i.accounted k, once k, growing, count_of-append k (ids_of ids) r.lost);
  counted = i.counted;
  holding = i.holding;
  held_map = i.held_map;
  held_fresh = i.held_fresh;
  fresh = λ k new. i.fresh k (omega (arith, new, growing));
  table = i.table;
  placed = i.placed;
  plan_ok = λ q opened same. absurd (ground (arith, idle, same));
}

keep_build-IsRegistry :
    (r : Registry) (out : Built)
    → r.plan ≡ none
    → IsRegistry r
    → Outcome r r.made (LeavesTable r) out
    → IsRegistry ((keep_build r out).0)
keep_build-IsRegistry r (built p n) idle i (sound, leaves) =
    planned-IsRegistry r p n idle sound leaves i
keep_build-IsRegistry r (refused err ids true n) idle i (growing, once) =
    refused_closed-IsRegistry r ids n idle growing once i
keep_build-IsRegistry r (refused err ids false n) idle i (growing, once) =
    refused_lost-IsRegistry r ids n idle growing once i

pub apply_begin-closed :
    (dial : Endpoint → Bool) (r : Registry) (eps : List Endpoint)
    → r.closed ≡ true
    → (apply_begin dial r eps).0 ≡ r
unfolding apply_begin
apply_begin-closed dial r eps shut = ground (arith, shut)

pub apply_begin-open :
    (dial : Endpoint → Bool) (r : Registry) (eps : List Endpoint)
    → r.closed ≡ false
    → (apply_begin dial r eps).0 ≡ (keep_build r (build dial r eps empty_plan r.made)).0
unfolding apply_begin
apply_begin-open dial r eps opened = ground (arith, opened)

pub apply_begin-IsRegistry :
    (dial : Endpoint → Bool) (r : Registry) (eps : List Endpoint)
    → r.plan ≡ none
    → IsRegistry r
    → IsRegistry ((apply_begin dial r eps).0)
apply_begin-IsRegistry dial r eps idle i = elim (Bool-cases r.closed) [
  | inl shut ↦ subst IsRegistry (sym (apply_begin-closed dial r eps shut)) i
  | inr opened ↦ subst IsRegistry (sym (apply_begin-open dial r eps opened)) (
      keep_build-IsRegistry r (build dial r eps empty_plan r.made) idle i (
        build-Outcome dial r r.made eps empty_plan r.made i.table i.fresh (empty_plan-IsBuilt r)
          (empty_plan-Leaves r)))
]
