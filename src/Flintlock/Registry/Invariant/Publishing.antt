-- ===== src/Flintlock/Registry/Invariant/Publishing.antt =====
-- What becomes of each entry in the second critical section of `Apply`.
use flintlock_runner.Prelude.{
  ℕ, ◌+◌, ◌≤◌, ◌≡◌, refl, true, false, ◌||◌, List, [], ◌∷◌, Option, none, some, is_some, arith,
  if◌then◌else◌, nat_key, string_key, String, ◌==◌, ==_iff, Option-cases, inl, inr,
}
use flintlock_runner.Prelude.Map.{lookup, lookup-insert}
use flintlock_runner.Prelude.Uids.{contains}
use flintlock_runner.Flintlock.Registry.{
  HostEntry, Endpoint, Plan, Registry, retire_all, add_entries, new_entry,
}
use flintlock_runner.Flintlock.Registry.Store.{
  count_of, retire_all_lem, retired_form, lingers, newly_closed,
}
use flintlock_runner.Flintlock.Registry.Build.{names_id, has_to_leave}
use flintlock_runner.Flintlock.Registry.Invariant.{IsRegistry, IsPlan}

abbrev pub or_new : Option Endpoint → Option HostEntry → Option HostEntry
or_new none o = o
or_new (some ep) o = some (new_entry ep)

pub lookup-add_entries :
    (k : ℕ) (ds : List (ℕ × Endpoint)) (m : List (ℕ × HostEntry))
    → lookup k (add_entries ds m) ≡ or_new (lookup k ds) (lookup k m)
unfolding lookup
lookup-add_entries k [] m = refl
lookup-add_entries k ((id, ep) ∷ ds) m = ground (
  arith,
  lookup-add_entries k ds m,
  lookup-insert id k (new_entry ep) (add_entries ds m),
  ==_iff id k,
)

-- No entry has the number of a client that a plan has dialled.
pub dialled-absent :
    (r : Registry) (p : Plan) (k : ℕ)
    → r.plan ≡ some p
    → IsRegistry r
    → IsPlan r p
    → is_some (lookup k p.dialled) ≡ true
    → lookup k r.entries ≡ none
dialled-absent r p k has i plan there = elim (Option-cases (lookup k r.entries)) [
  | inl missing ↦ missing
  | inr (e, at) ↦ absurd (
      ground (
        arith,
        has,
        at,
        there,
        i.accounted k,
        i.counted k,
        plan.sound.new_once k,
        plan.sound.new_numbers k,
      ))
]

abbrev pub next_registry : Registry → Plan → Registry
next_registry r p = record r {
  plan = none;
  hosts = p.next;
  entries = add_entries p.dialled r.entries;
}

-- What an entry is once a plan has been published.
abbrev pub after : Option Endpoint → ℕ → Option HostEntry → Option HostEntry
after d n none = or_new d none
after d n (some e) = if n == 0 then some e else retired_form (some e)

-- What has become of one entry.
pub record Published (r t : Registry) (p : Plan) (k : ℕ) : Type 0 where
  pub entry :
      lookup k t.entries
      ≡ after
          (lookup k p.dialled)
          (has_to_leave (lookup k r.entries) r.hosts p.next k)
          (lookup k r.entries)
  pub closing :
      count_of k t.closes
      ≡ count_of k r.closes
        + (if has_to_leave (lookup k r.entries) r.hosts p.next k == 0
            then 0
            else newly_closed (lookup k r.entries))
  pub waiting : contains k t.retired ≡ (
      contains k r.retired
      || (if has_to_leave (lookup k r.entries) r.hosts p.next k == 0
          then false
          else lingers (lookup k r.entries)))

pub published :
    (r : Registry) (p : Plan) (k : ℕ)
    → r.plan ≡ some p
    → IsRegistry r
    → IsPlan r p
    → Published r (retire_all (next_registry r p) p.leaving) p k
published r p k has i plan = elim (Option-cases (lookup k r.entries)) [
  | inl missing ↦ record {
    entry = ground (arith, missing, steps, lookup-add_entries k p.dialled r.entries, plan.leaves k);
    closing =
        ground (arith, missing, steps, lookup-add_entries k p.dialled r.entries, plan.leaves k);
    waiting =
        ground (arith, missing, steps, lookup-add_entries k p.dialled r.entries, plan.leaves k);
  }
  | inr (e, at) ↦ record {
    entry = ground (
      arith,
      at,
      steps,
      lookup-add_entries k p.dialled r.entries,
      plan.leaves k,
      dialled-absent r p k has i plan,
    );
    closing = ground (
      arith,
      at,
      steps,
      lookup-add_entries k p.dialled r.entries,
      plan.leaves k,
      dialled-absent r p k has i plan,
    );
    waiting = ground (
      arith,
      at,
      steps,
      lookup-add_entries k p.dialled r.entries,
      plan.leaves k,
      dialled-absent r p k has i plan,
    );
  }
]
  where
    steps :
        count_of k p.leaving ≤ 1
        → (lookup k (retire_all (next_registry r p) p.leaving).entries ≡ (
            if count_of k p.leaving == 0
            then lookup k (add_entries p.dialled r.entries)
            else retired_form (lookup k (add_entries p.dialled r.entries))))
          × (count_of k (retire_all (next_registry r p) p.leaving).closes
              ≡ count_of k r.closes
                + (if count_of k p.leaving == 0
                    then 0
                    else newly_closed (lookup k (add_entries p.dialled r.entries))))
          × (contains k (retire_all (next_registry r p) p.leaving).retired ≡ (
              contains k r.retired
              || (if count_of k p.leaving == 0
                  then false
                  else lingers (lookup k (add_entries p.dialled r.entries)))))
    steps = retire_all_lem (next_registry r p) p.leaving k

pub names_id-lookup :
    (name : String) (hosts : List (String × ℕ)) (k : ℕ)
    → names_id (lookup name hosts) k ≡ true
    → lookup name hosts ≡ some k
names_id-lookup name hosts k there = elim (Option-cases (lookup name hosts)) [
  | inl missing ↦ absurd (ground (arith, missing, there))
  | inr (id, at) ↦ ground (arith, at, there, ==_iff id k)
]
