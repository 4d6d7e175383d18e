-- ===== src/Flintlock/Registry/Applied.antt =====
-- What `Apply` of internal/flintlock/registry.go answers, and what it leaves behind.
use flintlock_runner.Prelude.{
  ℕ, ◌+◌, ◌≤◌, ◌&&◌, leb, ltb, if◌then◌else◌, ◌≡◌, refl, sym, ap, ◌∙◌, subst, Bool, true, false,
  List, Option, none, some, arith, nat_key, string_key, String, Option-cases, Bool-cases, inl, inr,
  ◌⊎◌,
}
use flintlock_runner.Prelude.Map.{lookup}
use flintlock_runner.Flintlock.Registry.{
  Endpoint, Plan, Registry, Built, built, refused, ApplyError, no_name, listed_twice, not_dialled,
  registry_closed, build, empty_plan, apply_publish, apply, publish, retire_all, endpoint, ids_of,
}
use flintlock_runner.Flintlock.Registry.Store.{count_of, count_of-append, retire_all-Keeps}
use flintlock_runner.Flintlock.Registry.Build.{IsBuilt}
use flintlock_runner.Flintlock.Registry.Plans.{Outcome, LeavesTable, build-Outcome}
use flintlock_runner.Flintlock.Registry.Invariant.{IsRegistry, IsPlan}
use flintlock_runner.Flintlock.Registry.Invariant.Applying.{
  planned-IsRegistry, empty_plan-IsBuilt, empty_plan-Leaves,
}
use flintlock_runner.Flintlock.Registry.Invariant.Published.{publish-open}
use flintlock_runner.Flintlock.Registry.Invariant.Publishing.{
  dialled-absent, published, next_registry,
}
use flintlock_runner.Flintlock.Registry.Reload.{Reached, reached-IsRegistry}
use flintlock_runner.Flintlock.Registry.Endpoints.{wanted, endpoint_in, Lists, build-Lists}
use flintlock_runner.Flintlock.Registry.Concluding.{
  is_dial_error, Tidy, build-Tidy, conclude, apply-conclude, apply-shut,
}

-- The registry keeps everything but its counter and the two lists of clients.
abbrev Untouched : Registry → Registry → Type 0
Untouched r s =
    (s.hosts ≡ r.hosts)
    × (s.entries ≡ r.entries)
    × (s.retired ≡ r.retired)
    × (s.held ≡ r.held)
    × (s.plan ≡ r.plan)

-- What a refusal says of its error and the registry that it leaves.
abbrev IsRefusal : Registry → Registry × Option ApplyError → Type 0
IsRefusal r (s, none) = (true ≡ true)
IsRefusal r (s, some err) = Untouched r s × (err ≡ not_dialled → s.lost ≡ r.lost)

conclude-built :
    (r : Registry) (p : Plan) (n : ℕ)
    → r.closed ≡ false
    → conclude r (built p n) ≡ (publish (record r { plan = some p; made = n }) p, none)
unfolding apply_publish
conclude-built r p n opened = ground (arith, opened)

conclude-IsRefusal :
    (r : Registry) (out : Built) → r.closed ≡ false → Tidy out → IsRefusal r (conclude r out)
conclude-IsRefusal r (built p n) opened tidy =
    subst (IsRefusal r) (sym (conclude-built r p n opened)) refl
conclude-IsRefusal r (refused err ids true n) opened tidy =
    ((refl, refl, refl, refl, refl), λ e. refl)
conclude-IsRefusal r (refused err ids false n) opened tidy =
    ((refl, refl, refl, refl, refl), λ e. absurd (ground (arith, e, tidy)))

apply-IsRefusal :
    (dial : Endpoint → Bool) (r : Registry) (eps : List Endpoint) → IsRefusal r (apply dial r eps)
apply-IsRefusal dial r eps = elim (Bool-cases r.closed) [
  | inl shut ↦
      subst (IsRefusal r) (sym (apply-shut dial r eps shut))
        ((refl, refl, refl, refl, refl), λ e. refl)
  | inr opened ↦ subst (IsRefusal r) (sym (apply-conclude dial r eps opened)) (
      conclude-IsRefusal r (build dial r eps empty_plan r.made) opened
        (build-Tidy dial r eps empty_plan r.made))
]

unless_dialling :
    (err : ApplyError) {A : Type 0} → (err ≡ not_dialled → A) → (is_dial_error err ≡ false) ⊎ A
unless_dialling not_dialled there = inr (there refl)
unless_dialling no_name there = inl refl
unless_dialling listed_twice there = inl refl
unless_dialling registry_closed there = inl refl

-- An `Apply` that returns an error changes neither the table nor any entry, lease or retired client. Where
-- the error is a failed dial, it has lost no client either.
pub apply-refused :
    (dial : Endpoint → Bool) (r : Registry) (eps : List Endpoint) (err : ApplyError)
    → (apply dial r eps).1 ≡ some err
    → ((apply dial r eps).0.hosts ≡ r.hosts)
      × ((apply dial r eps).0.entries ≡ r.entries)
      × ((apply dial r eps).0.retired ≡ r.retired)
      × ((apply dial r eps).0.held ≡ r.held)
      × ((is_dial_error err ≡ false) ⊎ ((apply dial r eps).0.lost ≡ r.lost))
apply-refused dial r eps err failed =
    let (kept, tidy) =
      subst (λ o. IsRefusal r ((apply dial r eps).0, o)) failed (apply-IsRefusal dial r eps) in
    (kept.0, kept.1, kept.2, kept.3, unless_dialling err tidy)

-- The table after a publication, name by name.
publish-endpoint :
    (r : Registry) (p : Plan) (name : String)
    → r.closed ≡ false
    → r.plan ≡ some p
    → IsRegistry r
    → IsPlan r p
    → endpoint (publish r p) name ≡ endpoint_in r p name
unfolding endpoint
publish-endpoint r p name opened has i plan =
    ap (λ t. endpoint t name) (publish-open r p opened) ∙ by_loop
  where
    by_loop : endpoint (retire_all (next_registry r p) p.leaving) name ≡ endpoint_in r p name
    by_loop = elim (Option-cases (lookup name p.next)) [
      | inl missing ↦
          ground (arith, missing, (retire_all-Keeps (next_registry r p) p.leaving).same_hosts)
      | inr (k, listed) ↦ elim (Option-cases (lookup k r.entries)) [
        | inl new ↦ ground (
          arith,
          listed,
          new,
          (retire_all-Keeps (next_registry r p) p.leaving).same_hosts,
          (published r p k has i plan).entry,
          Option-cases (lookup k p.dialled),
        )
        | inr (e, at) ↦ ground (
          arith,
          listed,
          at,
          (retire_all-Keeps (next_registry r p) p.leaving).same_hosts,
          (published r p k has i plan).entry,
          dialled-absent r p k has i plan,
          Option-cases (lookup k p.dialled),
        )
      ]
    ]

-- The registry between the two critical sections.
abbrev between : Registry → Plan → ℕ → Registry
between r p n = record r { plan = some p; made = n }

planned-IsPlan :
    (r : Registry) (p : Plan) (n : ℕ)
    → IsBuilt r r.made p n
    → LeavesTable r p
    → IsPlan (between r p n) p
planned-IsPlan r p n sound leaves = record {
  first = r.made;
  sound = record {
    next_map = sound.next_map;
    kept_or_new = sound.kept_or_new;
    new_listed = sound.new_listed;
    new_numbers = sound.new_numbers;
    new_once = sound.new_once;
    growing = sound.growing;
  };
  leaves = leaves;
}

-- What a whole `Apply` answers, and the table that it leaves.
abbrev Serves : List Endpoint → Registry × Option ApplyError → Type 0
Serves eps (s, some err) = (true ≡ true)
Serves eps (s, none) = (name : String) → endpoint s name ≡ wanted name eps

conclude-Serves :
    (r : Registry) (eps : List Endpoint) (out : Built)
    → r.closed ≡ false
    → r.plan ≡ none
    → IsRegistry r
    → Outcome r r.made (LeavesTable r) out
    → Lists r empty_plan eps out
    → Serves eps (conclude r out)
unfolding lookup
conclude-Serves r eps (built p n) opened idle i (sound, leaves) lists =
    subst (Serves eps) (sym (conclude-built r p n opened)) (λ name.
      publish-endpoint (between r p n) p name opened refl
        (planned-IsRegistry r p n idle sound leaves i) (planned-IsPlan r p n sound leaves)
      ∙ lists name)
conclude-Serves r eps (refused err ids true n) opened idle i o lists = refl
conclude-Serves r eps (refused err ids false n) opened idle i o lists = refl

apply-Serves :
    (dial : Endpoint → Bool) (r : Registry) (eps : List Endpoint)
    → r.plan ≡ none
    → IsRegistry r
    → Serves eps (apply dial r eps)
apply-Serves dial r eps idle i = elim (Bool-cases r.closed) [
  | inl shut ↦ subst (Serves eps) (sym (apply-shut dial r eps shut)) refl
  | inr opened ↦ subst (Serves eps) (sym (apply-conclude dial r eps opened)) (
      conclude-Serves r eps (build dial r eps empty_plan r.made) opened idle i
        (build-Outcome dial r r.made eps empty_plan r.made i.table i.fresh (empty_plan-IsBuilt r)
          (empty_plan-Leaves r))
        (build-Lists dial r r.made eps empty_plan r.made i.table i.fresh (empty_plan-IsBuilt r)
          (empty_plan-Leaves r)))
]

-- After an `Apply` that nothing interrupts and that returns no error, the registry has the endpoint of
-- every name that the inventory lists, whether the entry was kept, replaced or is new, and no other name.
pub apply-endpoint :
    (dial : Endpoint → Bool) (r : Registry) (eps : List Endpoint)
    → Reached r
    → r.plan ≡ none
    → (apply dial r eps).1 ≡ none
    → (name : String) → endpoint ((apply dial r eps).0) name ≡ wanted name eps
apply-endpoint dial r eps reached idle done =
    subst (λ o. Serves eps ((apply dial r eps).0, o)) done
      (apply-Serves dial r eps idle (reached-IsRegistry reached))

-- What a refusal that no dial is to blame for leaves of the clients that the `Apply` has dialled.
abbrev Loses : Registry → Registry × Option ApplyError → Type 0
Loses r (s, none) = (true ≡ true)
Loses r (s, some err) =
    is_dial_error err ≡ false
    → (s.closes ≡ r.closes)
      × ((id : ℕ)
          → count_of id s.lost
            ≡ count_of id r.lost + (if leb r.made id && ltb id s.made then 1 else 0))
      × ((id : ℕ) → r.made ≤ id → lookup id s.entries ≡ none)

no_entry : (r : Registry) → IsRegistry r → (id : ℕ) → r.made ≤ id → lookup id r.entries ≡ none
no_entry r i id later = ground (arith, i.fresh id later, Option-cases (lookup id r.entries))

conclude-Loses :
    (r : Registry) (out : Built)
    → r.closed ≡ false
    → IsRegistry r
    → Tidy out
    → Outcome r r.made (LeavesTable r) out
    → Loses r (conclude r out)
conclude-Loses r (built p n) opened i tidy o =
    subst (Loses r) (sym (conclude-built r p n opened)) refl
conclude-Loses r (refused err ids true n) opened i tidy o = λ e. absurd (ground (arith, e, tidy))
conclude-Loses r (refused err ids false n) opened i tidy (growing, once) = λ e.
    (refl, (λ id. ground (arith, once id, count_of-append id (ids_of ids) r.lost)), no_entry r i)

apply-Loses :
    (dial : Endpoint → Bool) (r : Registry) (eps : List Endpoint)
    → IsRegistry r
    → Loses r (apply dial r eps)
apply-Loses dial r eps i = elim (Bool-cases r.closed) [
  | inl shut ↦
      subst (Loses r) (sym (apply-shut dial r eps shut))
        (λ e. (refl, (λ id. ground arith), no_entry r i))
  | inr opened ↦ subst (Loses r) (sym (apply-conclude dial r eps opened)) (
      conclude-Loses r (build dial r eps empty_plan r.made) opened i
        (build-Tidy dial r eps empty_plan r.made)
        (build-Outcome dial r r.made eps empty_plan r.made i.table i.fresh (empty_plan-IsBuilt r)
          (empty_plan-Leaves r)))
]

-- A whole `Apply`, which nothing interrupts, that is refused for anything but a failed dial calls no
-- `Close`. Each client that it has dialled is lost, once, and the registry has no entry for it; no other
-- client is lost.
pub refused-loses :
    (dial : Endpoint → Bool) (r : Registry) (eps : List Endpoint) (err : ApplyError)
    → Reached r
    → (apply dial r eps).1 ≡ some err
    → is_dial_error err ≡ false
    → ((apply dial r eps).0.closes ≡ r.closes)
      × ((id : ℕ)
          → count_of id (apply dial r eps).0.lost
            ≡ count_of id r.lost
              + (if leb r.made id && ltb id (apply dial r eps).0.made then 1 else 0))
      × ((id : ℕ) → r.made ≤ id → lookup id (apply dial r eps).0.entries ≡ none)
refused-loses dial r eps err reached failed =
    subst (λ o. Loses r ((apply dial r eps).0, o)) failed
      (apply-Loses dial r eps (reached-IsRegistry reached))
