-- ===== src/Flintlock/Registry/Concluding.antt =====
-- How a whole `Apply` of internal/flintlock/registry.go, which nothing interrupts, goes on from what its loop
-- has built.
use flintlock_runner.Prelude.{
  ℕ, ◌≡◌, refl, sym, ap, ◌∙◌, subst, Bool, true, false, List, [], ◌∷◌, Option, none, some, arith,
  nat_key, string_key, str_eq, Option-cases, Bool-cases, inl, inr,
}
use flintlock_runner.Prelude.Map.{lookup}
use flintlock_runner.Flintlock.Registry.{
  Endpoint, Plan, Registry, Built, built, refused, ApplyError, no_name, listed_twice, not_dialled,
  registry_closed, build_one, build, find_existing, empty_plan, keep_build, apply_begin,
  apply_publish, apply,
}
use flintlock_runner.Flintlock.Registry.Plans.{
  build_one-same, build_one-moved, build_one-new, build_one-down,
}

-- A dial that fails closes what has been dialled, and no other refusal does.
abbrev pub is_dial_error : ApplyError → Bool
is_dial_error not_dialled = true
is_dial_error no_name = false
is_dial_error listed_twice = false
is_dial_error registry_closed = false

abbrev pub Tidy : Built → Type 0
Tidy (built p n) = (true ≡ true)
Tidy (refused err ids done n) = (done ≡ is_dial_error err)

build_one-Tidy :
    (dial : Endpoint → Bool) (r : Registry) (ep : Endpoint) (p : Plan) (n : ℕ)
    → Tidy (build_one dial r ep p n)
build_one-Tidy dial r ep p n = by_found (find_existing r ep) refl
  where
    by_found : (o : Option (ℕ × Bool)) → find_existing r ep ≡ o → Tidy (build_one dial r ep p n)
    by_found (some (id, true)) there = subst Tidy (sym (build_one-same dial r ep p n id there)) refl
    by_found (some (id, false)) there = elim (Bool-cases (dial ep)) [
      | inl up ↦ subst Tidy (sym (build_one-moved dial r ep p n id there up)) refl
      | inr down ↦ subst Tidy (sym (build_one-down dial r ep p n (ground (arith, there)) down)) refl
    ]
    by_found none missing = elim (Bool-cases (dial ep)) [
      | inl up ↦ subst Tidy (sym (build_one-new dial r ep p n missing up)) refl
      | inr down ↦
          subst Tidy (sym (build_one-down dial r ep p n (ground (arith, missing)) down)) refl
    ]

pub build-Tidy :
    (dial : Endpoint → Bool) (r : Registry) (eps : List Endpoint) (p : Plan) (n : ℕ)
    → Tidy (build dial r eps p n)
unfolding build
build-Tidy dial r [] p n = refl
build-Tidy dial r (ep ∷ eps) p n = elim (Bool-cases (str_eq ep.name "")) [
  | inl nameless ↦ rw nameless refl
  | inr named ↦ elim (Option-cases (lookup ep.name p.next)) [
    | inr (id, listed) ↦ rw (named, listed) refl
    | inl unused ↦
        rw (named, unused)
          (elim (build_one dial r ep p n)
              as (λ out.
                Tidy out
                → Tidy (elim out as (λ x. Built) [
                  | refused err ids done m ↦ refused err ids done m
                  | built q m ↦ build dial r eps q m
                ])) [
                  | refused err ids done m ↦ λ tidy. tidy
                  | built q m ↦ λ tidy. build-Tidy dial r eps q m
                ]
            (build_one-Tidy dial r ep p n))
  ]
]

-- What a whole `Apply` does with what it has built.
abbrev pub conclude : Registry → Built → Registry × Option ApplyError
conclude r (built p n) = apply_publish (record r { plan = some p; made = n })
conclude r (refused err ids done n) = keep_build r (refused err ids done n)

keep_build-conclude :
    (r : Registry) (out : Built)
    → (let (s, err) = keep_build r out in
        elim err [ some e ↦ (s, some e) | none ↦ apply_publish s ])
      ≡ conclude r out
keep_build-conclude r (built p n) = refl
keep_build-conclude r (refused err ids true n) = refl
keep_build-conclude r (refused err ids false n) = refl

apply_begin-build :
    (dial : Endpoint → Bool) (r : Registry) (eps : List Endpoint)
    → r.closed ≡ false
    → apply_begin dial r eps ≡ keep_build r (build dial r eps empty_plan r.made)
unfolding apply_begin
apply_begin-build dial r eps opened = ground (arith, opened)

pub apply-conclude :
    (dial : Endpoint → Bool) (r : Registry) (eps : List Endpoint)
    → r.closed ≡ false
    → apply dial r eps ≡ conclude r (build dial r eps empty_plan r.made)
unfolding apply
apply-conclude dial r eps opened =
    ap (λ x. let (s, err) = x in elim err [ some e ↦ (s, some e) | none ↦ apply_publish s ])
      (apply_begin-build dial r eps opened)
    ∙ keep_build-conclude r (build dial r eps empty_plan r.made)

pub apply-shut :
    (dial : Endpoint → Bool) (r : Registry) (eps : List Endpoint)
    → r.closed ≡ true
    → apply dial r eps ≡ (r, some registry_closed)
unfolding apply apply_begin
apply-shut dial r eps shut = ground (arith, shut)
