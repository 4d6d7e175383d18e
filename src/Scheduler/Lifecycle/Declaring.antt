-- ===== src/Scheduler/Lifecycle/Declaring.antt =====
-- What a declaration of the Profiles' Pools leaves at the Tracker and at the Pool Manager.
use flintlock_runner.Prelude.{
  ◌≡◌, refl, sym, ◌∙◌, subst, Bool, true, false, ◌||◌, ◌⊎◌, List, [], ◌∷◌, Option, none, some,
  is_some, if◌then◌else◌, arith, Option-cases, Bool-cases, inl, inr, All,
}
use flintlock_runner.Prelude.Map.{lookup, lookup-insert}
use flintlock_runner.Config.Hosts.{HostEntry}
use flintlock_runner.Poolmgr.Event.{PoolRef, ref_key, ref_eq_iff}
use flintlock_runner.Poolmgr.Pool.{TrackedPool}
use flintlock_runner.Poolmgr.Hosts.{select}
use flintlock_runner.Poolmgr.Tracker.{Tracker, track, pool_locked, store, request_poll}
use flintlock_runner.Poolmgr.Declare.{
  PoolSpec, Declared, declared, not_created, not_updated, declare_pool,
}
use flintlock_runner.Poolmgr.Declare.Laws.{
  IsManager, is_declared, declare_pool-holds, declare_pool-other,
}
use flintlock_runner.Scheduler.Profiles.{find_profile_by_pool}
use flintlock_runner.Scheduler.Lifecycle.{
  PoolProfile, Deps, Pools, declare_spec, declare, declare_all, profiles_of,
}

abbrev pub flag : Option TrackedPool → Bool
flag none = false
flag (some p) = p.declared

pub lookup-track :
    (t : Tracker) (ref k : PoolRef) (d : Bool)
    → (is_some (lookup k (track t ref d).pools)
        ≡ (if ref_key.beq ref k then true else is_some (lookup k t.pools)))
      × (flag (lookup k (track t ref d).pools)
          ≡ (if ref_key.beq ref k then d else flag (lookup k t.pools)))
unfolding track store pool_locked request_poll
lookup-track t ref k d = elim (Option-cases (lookup ref t.pools)) [
  | inl new ↦ ground (
    arith,
    new,
    lookup-insert ref k (record ((pool_locked t ref).0) { declared = d })
        (pool_locked t ref).1.pools,
    lookup-insert ref k (pool_locked t ref).0 t.pools,
    ref_eq_iff ref k,
  )
  | inr (p, known) ↦
      ground
        (arith, known, lookup-insert ref k (record p { declared = d }) t.pools, ref_eq_iff ref k)
]

pub tracker-declare_spec :
    {M S : Type 0} (deps : Deps M S) (w : Pools M) (ref : PoolRef) (spec : PoolSpec S)
    → (declare_spec deps w ref spec).tracker
      ≡ track w.tracker ref
          (is_declared ((declare_pool deps.admin w.manager (record spec { ref = ref })).1))
tracker-declare_spec deps w ref spec =
    by_outcome ((declare_pool deps.admin w.manager (record spec { ref = ref })).1)
  where
    by_outcome :
        (o : Declared)
        → (elim o as (λ x. Tracker) [
          | declared hosts ↦ track w.tracker ref true
          | not_created err ↦ track w.tracker ref false
          | not_updated err ↦ track w.tracker ref false
        ])
          ≡ track w.tracker ref (is_declared o)
    by_outcome (declared hosts) = refl
    by_outcome (not_created err) = refl
    by_outcome (not_updated err) = refl

-- The Profiles have Pools of their own.
abbrev pub Distinct : List PoolProfile → Type 0
Distinct [] = Unit
Distinct (p ∷ ps) = (find_profile_by_pool (profiles_of ps) p.profile.pool_ref ≡ none) × Distinct ps

module _ {M S : Type 0} (deps : Deps M S) (holds : M → PoolRef → Option (PoolSpec S))
    (inventory : List HostEntry) where
  -- The spec that a Profile asks for, under the name of its Pool.
  abbrev pub spec_of : PoolProfile → Option (PoolSpec S)
  spec_of p = elim (deps.build_spec p (select p.wanted inventory)) [
    | none ↦ none
    | some spec ↦ some (record spec { ref = p.profile.pool_ref })
  ]

  -- The Profile's Pool is tracked, and counts as declared only if the Pool Manager holds its spec.
  abbrev pub IsSettled : Pools M → PoolProfile → Type 0
  IsSettled w p =
      (is_some (lookup p.profile.pool_ref w.tracker.pools) ≡ true)
      × (flag (lookup p.profile.pool_ref w.tracker.pools) ≡ true
          → holds w.manager p.profile.pool_ref ≡ spec_of p)

  -- The same, as a choice.
  abbrev pub Agrees : Pools M → PoolProfile → Type 0
  Agrees w p =
      (is_some (lookup p.profile.pool_ref w.tracker.pools) ≡ true)
      × ((flag (lookup p.profile.pool_ref w.tracker.pools) ≡ false)
          ⊎ (holds w.manager p.profile.pool_ref ≡ spec_of p))

  pub settled-Agrees :
      (w : Pools M) (ps : List PoolProfile) → All (IsSettled w) ps → All (Agrees w) ps
  settled-Agrees w [] done = tt
  settled-Agrees w (p ∷ ps) ((known, held), done) = (
    (
      known,
      elim (Bool-cases (flag (lookup p.profile.pool_ref w.tracker.pools))) [
        | inl on ↦ inr (held on)
        | inr off ↦ inl off
      ],
    ),
    settled-Agrees w ps done,
  )

  -- The same, but that the Pool need not be tracked.
  abbrev pub IsHonest : Pools M → PoolProfile → Type 0
  IsHonest w p =
      flag (lookup p.profile.pool_ref w.tracker.pools) ≡ true
      → holds w.manager p.profile.pool_ref ≡ spec_of p

  -- The spec of the Profile cannot be built, or the Pool Manager, in some state, refuses its declaration.
  pub data IsRefused (p : PoolProfile) : Type 0 where
    not_built : spec_of p ≡ none → IsRefused p
    turned_down :
        (m : M) (spec : PoolSpec S)
        → spec_of p ≡ some spec
        → is_declared ((declare_pool deps.admin m spec).1) ≡ false
        → IsRefused p

  -- The Pool is tracked: as declared where the Pool Manager holds the spec, or as undeclared where the
  -- declaration was refused.
  abbrev pub IsDecided : Pools M → PoolProfile → Type 0
  IsDecided w p =
      (is_some (lookup p.profile.pool_ref w.tracker.pools) ≡ true)
      × (((flag (lookup p.profile.pool_ref w.tracker.pools) ≡ true)
            × (holds w.manager p.profile.pool_ref ≡ spec_of p))
          ⊎ ((flag (lookup p.profile.pool_ref w.tracker.pools) ≡ false) × IsRefused p))

  kept-IsDecided :
      (v w : Pools M) (p : PoolProfile)
      → (is_some (lookup p.profile.pool_ref v.tracker.pools)
          ≡ is_some (lookup p.profile.pool_ref w.tracker.pools))
        × (flag (lookup p.profile.pool_ref v.tracker.pools)
            ≡ flag (lookup p.profile.pool_ref w.tracker.pools))
        × (holds v.manager p.profile.pool_ref ≡ holds w.manager p.profile.pool_ref)
      → IsDecided w p
      → IsDecided v p
  kept-IsDecided v w p (known, flagged, held) (there, decided) = (
    known ∙ there,
    elim decided [
      | inl (on, same) ↦ inl (flagged ∙ on, held ∙ same)
      | inr (off, refusal) ↦ inr (flagged ∙ off, refusal)
    ],
  )

  pub declare-none :
      (w : Pools M) (p : PoolProfile)
      → deps.build_spec p (select p.wanted inventory) ≡ none
      → declare deps w p inventory ≡ record w { tracker = track w.tracker p.profile.pool_ref false }
  unfolding declare
  declare-none w p unbuilt = ground (arith, unbuilt)

  pub declare-some :
      (w : Pools M) (p : PoolProfile) (spec : PoolSpec S)
      → deps.build_spec p (select p.wanted inventory) ≡ some spec
      → declare deps w p inventory ≡ declare_spec deps w p.profile.pool_ref spec
  unfolding declare
  declare-some w p spec built = ground (arith, built)

  module _ (law : IsManager deps.admin holds) where
    pub declare-IsSettled :
        (w : Pools M) (p : PoolProfile) → IsSettled (declare deps w p inventory) p
    declare-IsSettled w p = elim (Option-cases (deps.build_spec p (select p.wanted inventory))) [
      | inl unbuilt ↦
          subst (λ v. IsSettled v p) (sym (declare-none w p unbuilt))
            (
              ground (
                arith,
                lookup-track w.tracker p.profile.pool_ref p.profile.pool_ref false,
                ref_eq_iff p.profile.pool_ref p.profile.pool_ref,
              ),
              λ on. absurd (
                  ground (
                    arith,
                    on,
                    lookup-track w.tracker p.profile.pool_ref p.profile.pool_ref false,
                    ref_eq_iff p.profile.pool_ref p.profile.pool_ref,
                  )),
            )
      | inr (spec, built) ↦
          subst (λ v. IsSettled v p) (sym (declare-some w p spec built))
            (
              ground (
                arith,
                tracker-declare_spec deps w p.profile.pool_ref spec,
                lookup-track w.tracker p.profile.pool_ref p.profile.pool_ref (
                    is_declared (
                      (declare_pool deps.admin w.manager
                        (record spec { ref = p.profile.pool_ref })).1)),
                ref_eq_iff p.profile.pool_ref p.profile.pool_ref,
              ),
              λ on. ground (
                arith,
                on,
                built,
                tracker-declare_spec deps w p.profile.pool_ref spec,
                lookup-track w.tracker p.profile.pool_ref p.profile.pool_ref (
                    is_declared (
                      (declare_pool deps.admin w.manager
                        (record spec { ref = p.profile.pool_ref })).1)),
                ref_eq_iff p.profile.pool_ref p.profile.pool_ref,
                declare_pool-holds deps.admin holds law w.manager
                    (record spec { ref = p.profile.pool_ref }),
              ),
            )
    ]

    pub declare-other :
        (w : Pools M) (p : PoolProfile) (ref : PoolRef)
        → ref_key.beq p.profile.pool_ref ref ≡ false
        → (is_some (lookup ref (declare deps w p inventory).tracker.pools)
            ≡ is_some (lookup ref w.tracker.pools))
          × (flag (lookup ref (declare deps w p inventory).tracker.pools)
              ≡ flag (lookup ref w.tracker.pools))
          × (holds (declare deps w p inventory).manager ref ≡ holds w.manager ref)
    declare-other w p ref other =
        elim (Option-cases (deps.build_spec p (select p.wanted inventory))) [
          | inl unbuilt ↦ ground (
            arith,
            declare-none w p unbuilt,
            other,
            lookup-track w.tracker p.profile.pool_ref ref false,
          )
          | inr (spec, built) ↦ ground (
            arith,
            declare-some w p spec built,
            other,
            tracker-declare_spec deps w p.profile.pool_ref spec,
            lookup-track w.tracker p.profile.pool_ref ref (
                is_declared (
                  (declare_pool deps.admin w.manager
                    (record spec { ref = p.profile.pool_ref })).1)),
            declare_pool-other deps.admin holds law w.manager
                (record spec { ref = p.profile.pool_ref }) ref other,
          )
        ]

    others-declare_all :
        (w : Pools M) (ps : List PoolProfile) (ref : PoolRef)
        → find_profile_by_pool (profiles_of ps) ref ≡ none
        → (is_some (lookup ref (declare_all deps w ps inventory).tracker.pools)
            ≡ is_some (lookup ref w.tracker.pools))
          × (flag (lookup ref (declare_all deps w ps inventory).tracker.pools)
              ≡ flag (lookup ref w.tracker.pools))
          × (holds (declare_all deps w ps inventory).manager ref ≡ holds w.manager ref)
    unfolding declare_all find_profile_by_pool
    others-declare_all w [] ref absent = (refl, refl, refl)
    others-declare_all w (p ∷ ps) ref absent = ground (
      arith,
      absent,
      others-declare_all (declare deps w p inventory) ps ref,
      declare-other w p ref,
    )

    -- What a declaration leaves of the Profile's own Pool.
    flag-declare :
        (w : Pools M) (p : PoolProfile) (spec : PoolSpec S)
        → deps.build_spec p (select p.wanted inventory) ≡ some spec
        → flag (lookup p.profile.pool_ref (declare deps w p inventory).tracker.pools)
          ≡ is_declared
              ((declare_pool deps.admin w.manager (record spec { ref = p.profile.pool_ref })).1)
    flag-declare w p spec built = ground (
      arith,
      declare-some w p spec built,
      tracker-declare_spec deps w p.profile.pool_ref spec,
      lookup-track w.tracker p.profile.pool_ref p.profile.pool_ref (
          is_declared
            ((declare_pool deps.admin w.manager (record spec { ref = p.profile.pool_ref })).1)),
      ref_eq_iff p.profile.pool_ref p.profile.pool_ref,
    )

    declare-IsDecided : (w : Pools M) (p : PoolProfile) → IsDecided (declare deps w p inventory) p
    declare-IsDecided w p =
        let (known, honest) = declare-IsSettled w p in
        elim (Bool-cases
          (flag (lookup p.profile.pool_ref (declare deps w p inventory).tracker.pools))) [
            | inl on ↦ (known, inl (on, honest on))
            | inr off ↦ (
              known,
              inr (
                off,
                elim (Option-cases (deps.build_spec p (select p.wanted inventory))) [
                  | inl failed ↦ not_built (ground (arith, failed))
                  | inr (spec, built) ↦
                      turned_down w.manager (record spec { ref = p.profile.pool_ref })
                        (ground (arith, built)) (sym (flag-declare w p spec built) ∙ off)
                ],
              ),
            )
          ]

    -- A pass over Profiles whose Pools are distinct.
    pub declare_all-IsDecided :
        (w : Pools M) (ps : List PoolProfile)
        → Distinct ps
        → All (IsDecided (declare_all deps w ps inventory)) ps
    unfolding declare_all
    declare_all-IsDecided w [] distinct = tt
    declare_all-IsDecided w (p ∷ ps) (absent, distinct) = (
      kept-IsDecided (declare_all deps (declare deps w p inventory) ps inventory)
          (declare deps w p inventory) p
          (others-declare_all (declare deps w p inventory) ps p.profile.pool_ref absent)
          (declare-IsDecided w p),
      declare_all-IsDecided (declare deps w p inventory) ps distinct,
    )

    -- A pass tracks the Pools of the Profiles, and no others but those that were tracked.
    pub tracked-declare_all :
        (w : Pools M) (ps : List PoolProfile) (ref : PoolRef)
        → is_some (lookup ref (declare_all deps w ps inventory).tracker.pools) ≡ (
            is_some (find_profile_by_pool (profiles_of ps) ref)
            || is_some (lookup ref w.tracker.pools))
    unfolding declare_all find_profile_by_pool
    tracked-declare_all w [] ref = refl
    tracked-declare_all w (p ∷ ps) ref = elim (Bool-cases (ref_key.beq p.profile.pool_ref ref)) [
      | inl same ↦ ground (
        arith,
        same,
        tracked-declare_all (declare deps w p inventory) ps ref,
        (declare-IsSettled w p).0,
        ref_eq_iff p.profile.pool_ref ref,
      )
      | inr other ↦ ground (
        arith,
        other,
        tracked-declare_all (declare deps w p inventory) ps ref,
        declare-other w p ref other,
      )
    ]
