-- ===== src/Scheduler/Lifecycle/Turns.antt =====
-- The loop that declares again the Pools that could not be declared.
use flintlock_runner.Prelude.{
  ◌≡◌, refl, sym, ◌∙◌, subst, Bool, true, false, ◌⊎◌, List, [], ◌∷◌, Option, none, some, is_some,
  if◌then◌else◌, arith, Option-cases, Bool-cases, inl, inr, All, any, sort_by, insert_by, str_lt,
}
use flintlock_runner.Prelude.Map.{lookup, IsMap, insert-IsMap}
use flintlock_runner.Config.Hosts.{HostEntry}
use flintlock_runner.Poolmgr.Event.{PoolRef, ref_key, ref_eq_iff, ref_string}
use flintlock_runner.Poolmgr.Pool.{TrackedPool, status}
use flintlock_runner.Poolmgr.Hosts.{select}
use flintlock_runner.Poolmgr.Tracker.{
  Tracker, PoolAvailability, snapshot, pools, track, pool_locked, store, request_poll,
}
use flintlock_runner.Poolmgr.Declare.{PoolSpec, declare_pool}
use flintlock_runner.Poolmgr.Declare.Laws.{IsManager, is_declared}
use flintlock_runner.Scheduler.Profiles.{find_profile_by_pool}
use flintlock_runner.Scheduler.Lifecycle.{
  PoolProfile, Deps, Pools, declare, declared_in, pool_declared, declare_turn, profiles_of,
}
use flintlock_runner.Scheduler.Lifecycle.Declaring.{
  Distinct, flag, spec_of, Agrees, settled-Agrees, declare-IsSettled, declare-other, declare-none,
  declare-some, tracker-declare_spec,
}

abbrev listed : List PoolAvailability → PoolRef → Bool
listed pas ref = any (λ pa. ref_key.beq pa.pool ref) pas

declared_in-insert_by :
    (lt : PoolAvailability → PoolAvailability → Bool) (x : PoolAvailability)
    (xs : List PoolAvailability) (ref : PoolRef)
    → listed xs x.pool ≡ false
    → (declared_in (insert_by lt x xs) ref ≡ declared_in (x ∷ xs) ref)
      × (listed (insert_by lt x xs) ref ≡ listed (x ∷ xs) ref)
unfolding declared_in insert_by
declared_in-insert_by lt x [] ref new = (refl, refl)
declared_in-insert_by lt x (y ∷ ys) ref new = ground (
  arith,
  new,
  declared_in-insert_by lt x ys ref,
  ref_eq_iff x.pool ref,
  ref_eq_iff y.pool ref,
  ref_eq_iff y.pool x.pool,
)

-- Sorting the Tracker's answer changes nothing about what is looked up in it.
sorted_lookup :
    (lt : PoolAvailability → PoolAvailability → Bool) (healthy : Bool)
    (ps : List (PoolRef × TrackedPool)) (ref : PoolRef)
    → IsMap ps
    → (declared_in (sort_by lt (snapshot healthy ps)) ref ≡ flag (lookup ref ps))
      × (listed (sort_by lt (snapshot healthy ps)) ref ≡ is_some (lookup ref ps))
unfolding declared_in sort_by snapshot lookup
sorted_lookup lt healthy [] ref maps = (refl, refl)
sorted_lookup lt healthy ((k, p) ∷ ps) ref (new, maps) = ground (
  arith,
  new,
  sorted_lookup lt healthy ps ref maps,
  sorted_lookup lt healthy ps k maps,
  declared_in-insert_by lt
      (record {
        pool = k;
        status = if healthy then status p else record (status p) { available = 0 };
        declared = p.declared;
        waiting = p.waiting;
      })
      (sort_by lt (snapshot healthy ps)) ref,
  ref_eq_iff k ref,
)

pool_declared-flag :
    (t : Tracker) (healthy : Bool) (ref : PoolRef)
    → IsMap t.pools
    → pool_declared t healthy ref ≡ flag (lookup ref t.pools)
unfolding pool_declared pools
pool_declared-flag t healthy ref maps =
    (sorted_lookup (λ a b. str_lt (ref_string a.pool) (ref_string b.pool)) healthy t.pools ref
      maps).0

track-IsMap : (t : Tracker) (ref : PoolRef) (d : Bool) → IsMap t.pools → IsMap (track t ref d).pools
unfolding track store pool_locked request_poll
track-IsMap t ref d maps = elim (Option-cases (lookup ref t.pools)) [
  | inl new ↦ ground (
    arith,
    new,
    insert-IsMap ref ((pool_locked t ref).0) t.pools maps,
    insert-IsMap ref (record ((pool_locked t ref).0) { declared = d })
        ((pool_locked t ref).1.pools),
  )
  | inr (p, known) ↦
      ground (arith, known, insert-IsMap ref (record p { declared = d }) t.pools maps)
]

module _ {M S : Type 0} (deps : Deps M S) (holds : M → PoolRef → Option (PoolSpec S))
    (inventory : List HostEntry) where
  declare-IsMap :
      (w : Pools M) (p : PoolProfile)
      → IsMap w.tracker.pools
      → IsMap (declare deps w p inventory).tracker.pools
  declare-IsMap w p maps = elim (Option-cases (deps.build_spec p (select p.wanted inventory))) [
    | inl unbuilt ↦
        subst (λ v. IsMap v.tracker.pools) (sym (declare-none deps holds inventory w p unbuilt))
          (track-IsMap w.tracker p.profile.pool_ref false maps)
    | inr (spec, built) ↦
        subst (λ v. IsMap v.tracker.pools) (sym (declare-some deps holds inventory w p spec built))
          (subst (λ t. IsMap t.pools) (sym (tracker-declare_spec deps w p.profile.pool_ref spec))
            (track-IsMap w.tracker p.profile.pool_ref
              (is_declared
                ((declare_pool deps.admin w.manager (record spec { ref = p.profile.pool_ref })).1))
              maps))
  ]

  abbrev once : Bool → Pools M → PoolProfile → Pools M
  once healthy w p =
      if pool_declared w.tracker healthy p.profile.pool_ref then w else declare deps w p inventory

  -- A Pool that counts as declared has its spec at the Pool Manager.
  abbrev pub IsHonest : Pools M → PoolProfile → Type 0
  IsHonest w p =
      (flag (lookup p.profile.pool_ref w.tracker.pools) ≡ false)
      ⊎ (holds w.manager p.profile.pool_ref ≡ spec_of deps holds inventory p)

  once-skipped :
      (healthy : Bool) (w : Pools M) (p : PoolProfile)
      → pool_declared w.tracker healthy p.profile.pool_ref ≡ true
      → once healthy w p ≡ w
  once-skipped healthy w p on = ground (arith, on)

  once-declared :
      (healthy : Bool) (w : Pools M) (p : PoolProfile)
      → pool_declared w.tracker healthy p.profile.pool_ref ≡ false
      → once healthy w p ≡ declare deps w p inventory
  once-declared healthy w p off = ground (arith, off)

  once-IsMap :
      (healthy : Bool) (w : Pools M) (p : PoolProfile)
      → IsMap w.tracker.pools
      → IsMap (once healthy w p).tracker.pools
  once-IsMap healthy w p maps =
      elim (Bool-cases (pool_declared w.tracker healthy p.profile.pool_ref)) [
        | inl on ↦ subst (λ v. IsMap v.tracker.pools) (sym (once-skipped healthy w p on)) maps
        | inr off ↦
            subst (λ v. IsMap v.tracker.pools) (sym (once-declared healthy w p off))
              (declare-IsMap w p maps)
      ]

  module _ (law : IsManager deps.admin holds) where
    once-Agrees :
        (healthy : Bool) (w : Pools M) (p : PoolProfile)
        → IsMap w.tracker.pools
        → IsHonest w p
        → Agrees deps holds inventory (once healthy w p) p
    once-Agrees healthy w p maps honest =
        elim (Bool-cases (pool_declared w.tracker healthy p.profile.pool_ref)) [
          | inl on ↦
              subst (λ v. Agrees deps holds inventory v p) (sym (once-skipped healthy w p on))
                (
                  known_if_on (lookup p.profile.pool_ref w.tracker.pools)
                      (sym (pool_declared-flag w.tracker healthy p.profile.pool_ref maps) ∙ on),
                  honest,
                )
          | inr off ↦
              subst (λ v. Agrees deps holds inventory v p) (sym (once-declared healthy w p off))
                (settled-Agrees deps holds inventory (declare deps w p inventory) (p ∷ [])
                  (declare-IsSettled deps holds inventory law w p, tt)).0
        ]
      where
        known_if_on : (o : Option TrackedPool) → flag o ≡ true → is_some o ≡ true
        known_if_on none on = on
        known_if_on (some q) on = refl

    once-other :
        (healthy : Bool) (w : Pools M) (p : PoolProfile) (ref : PoolRef)
        → ref_key.beq p.profile.pool_ref ref ≡ false
        → (is_some (lookup ref (once healthy w p).tracker.pools)
            ≡ is_some (lookup ref w.tracker.pools))
          × (flag (lookup ref (once healthy w p).tracker.pools) ≡ flag (lookup ref w.tracker.pools))
          × (holds (once healthy w p).manager ref ≡ holds w.manager ref)
    once-other healthy w p ref other =
        elim (Bool-cases (pool_declared w.tracker healthy p.profile.pool_ref)) [
          | inl on ↦ ground (arith, once-skipped healthy w p on)
          | inr off ↦ ground (
            arith,
            once-declared healthy w p off,
            declare-other deps holds inventory law w p ref other,
          )
        ]

    others-declare_turn :
        (healthy : Bool) (w : Pools M) (ps : List PoolProfile) (ref : PoolRef)
        → find_profile_by_pool (profiles_of ps) ref ≡ none
        → (is_some (lookup ref (declare_turn deps healthy w ps inventory).tracker.pools)
            ≡ is_some (lookup ref w.tracker.pools))
          × (flag (lookup ref (declare_turn deps healthy w ps inventory).tracker.pools)
              ≡ flag (lookup ref w.tracker.pools))
          × (holds (declare_turn deps healthy w ps inventory).manager ref ≡ holds w.manager ref)
    unfolding declare_turn find_profile_by_pool
    others-declare_turn healthy w [] ref absent = (refl, refl, refl)
    others-declare_turn healthy w (p ∷ ps) ref absent = ground (
      arith,
      absent,
      others-declare_turn healthy (once healthy w p) ps ref,
      once-other healthy w p ref,
    )

    once-IsHonest :
        (healthy : Bool) (w : Pools M) (p : PoolProfile) (ps : List PoolProfile)
        → find_profile_by_pool (profiles_of ps) p.profile.pool_ref ≡ none
        → All (IsHonest w) ps
        → All (IsHonest (once healthy w p)) ps
    unfolding find_profile_by_pool
    once-IsHonest healthy w p [] absent honest = tt
    once-IsHonest healthy w p (q ∷ ps) absent (own, honest) =
        let same = once-other healthy w p q.profile.pool_ref (
          ground (
            arith,
            absent,
            ref_eq_iff p.profile.pool_ref q.profile.pool_ref,
            ref_eq_iff q.profile.pool_ref p.profile.pool_ref,
          )) in
        (
          elim own [ inl off ↦ inl (same.1 ∙ off) | inr held ↦ inr (same.2 ∙ held) ],
          once-IsHonest healthy w p ps (ground (arith, absent)) honest,
        )

    -- A turn of the loop over Profiles with Pools of their own, each of which the Pool Manager holds the
    -- spec of if it counts as declared, leaves each Pool tracked, also one that was not, and the same
    -- true of each.
    pub declare_turn-Agrees :
        (healthy : Bool) (w : Pools M) (ps : List PoolProfile)
        → IsMap w.tracker.pools
        → Distinct ps
        → All (IsHonest w) ps
        → All (Agrees deps holds inventory (declare_turn deps healthy w ps inventory)) ps
    unfolding declare_turn
    declare_turn-Agrees healthy w [] maps distinct honest = tt
    declare_turn-Agrees healthy w (p ∷ ps) maps (absent, distinct) (own, honest) =
        let (known, flagged, held) =
          others-declare_turn healthy (once healthy w p) ps p.profile.pool_ref absent in
        let (there, agrees) = once-Agrees healthy w p maps own in
        (
          (
            known ∙ there,
            elim agrees [ inl off ↦ inl (flagged ∙ off) | inr same ↦ inr (held ∙ same) ],
          ),
          declare_turn-Agrees healthy (once healthy w p) ps (once-IsMap healthy w p maps) distinct
              (once-IsHonest healthy w p ps absent honest),
        )
