-- ===== src/Flintlock/Registry/Plans.antt =====
-- The loop of `Apply` over the endpoints, and the plan that it ends with.
use flintlock_runner.Prelude.{
  ℕ, ◌+◌, ◌≤◌, ◌≡◌, sym, ap, subst, ◌∙◌, leb, ltb, Bool, true, false, not, ◌&&◌, List, [], ◌∷◌,
  ◌++◌, Option, none, some, is_some, arith, if◌then◌else◌, nat_key, string_key, str_eq, eq_iff,
  ==_iff, Option-cases, Bool-cases, inl, inr,
}
use flintlock_runner.Prelude.Map.{lookup, insert, lookup-insert}
use flintlock_runner.Flintlock.Registry.{
  Endpoint, HostEntry, Plan, Registry, Built, built, refused, ApplyError, no_name, listed_twice,
  not_dialled, dropped_hosts, find_existing, same_endpoint, dialled_entry, build_one, build, ids_of,
}
use flintlock_runner.Flintlock.Registry.Store.{count_of, count_of-append}
use flintlock_runner.Flintlock.Registry.Build.{
  IsTable, IsBuilt, Leaves, has_to_leave, dropped_hosts_lem, kept-IsBuilt, dialled-IsBuilt,
}

-- What a run of the loop leaves: its plan, or the clients that a refusal has dialled for nothing.
abbrev pub Outcome : Registry → ℕ → (Plan → Type 0) → Built → Type 0
Outcome r first Leaving (built p n) = IsBuilt r first p n × Leaving p
Outcome r first Leaving (refused err ids done n) =
    (first ≤ n)
    × ((id : ℕ) → count_of id (ids_of ids) ≡ (if leb first id && ltb id n then 1 else 0))

-- An entry that the table has for the name of an endpoint.
pub data Found (r : Registry) (ep : Endpoint) : Type 0 where
  unknown : find_existing r ep ≡ none → lookup ep.name r.hosts ≡ none → Found r ep
  known :
      (id : ℕ) (e : HostEntry)
      → find_existing r ep ≡ some (id, same_endpoint e.ep ep)
      → lookup ep.name r.hosts ≡ some id
      → lookup id r.entries ≡ some e
      → Found r ep

pub found : (r : Registry) (ep : Endpoint) → IsTable r.hosts r.entries → Found r ep
unfolding find_existing
found r ep t = elim (Option-cases (lookup ep.name r.hosts)) [
  | inl missing ↦ unknown (ground (arith, missing)) missing
  | inr (id, at) ↦ elim (Option-cases (lookup id r.entries)) [
    | inl gone ↦ absurd (ground (arith, gone, t.stands ep.name id at))
    | inr (e, stored) ↦ known id e (ground (arith, at, stored)) at stored
  ]
]

kept-Leaves :
    (r : Registry) (ep : Endpoint) (p : Plan) (id : ℕ)
    → IsTable r.hosts r.entries
    → lookup ep.name p.next ≡ none
    → lookup ep.name r.hosts ≡ some id
    → Leaves r p
    → Leaves r (record p { next = insert ep.name id p.next })
kept-Leaves r ep p id t unused at leaves k = elim (Option-cases (lookup k r.entries)) [
  | inl missing ↦ ground (arith, missing, leaves k)
  | inr (e, stored) ↦ ground (
    arith,
    stored,
    leaves k,
    unused,
    at,
    lookup-insert ep.name e.ep.name id p.next,
    eq_iff ep.name e.ep.name,
    ==_iff id k,
  )
]

replaced-Leaves :
    (r : Registry) (ep : Endpoint) (p : Plan) (n id : ℕ) (e : HostEntry)
    → IsTable r.hosts r.entries
    → lookup ep.name p.next ≡ none
    → lookup ep.name r.hosts ≡ some id
    → is_some (lookup n r.entries) ≡ false
    → Leaves r p
    → Leaves r (dialled_entry p n ep (id ∷ p.leaving))
replaced-Leaves r ep p n id e t unused at fresh leaves k =
    elim (Option-cases (lookup k r.entries)) [
      | inl missing ↦ ground (arith, missing, leaves k, t.stands ep.name id at, ==_iff id k)
      | inr (e', stored) ↦ ground (
        arith,
        stored,
        leaves k,
        unused,
        at,
        fresh,
        t.stands ep.name id at,
        lookup-insert ep.name e'.ep.name n p.next,
        eq_iff ep.name e'.ep.name,
        eq_iff e'.ep.name ep.name,
        ==_iff id k,
        ==_iff n k,
      )
    ]

added-Leaves :
    (r : Registry) (ep : Endpoint) (p : Plan) (n : ℕ)
    → lookup ep.name r.hosts ≡ none
    → Leaves r p
    → Leaves r (dialled_entry p n ep p.leaving)
added-Leaves r ep p n missing leaves k = elim (Option-cases (lookup k r.entries)) [
  | inl gone ↦ ground (arith, gone, leaves k)
  | inr (e, stored) ↦ ground (
    arith,
    stored,
    leaves k,
    missing,
    lookup-insert ep.name e.ep.name n p.next,
    eq_iff ep.name e.ep.name,
  )
]

-- No entry has a number that is still to come.
abbrev pub IsFresh : Registry → ℕ → Type 0
IsFresh r first = (k : ℕ) → first ≤ k → is_some (lookup k r.entries) ≡ false

refused-Outcome :
    (r : Registry) (first : ℕ) (p : Plan) (n : ℕ) (err : ApplyError) (done : Bool)
    (L : Plan → Type 0)
    → IsBuilt r first p n
    → Outcome r first L (refused err p.dialled done n)
refused-Outcome r first p n err done L b = (b.growing, b.new_once)

pub build_one-same :
    (dial : Endpoint → Bool) (r : Registry) (ep : Endpoint) (p : Plan) (n id : ℕ)
    → find_existing r ep ≡ some (id, true)
    → build_one dial r ep p n ≡ built (record p { next = insert ep.name id p.next }) n
unfolding build_one
build_one-same dial r ep p n id there = ground (arith, there)

pub build_one-moved :
    (dial : Endpoint → Bool) (r : Registry) (ep : Endpoint) (p : Plan) (n id : ℕ)
    → find_existing r ep ≡ some (id, false)
    → dial ep ≡ true
    → build_one dial r ep p n ≡ built (dialled_entry p n ep (id ∷ p.leaving)) (n + 1)
unfolding build_one
build_one-moved dial r ep p n id there up = ground (arith, there, up)

pub build_one-new :
    (dial : Endpoint → Bool) (r : Registry) (ep : Endpoint) (p : Plan) (n : ℕ)
    → find_existing r ep ≡ none
    → dial ep ≡ true
    → build_one dial r ep p n ≡ built (dialled_entry p n ep p.leaving) (n + 1)
unfolding build_one
build_one-new dial r ep p n missing up = ground (arith, missing, up)

-- An endpoint that is to be dialled.
abbrev pub to_dial : Option (ℕ × Bool) → Bool
to_dial none = true
to_dial (some (id, same)) = not same

pub build_one-down :
    (dial : Endpoint → Bool) (r : Registry) (ep : Endpoint) (p : Plan) (n : ℕ)
    → to_dial (find_existing r ep) ≡ true
    → dial ep ≡ false
    → build_one dial r ep p n ≡ refused not_dialled p.dialled true n
unfolding build_one
build_one-down dial r ep p n wanted down = ground (arith, wanted, down)

pub build_one-Outcome :
    (dial : Endpoint → Bool) (r : Registry) (first : ℕ) (ep : Endpoint) (p : Plan) (n : ℕ)
    → IsTable r.hosts r.entries
    → IsFresh r first
    → lookup ep.name p.next ≡ none
    → IsBuilt r first p n
    → Leaves r p
    → Outcome r first (Leaves r) (build_one dial r ep p n)
build_one-Outcome dial r first ep p n t fresh unused b leaves = by_found (found r ep t)
  where
    Q : Built → Type 0
    Q out = Outcome r first (Leaves r) out

    by_found : Found r ep → Q (build_one dial r ep p n)
    by_found (unknown missing nowhere) = elim (Bool-cases (dial ep)) [
      | inl up ↦
          subst Q (sym (build_one-new dial r ep p n missing up)) (
            dialled-IsBuilt r first ep p n p.leaving unused b,
            added-Leaves r ep p n nowhere leaves,
          )
      | inr down ↦
          subst Q (sym (build_one-down dial r ep p n (ground (arith, missing)) down))
            (refused-Outcome r first p n not_dialled true (Leaves r) b)
    ]
    by_found (known id e there at stored) = elim (Bool-cases (same_endpoint e.ep ep)) [
      | inl same ↦
          subst Q (sym (build_one-same dial r ep p n id (there ∙ ap (λ x. some (id, x)) same)))
            (kept-IsBuilt r first ep p n id unused at b, kept-Leaves r ep p id t unused at leaves)
      | inr other ↦ elim (Bool-cases (dial ep)) [
        | inl up ↦
            subst Q
              (sym (build_one-moved dial r ep p n id (there ∙ ap (λ x. some (id, x)) other) up))
              (
                dialled-IsBuilt r first ep p n (id ∷ p.leaving) unused b,
                replaced-Leaves r ep p n id e t unused at (fresh n b.growing) leaves,
              )
        | inr down ↦
            subst Q (sym (build_one-down dial r ep p n (ground (arith, there, other)) down))
              (refused-Outcome r first p n not_dialled true (Leaves r) b)
      ]
    ]

-- The entries that leave with a plan are those that its table does not have.
abbrev pub LeavesTable : Registry → Plan → Type 0
LeavesTable r p =
    (id : ℕ) → count_of id p.leaving ≡ has_to_leave (lookup id r.entries) r.hosts p.next id

end-LeavesTable :
    (r : Registry) (p : Plan)
    → IsTable r.hosts r.entries
    → Leaves r p
    → LeavesTable r (record p { leaving = p.leaving ++ dropped_hosts r.hosts p.next })
end-LeavesTable r p t leaves id = elim (Option-cases (lookup id r.entries)) [
  | inl missing ↦ ground (
    arith,
    missing,
    leaves id,
    count_of-append id p.leaving (dropped_hosts r.hosts p.next),
    dropped_hosts_lem r.hosts p.next r.entries id t,
  )
  | inr (e, at) ↦ ground (
    arith,
    at,
    leaves id,
    count_of-append id p.leaving (dropped_hosts r.hosts p.next),
    dropped_hosts_lem r.hosts p.next r.entries id t,
  )
]

end-IsBuilt :
    (r : Registry) (first : ℕ) (p : Plan) (n : ℕ) (leaving : List ℕ)
    → IsBuilt r first p n
    → IsBuilt r first (record p { leaving = leaving }) n
end-IsBuilt r first p n leaving b = record {
  next_map = b.next_map;
  kept_or_new = b.kept_or_new;
  new_listed = b.new_listed;
  new_numbers = b.new_numbers;
  new_once = b.new_once;
  growing = b.growing;
}

abbrev IsEnd : Registry → ℕ → Built → Type 0
IsEnd r first out = Outcome r first (LeavesTable r) out

pub build-Outcome :
    (dial : Endpoint → Bool) (r : Registry) (first : ℕ) (eps : List Endpoint) (p : Plan) (n : ℕ)
    → IsTable r.hosts r.entries
    → IsFresh r first
    → IsBuilt r first p n
    → Leaves r p
    → Outcome r first (LeavesTable r) (build dial r eps p n)
unfolding build
build-Outcome dial r first [] p n t fresh b leaves = (
  end-IsBuilt r first p n (p.leaving ++ dropped_hosts r.hosts p.next) b,
  end-LeavesTable r p t leaves,
)
build-Outcome dial r first (ep ∷ eps) p n t fresh b leaves = elim (Bool-cases (str_eq ep.name "")) [
  | inl nameless ↦ rw nameless (refused-Outcome r first p n no_name false (LeavesTable r) b)
  | inr named ↦ elim (Option-cases (lookup ep.name p.next)) [
    | inr (id, listed) ↦
        rw (named, listed) (refused-Outcome r first p n listed_twice false (LeavesTable r) b)
    | inl unused ↦
        rw (named, unused)
          (elim (build_one dial r ep p n)
              as (λ out.
                Outcome r first (Leaves r) out
                → IsEnd r first (elim out as (λ x. Built) [
                  | refused err ids done m ↦ refused err ids done m
                  | built q m ↦ build dial r eps q m
                ])) [
                  | refused err ids done m ↦ λ o. o
                  | built q m ↦
                      λ (b', leaves'). build-Outcome dial r first eps q m t fresh b' leaves'
                ]
            (build_one-Outcome dial r first ep p n t fresh unused b leaves))
  ]
]
