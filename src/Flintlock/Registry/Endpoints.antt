-- ===== src/Flintlock/Registry/Endpoints.antt =====
-- What a reload of internal/flintlock/registry.go makes of the table.
use flintlock_runner.Prelude.{
  ℕ, ◌≡◌, refl, sym, ap, ◌∙◌, subst, Bool, true, false, List, [], ◌∷◌, Option, none, some, is_some,
  arith, if◌then◌else◌, nat_key, string_key, String, str_eq, eq_iff, ◌==◌, ==_iff, Option-cases,
  Bool-cases, inl, inr,
}
use flintlock_runner.Prelude.Map.{lookup, insert, lookup-insert}
use flintlock_runner.Flintlock.Registry.{
  HostEntry, Endpoint, Plan, Registry, Built, built, refused, build_one, build, same_endpoint,
  dialled_entry, bool_eq,
}
use flintlock_runner.Flintlock.Registry.Build.{IsTable, IsBuilt, Leaves}
use flintlock_runner.Flintlock.Registry.Plans.{
  IsFresh, Outcome, Found, found, known, unknown, build_one-same, build_one-moved, build_one-new,
  build_one-down, build_one-Outcome,
}

-- The endpoint that an inventory lists for a name.
abbrev pub wanted : String → List Endpoint → Option Endpoint
wanted name [] = none
wanted name (ep ∷ eps) =
    let others = wanted name eps in if str_eq ep.name name then some ep else others

abbrev pub ep_of : Option HostEntry → Option Endpoint
ep_of none = none
ep_of (some e) = some (e.ep)

abbrev pub own_or : Option Endpoint → Option HostEntry → Option Endpoint
own_or none o = ep_of o
own_or (some ep) o = some ep

-- The endpoint of a name in the table to be.
abbrev pub endpoint_in : Registry → Plan → String → Option Endpoint
endpoint_in r p name = elim (lookup name p.next) [
  | none ↦ none
  | some id ↦ own_or (lookup id p.dialled) (lookup id r.entries)
]

bool_eq-true : (a b : Bool) → bool_eq a b ≡ true → a ≡ b
bool_eq-true true b same = sym same
bool_eq-true false b same = ground (arith, same)

same_endpoint-true : (a b : Endpoint) → same_endpoint a b ≡ true → a ≡ b
unfolding same_endpoint
same_endpoint-true a b same = ground (
  arith,
  same,
  eq_iff a.name b.name,
  eq_iff a.address b.address,
  eq_iff a.token b.token,
  eq_iff a.tls.ca_file b.tls.ca_file,
  eq_iff a.tls.cert_file b.tls.cert_file,
  eq_iff a.tls.key_file b.tls.key_file,
  bool_eq-true a.tls.insecure b.tls.insecure,
)

kept-endpoint_in :
    (r : Registry) (first : ℕ) (ep : Endpoint) (p : Plan) (n id : ℕ) (e : HostEntry) (name : String)
    → IsFresh r first
    → lookup id r.entries ≡ some e
    → e.ep ≡ ep
    → IsBuilt r first p n
    → endpoint_in r (record p { next = insert ep.name id p.next }) name
      ≡ (if str_eq ep.name name then some ep else endpoint_in r p name)
kept-endpoint_in r first ep p n id e name fresh stored same b =
    elim (Option-cases (lookup id p.dialled)) [
      | inl old ↦ ground (arith, old, stored, same, lookup-insert ep.name name id p.next)
      | inr (ep', new) ↦ absurd (ground (arith, new, stored, b.new_numbers id, fresh id))
    ]

-- No name of the table to be stands for a number that is still to come.
next-old :
    (r : Registry) (first : ℕ) (p : Plan) (n k : ℕ) (name : String)
    → IsTable r.hosts r.entries
    → IsFresh r first
    → IsBuilt r first p n
    → lookup name p.next ≡ some k
    → (n == k) ≡ false
next-old r first p n k name t fresh b listed = elim (Bool-cases (n == k)) [
  | inr other ↦ other
  | inl same ↦ elim (Option-cases (lookup name r.hosts)) [
    | inl missing ↦ absurd (
        ground (
          arith,
          missing,
          same,
          ==_iff n k,
          b.kept_or_new name k listed,
          b.new_numbers k,
          b.growing,
        ))
    | inr (j, at) ↦ absurd (
        ground (
          arith,
          at,
          same,
          ==_iff n k,
          ==_iff j k,
          b.kept_or_new name k listed,
          b.new_numbers k,
          b.growing,
          t.stands name j at,
          fresh j,
        ))
  ]
]

dialled-endpoint_in :
    (r : Registry) (first : ℕ) (ep : Endpoint) (p : Plan) (n : ℕ) (leaving : List ℕ) (name : String)
    → IsTable r.hosts r.entries
    → IsFresh r first
    → IsBuilt r first p n
    → endpoint_in r (dialled_entry p n ep leaving) name
      ≡ (if str_eq ep.name name then some ep else endpoint_in r p name)
unfolding lookup
dialled-endpoint_in r first ep p n leaving name t fresh b =
    elim (Option-cases (lookup name p.next)) [
      | inl missing ↦ ground (arith, missing, lookup-insert ep.name name n p.next)
      | inr (k, listed) ↦ ground (
        arith,
        listed,
        lookup-insert ep.name name n p.next,
        next-old r first p n k name t fresh b listed,
      )
    ]

-- What one endpoint adds to the table to be.
abbrev Adds : Registry → Endpoint → Plan → Built → Type 0
Adds r ep p (refused err ids done m) = (true ≡ true)
Adds r ep p (built q m) =
    (name : String)
    → endpoint_in r q name ≡ (if str_eq ep.name name then some ep else endpoint_in r p name)

build_one-Adds :
    (dial : Endpoint → Bool) (r : Registry) (first : ℕ) (ep : Endpoint) (p : Plan) (n : ℕ)
    → IsTable r.hosts r.entries
    → IsFresh r first
    → IsBuilt r first p n
    → Adds r ep p (build_one dial r ep p n)
build_one-Adds dial r first ep p n t fresh b = by_found (found r ep t)
  where
    Q : Built → Type 0
    Q out = Adds r ep p out

    by_found : Found r ep → Q (build_one dial r ep p n)
    by_found (unknown missing nowhere) = elim (Bool-cases (dial ep)) [
      | inl up ↦
          subst Q (sym (build_one-new dial r ep p n missing up))
            (λ name. dialled-endpoint_in r first ep p n p.leaving name t fresh b)
      | inr down ↦ subst Q (sym (build_one-down dial r ep p n (ground (arith, missing)) down)) refl
    ]
    by_found (known id e there at stored) = elim (Bool-cases (same_endpoint e.ep ep)) [
      | inl same ↦
          subst Q (sym (build_one-same dial r ep p n id (there ∙ ap (λ x. some (id, x)) same)))
            (λ name.
              kept-endpoint_in r first ep p n id e name fresh stored
                (same_endpoint-true e.ep ep same) b)
      | inr other ↦ elim (Bool-cases (dial ep)) [
        | inl up ↦
            subst Q
              (sym (build_one-moved dial r ep p n id (there ∙ ap (λ x. some (id, x)) other) up))
              (λ name. dialled-endpoint_in r first ep p n (id ∷ p.leaving) name t fresh b)
        | inr down ↦
            subst Q (sym (build_one-down dial r ep p n (ground (arith, there, other)) down)) refl
      ]
    ]

-- The table to be once the endpoints have been gone through.
abbrev pub Lists : Registry → Plan → List Endpoint → Built → Type 0
Lists r p eps (refused err ids done m) = (true ≡ true)
Lists r p eps (built q m) =
    (name : String)
    → endpoint_in r q name
      ≡ (if is_some (endpoint_in r p name) then endpoint_in r p name else wanted name eps)

abbrev IsEnd : Registry → Plan → List Endpoint → Built → Type 0
IsEnd r p eps out = Lists r p eps out

next-endpoint_in :
    (r : Registry) (first : ℕ) (p : Plan) (n : ℕ) (name : String)
    → IsTable r.hosts r.entries
    → IsBuilt r first p n
    → is_some (endpoint_in r p name) ≡ is_some (lookup name p.next)
next-endpoint_in r first p n name t b = elim (Option-cases (lookup name p.next)) [
  | inl missing ↦ ground (arith, missing)
  | inr (k, listed) ↦ elim (Option-cases (lookup name r.hosts)) [
    | inl nowhere ↦ ground (arith, listed, nowhere, b.kept_or_new name k listed)
    | inr (j, at) ↦
        ground (arith, listed, at, b.kept_or_new name k listed, t.stands name j at, ==_iff j k)
  ]
]

pub build-Lists :
    (dial : Endpoint → Bool) (r : Registry) (first : ℕ) (eps : List Endpoint) (p : Plan) (n : ℕ)
    → IsTable r.hosts r.entries
    → IsFresh r first
    → IsBuilt r first p n
    → Leaves r p
    → Lists r p eps (build dial r eps p n)
unfolding build
build-Lists dial r first [] p n t fresh b leaves =
    λ name. ground (arith, Option-cases (endpoint_in r p name))
build-Lists dial r first (ep ∷ eps) p n t fresh b leaves = elim (Bool-cases (str_eq ep.name "")) [
  | inl nameless ↦ rw nameless refl
  | inr named ↦ elim (Option-cases (lookup ep.name p.next)) [
    | inr (id, listed) ↦ rw (named, listed) refl
    | inl unused ↦
        rw (named, unused)
          (elim (build_one dial r ep p n)
              as (λ out.
                Outcome r first (Leaves r) out
                → Adds r ep p out
                → IsEnd r p (ep ∷ eps) (elim out as (λ x. Built) [
                  | refused err ids done m ↦ refused err ids done m
                  | built q m ↦ build dial r eps q m
                ])) [
                  | refused err ids done m ↦ λ o a. refl
                  | built q m ↦ λ (b', leaves') a.
                      after_one q unused (build dial r eps q m) a
                        (build-Lists dial r first eps q m t fresh b' leaves')
                ]
            (build_one-Outcome dial r first ep p n t fresh unused b leaves)
            (build_one-Adds dial r first ep p n t fresh b))
  ]
]
  where
    after_one :
        (q : Plan)
        → lookup ep.name p.next ≡ none
        → (out : Built) → Adds r ep p (built q 0)
        → Lists r q eps out
        → IsEnd r p (ep ∷ eps) out
    after_one q unused (refused err ids done m) a rest = refl
    after_one q unused (built q' m) a rest = λ name. ground (
      arith,
      unused,
      a name,
      rest name,
      next-endpoint_in r first p n name t b,
      eq_iff ep.name name,
    )
