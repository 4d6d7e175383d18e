-- ===== src/Flintlock/Registry.antt =====
-- internal/flintlock/registry.go. A `*hostEntry` is a number, which also names the client that was dialled
-- for it, and the entries are a store, since a lease holds one that has left the table. Dialling is a
-- parameter. `Apply` is for one caller: what it has built between its two critical sections is a part of
-- the state, and leases are taken and returned meanwhile.
pub mod Build
pub mod Store
pub mod Plans
pub mod Invariant
pub mod Reload
pub mod Endpoints
pub mod Concluding
pub mod Applied
mod Tests
use flintlock_runner.Prelude.{
  ℕ, suc, ◌+◌, ◌-◌, leb, Bool, true, false, not, ◌&&◌, List, [], ◌∷◌, ◌++◌, Option, none, some,
  is_some, String, str_eq, if◌then◌else◌, nat_key, string_key, map, str_lt, sort_by, ◌==◌,
}
use flintlock_runner.Prelude.Map.{lookup, insert, delete}

pub record TlsOptions : Type 0 where
  pub ca_file : String
  pub cert_file : String
  pub key_file : String
  pub insecure : Bool

pub record Endpoint : Type 0 where
  pub name : String
  pub address : String
  pub token : String
  pub tls : TlsOptions

-- `existing.ep == ep`
abbrev pub bool_eq : Bool → Bool → Bool
bool_eq true b = b
bool_eq false b = not b

unfoldable pub same_endpoint : Endpoint → Endpoint → Bool
same_endpoint a b =
    str_eq a.name b.name
    && str_eq a.address b.address
    && str_eq a.token b.token
    && str_eq a.tls.ca_file b.tls.ca_file
    && str_eq a.tls.cert_file b.tls.cert_file
    && str_eq a.tls.key_file b.tls.key_file
    && bool_eq a.tls.insecure b.tls.insecure

pub record HostEntry : Type 0 where
  pub ep : Endpoint
  pub leases : ℕ
  pub retired : Bool
  pub closed : Bool

-- What `Apply` has built: the table to be, the entries that leave it, and those that were dialled.
pub record Plan : Type 0 where
  pub next : List (String × ℕ)
  pub leaving : List ℕ
  pub dialled : List (ℕ × Endpoint)

pub record Registry : Type 0 where
  pub closed : Bool
  pub hosts : List (String × ℕ)
  -- In no order.
  pub retired : List ℕ
  pub entries : List (ℕ × HostEntry)
  pub plan : Option Plan
  -- The leases that have not been released: a `once` that has not run, and its entry.
  pub held : List (ℕ × ℕ)
  pub made : ℕ
  pub leased : ℕ
  -- The calls of `Close` on clients, newest first.
  pub closes : List ℕ
  -- The clients of a refused `Apply` that nothing refers to any more.
  pub lost : List ℕ

unfoldable pub get : Registry → String → Option ℕ
get r name = lookup name r.hosts

unfoldable pub endpoint : Registry → String → Option Endpoint
endpoint r name = elim (lookup name r.hosts) [
  | none ↦ none
  | some id ↦ elim (lookup id r.entries) [ none ↦ none | some e ↦ some (e.ep) ]
]

unfoldable pub names : Registry → List String
names r = sort_by str_lt (map (λ ((name, id) : String × ℕ). name) r.hosts)

-- `releasableLocked`, which marks the entry, and the caller's `Close` of the client.
unfoldable pub is_releasable : HostEntry → Bool
is_releasable e = if not e.retired then false else if e.closed then false else leb e.leases 0

unfoldable pub close_entry : Registry → ℕ → HostEntry → Registry
close_entry r id e = record r {
  entries = insert id (record e { closed = true }) r.entries;
  closes = id ∷ r.closes;
}

-- The lease, and the number of its release function.
unfoldable pub lease : Registry → String → Registry × Option (ℕ × ℕ)
lease r name = elim (lookup name r.hosts) [
  | none ↦ (r, none)
  | some id ↦ elim (lookup id r.entries) [
    | none ↦ (r, none)
    | some e ↦ (
      record r {
        entries = insert id (record e { leases = e.leases + 1 }) r.entries;
        held = insert r.leased id r.held;
        leased = r.leased + 1;
      },
      some (id, r.leased),
    )
  ]
]

-- `forgetRetiredLocked`
unfoldable pub forget_retired : ℕ → List ℕ → List ℕ
forget_retired id [] = []
forget_retired id (x ∷ xs) = let rest = forget_retired id xs in if x == id then xs else x ∷ rest

unfoldable pub release_entry : Registry → ℕ → HostEntry → Registry
unfolding is_releasable close_entry forget_retired
release_entry r id e =
    let e' = record e { leases = e.leases - 1 } in
    if is_releasable e'
    then record (close_entry r id e') { retired = forget_retired id r.retired }
    else record r { entries = insert id e' r.entries }

-- A release function is called: its `once` lets the first call through.
unfoldable pub release : Registry → ℕ → Registry
unfolding release_entry
release r n = elim (lookup n r.held) [
  | none ↦ r
  | some id ↦ elim (lookup id r.entries) [
    | none ↦ r
    | some e ↦ release_entry (record r { held = delete n r.held }) id e
  ]
]

pub data ApplyError : Type 0 where
  registry_closed no_name listed_twice not_dialled : ApplyError

pub data Built : Type 0 where
  built : Plan → ℕ → Built
  -- The error, the clients that were dialled, and whether they have been closed.
  refused : ApplyError → List (ℕ × Endpoint) → Bool → ℕ → Built

-- The entries of the old table whose names the new one does not list.
unfoldable pub dropped_hosts : List (String × ℕ) → List (String × ℕ) → List ℕ
dropped_hosts [] next = []
dropped_hosts ((name, id) ∷ rest) next =
    let others = dropped_hosts rest next in
    if is_some (lookup name next) then others else id ∷ others

-- What the loop finds in the old table: the entry of the name, and whether its endpoint is the same.
unfoldable pub find_existing : Registry → Endpoint → Option (ℕ × Bool)
unfolding same_endpoint
find_existing r ep = elim (lookup ep.name r.hosts) [
  | none ↦ none
  | some id ↦ elim (lookup id r.entries) [
    | none ↦ some (id, false)
    | some e ↦ some (id, same_endpoint e.ep ep)
  ]
]

abbrev pub dialled_entry : Plan → ℕ → Endpoint → List ℕ → Plan
dialled_entry p id ep leaving = record {
  next = insert ep.name id p.next;
  leaving = leaving;
  dialled = (id, ep) ∷ p.dialled;
}

-- One endpoint that has a new name.
unfoldable pub build_one : (Endpoint → Bool) → Registry → Endpoint → Plan → ℕ → Built
unfolding find_existing
build_one dial r ep p n = elim (find_existing r ep) [
  | some (id, true) ↦ built (record p { next = insert ep.name id p.next }) n
  | some (id, false) ↦
      if not (dial ep)
      then refused not_dialled p.dialled true n
      else built (dialled_entry p n ep (id ∷ p.leaving)) (n + 1)
  | none ↦
      if not (dial ep)
      then refused not_dialled p.dialled true n
      else built (dialled_entry p n ep p.leaving) (n + 1)
]

-- The loop over the endpoints, and the one behind it.
unfoldable pub build : (Endpoint → Bool) → Registry → List Endpoint → Plan → ℕ → Built
unfolding build_one dropped_hosts
build dial r [] p n = built (record p { leaving = p.leaving ++ dropped_hosts r.hosts p.next }) n
build dial r (ep ∷ eps) p n =
    if str_eq ep.name ""
    then refused no_name p.dialled false n
    else if is_some (lookup ep.name p.next)
    then refused listed_twice p.dialled false n
    else elim (build_one dial r ep p n) [
      | refused err ids done m ↦ refused err ids done m
      | built q m ↦ build dial r eps q m
    ]

abbrev pub ids_of : List (ℕ × Endpoint) → List ℕ
ids_of [] = []
ids_of ((id, ep) ∷ rest) = id ∷ ids_of rest

abbrev pub empty_plan : Plan
empty_plan = record { next = []; leaving = []; dialled = [] }

abbrev pub keep_build : Registry → Built → Registry × Option ApplyError
keep_build r (built p n) = (record r { plan = some p; made = n }, none)
keep_build r (refused err ids true n) =
    (record r { made = n; closes = ids_of ids ++ r.closes }, some err)
keep_build r (refused err ids false n) =
    (record r { made = n; lost = ids_of ids ++ r.lost }, some err)

-- `Apply` up to its second critical section.
unfoldable pub apply_begin :
    (Endpoint → Bool) → Registry → List Endpoint → Registry × Option ApplyError
unfolding build
apply_begin dial r eps =
    if r.closed
    then (r, some registry_closed)
    else keep_build r (build dial r eps empty_plan r.made)

unfoldable pub retire_entry : Registry → ℕ → HostEntry → Registry
unfolding is_releasable close_entry
retire_entry r id e =
    let e' = record e { retired = true } in
    if is_releasable e'
    then close_entry r id e'
    else record r { entries = insert id e' r.entries; retired = id ∷ r.retired }

-- The loop over the entries that leave the table.
unfoldable pub retire_all : Registry → List ℕ → Registry
unfolding retire_entry
retire_all r [] = r
retire_all r (id ∷ ids) = elim (lookup id r.entries) [
  | none ↦ retire_all r ids
  | some e ↦ retire_all (retire_entry r id e) ids
]

abbrev pub new_entry : Endpoint → HostEntry
new_entry ep = record { ep = ep; leases = 0; retired = false; closed = false }

abbrev pub add_entries : List (ℕ × Endpoint) → List (ℕ × HostEntry) → List (ℕ × HostEntry)
add_entries [] m = m
add_entries ((id, ep) ∷ rest) m = insert id (new_entry ep) (add_entries rest m)

unfoldable pub publish : Registry → Plan → Registry
unfolding retire_all
publish r p =
    if r.closed
    then record r { plan = none; closes = ids_of p.dialled ++ r.closes }
    else retire_all
        (record r { plan = none; hosts = p.next; entries = add_entries p.dialled r.entries })
        p.leaving

-- The second critical section of `Apply`, where the first has come to a plan.
unfoldable pub apply_publish : Registry → Registry × Option ApplyError
unfolding publish
apply_publish r = elim r.plan [
  | none ↦ (r, none)
  | some p ↦ (publish r p, if r.closed then some registry_closed else none)
]

unfoldable pub apply : (Endpoint → Bool) → Registry → List Endpoint → Registry × Option ApplyError
unfolding apply_begin apply_publish
apply dial r eps =
    let (s, err) = apply_begin dial r eps in
    elim err [ some e ↦ (s, some e) | none ↦ apply_publish s ]

-- The loop of `Close` over entries.
unfoldable pub close_all : Registry → List ℕ → Registry
unfolding close_entry
close_all r [] = r
close_all r (id ∷ ids) = elim (lookup id r.entries) [
  | none ↦ close_all r ids
  | some e ↦ close_all (if e.closed then r else close_entry r id e) ids
]

abbrev pub table_ids : List (String × ℕ) → List ℕ
table_ids [] = []
table_ids ((name, id) ∷ rest) = id ∷ table_ids rest

unfoldable pub close : Registry → Registry
unfolding close_all
close r =
    if r.closed
    then r
    else close_all (record r { closed = true; hosts = []; retired = [] })
        (table_ids r.hosts ++ r.retired)

abbrev pub empty_registry : Registry
empty_registry = record {
  closed = false;
  hosts = [];
  retired = [];
  entries = [];
  plan = none;
  held = [];
  made = 0;
  leased = 0;
  closes = [];
  lost = [];
}

unfoldable pub new_registry : (Endpoint → Bool) → List Endpoint → Registry × Option ApplyError
unfolding apply close
new_registry dial eps =
    let (r, err) = apply dial empty_registry eps in
    elim err [ none ↦ (r, none) | some e ↦ (close r, some e) ]
