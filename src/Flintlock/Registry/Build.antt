-- ===== src/Flintlock/Registry/Build.antt =====
-- What the first critical section of `Apply` builds out of a table.
use flintlock_runner.Prelude.{
  ℕ, ◌+◌, ◌≤◌, ◌≡◌, leb, ltb, Bool, true, false, not, ◌&&◌, ◌||◌, List, [], ◌∷◌, Option, none, some,
  is_some, arith, if◌then◌else◌, nat_key, string_key, String, str_eq, eq_iff, ◌==◌, ==_iff,
  Option-cases, inl, inr,
}
use flintlock_runner.Prelude.Map.{lookup, insert, lookup-insert, IsMap, insert-IsMap}
use flintlock_runner.Flintlock.Registry.{
  Endpoint, HostEntry, Plan, Registry, dropped_hosts, dialled_entry, ids_of,
}
use flintlock_runner.Flintlock.Registry.Store.{count_of}

-- The name is looked up as this number.
abbrev pub names_id : Option ℕ → ℕ → Bool
names_id none id = false
names_id (some k) id = k == id

-- An entry that stands in the table, under its name.
abbrev pub in_table : String → Option HostEntry → Bool
in_table name none = false
in_table name (some e) = not e.retired && not e.closed && str_eq e.ep.name name

abbrev pub dialled_as : String → Option Endpoint → Bool
dialled_as name none = false
dialled_as name (some ep) = str_eq ep.name name

-- A table of entries: each stands under its own name.
pub record IsTable (hosts : List (String × ℕ)) (entries : List (ℕ × HostEntry)) : Type 0 where
  pub maps : IsMap hosts
  pub stands :
      (name : String) (id : ℕ)
      → lookup name hosts ≡ some id
      → in_table name (lookup id entries) ≡ true

-- How often an entry of the table has to leave for another table: once, unless it is in that one too.
abbrev pub has_to_leave : Option HostEntry → List (String × ℕ) → List (String × ℕ) → ℕ → ℕ
has_to_leave none hosts next id = 0
has_to_leave (some e) hosts next id =
    if names_id (lookup e.ep.name hosts) id && not (names_id (lookup e.ep.name next) id)
    then 1
    else 0

-- The same, for the entries whose names the other table does not list.
abbrev pub is_dropped : Option HostEntry → List (String × ℕ) → List (String × ℕ) → ℕ → ℕ
is_dropped none hosts next id = 0
is_dropped (some e) hosts next id =
    if names_id (lookup e.ep.name hosts) id && not (is_some (lookup e.ep.name next)) then 1 else 0

IsTable-tail :
    (name : String) (id : ℕ) (hosts : List (String × ℕ)) (entries : List (ℕ × HostEntry))
    → IsTable ((name, id) ∷ hosts) entries
    → IsTable hosts entries
unfolding lookup
IsTable-tail name id hosts entries t = record {
  maps = t.maps.1;
  stands = λ other k at. t.stands other k (ground (arith, at, t.maps.0, eq_iff name other));
}

pub dropped_hosts_lem :
    (hosts next : List (String × ℕ)) (entries : List (ℕ × HostEntry)) (k : ℕ)
    → IsTable hosts entries
    → count_of k (dropped_hosts hosts next) ≡ is_dropped (lookup k entries) hosts next k
unfolding dropped_hosts lookup
dropped_hosts_lem [] next entries k t = elim (Option-cases (lookup k entries)) [
  | inl missing ↦ ground (arith, missing)
  | inr (e, at) ↦ ground (arith, at)
]
dropped_hosts_lem ((name, id) ∷ hosts) next entries k t =
    let own = t.stands name id (ground (arith, eq_iff name name)) in
    let rest = dropped_hosts_lem hosts next entries k (IsTable-tail name id hosts entries t) in
    elim (Option-cases (lookup k entries)) [
      | inl missing ↦ ground (arith, missing, own, rest, ==_iff id k)
      | inr (e, at) ↦ ground (
        arith,
        at,
        own,
        rest,
        t.maps.0,
        eq_iff name e.ep.name,
        eq_iff e.ep.name name,
        ==_iff id k,
      )
    ]

-- What the loop has built after some endpoints, where `first` is the first new number.
pub record IsBuilt (r : Registry) (first : ℕ) (p : Plan) (n : ℕ) : Type 0 where
  pub next_map : IsMap p.next
  pub kept_or_new :
      (name : String) (id : ℕ)
      → lookup name p.next ≡ some id
      → (names_id (lookup name r.hosts) id || dialled_as name (lookup id p.dialled)) ≡ true
  pub new_listed :
      (id : ℕ) (ep : Endpoint) → lookup id p.dialled ≡ some ep → lookup ep.name p.next ≡ some id
  pub new_numbers : (id : ℕ) → is_some (lookup id p.dialled) ≡ (leb first id && ltb id n)
  pub new_once :
      (id : ℕ) → count_of id (ids_of p.dialled) ≡ (if leb first id && ltb id n then 1 else 0)
  pub growing : first ≤ n

-- The leaving entries while the loop runs: those whose name has been given to another entry.
abbrev pub replaced : Option HostEntry → List (String × ℕ) → List (String × ℕ) → ℕ → ℕ
replaced none hosts next id = 0
replaced (some e) hosts next id =
    if names_id (lookup e.ep.name hosts) id
      && is_some (lookup e.ep.name next)
      && not (names_id (lookup e.ep.name next) id)
    then 1
    else 0

abbrev pub Leaves : Registry → Plan → Type 0
Leaves r p = (id : ℕ) → count_of id p.leaving ≡ replaced (lookup id r.entries) r.hosts p.next id

pub kept-IsBuilt :
    (r : Registry) (first : ℕ) (ep : Endpoint) (p : Plan) (n id : ℕ)
    → lookup ep.name p.next ≡ none
    → lookup ep.name r.hosts ≡ some id
    → IsBuilt r first p n
    → IsBuilt r first (record p { next = insert ep.name id p.next }) n
kept-IsBuilt r first ep p n id unused at b = record {
  next_map = insert-IsMap ep.name id p.next b.next_map;
  kept_or_new = λ name k listed. ground (
    arith,
    listed,
    at,
    lookup-insert ep.name name id p.next,
    b.kept_or_new name k,
    eq_iff ep.name name,
    ==_iff id k,
  );
  new_listed = λ k other dialled. ground (
    arith,
    unused,
    lookup-insert ep.name other.name id p.next,
    b.new_listed k other dialled,
    eq_iff ep.name other.name,
  );
  new_numbers = b.new_numbers;
  new_once = b.new_once;
  growing = b.growing;
}

pub dialled-IsBuilt :
    (r : Registry) (first : ℕ) (ep : Endpoint) (p : Plan) (n : ℕ) (leaving : List ℕ)
    → lookup ep.name p.next ≡ none
    → IsBuilt r first p n
    → IsBuilt r first (dialled_entry p n ep leaving) (n + 1)
unfolding lookup
dialled-IsBuilt r first ep p n leaving unused b = record {
  next_map = insert-IsMap ep.name n p.next b.next_map;
  kept_or_new = λ name k listed. ground (
    arith,
    listed,
    lookup-insert ep.name name n p.next,
    b.kept_or_new name k,
    b.new_numbers k,
    b.new_numbers n,
    eq_iff ep.name name,
    ==_iff n k,
  );
  new_listed = λ k other dialled. ground (
    arith,
    dialled,
    unused,
    lookup-insert ep.name other.name n p.next,
    b.new_listed k other,
    eq_iff ep.name other.name,
    ==_iff n k,
  );
  new_numbers = λ k. ground (arith, b.new_numbers k, b.growing, ==_iff n k);
  new_once = λ k. ground (arith, b.new_once k, b.growing, ==_iff n k);
  growing = omega (arith, b.growing);
}
