-- ===== src/Flintlock/Registry/Invariant.antt =====
-- What holds of every registry, and that leases and their releases keep it.
pub mod Leases
pub mod Applying
pub mod Publishing
pub mod Published
pub mod Closing
use flintlock_runner.Prelude.{
  ℕ, suc, ◌+◌, ◌-◌, ◌≤◌, ◌<◌, ◌≡◌, refl, leb, ltb, Bool, true, false, not, ◌&&◌, ◌||◌, List, [],
  ◌∷◌, Option, none, some, is_some, arith, if◌then◌else◌, nat_key, string_key, String, str_eq, ◌==◌,
  ==_iff,
}
use flintlock_runner.Prelude.Map.{lookup, insert, delete, IsMap}
use flintlock_runner.Prelude.Uids.{contains}
use flintlock_runner.Flintlock.Registry.{HostEntry, Plan, Registry, ids_of}
use flintlock_runner.Flintlock.Registry.Store.{count_of, is_open}
use flintlock_runner.Flintlock.Registry.Build.{names_id, IsTable, IsBuilt}
use flintlock_runner.Flintlock.Registry.Plans.{IsFresh, LeavesTable}

-- How many leases there are on an entry.
abbrev pub holders : ℕ → List (ℕ × ℕ) → ℕ
holders id [] = 0
holders id ((n, k) ∷ held) = let rest = holders id held in if k == id then suc rest else rest

abbrev pub planned : ℕ → Option Plan → ℕ
planned id none = 0
planned id (some p) = count_of id (ids_of p.dialled)

abbrev pub closed_count : Option HostEntry → ℕ
closed_count none = 0
closed_count (some e) = if e.closed then 1 else 0

abbrev pub leases_of : Option HostEntry → ℕ
leases_of none = 0
leases_of (some e) = e.leases

-- Where an entry is: closed with the registry, or closed for want of a lease, or retired with one, or in
-- the table.
abbrev pub is_placed : Bool → List (String × ℕ) → List ℕ → ℕ → Option HostEntry → Bool
is_placed shut hosts retired id none = true
is_placed true hosts retired id (some e) = e.closed
is_placed false hosts retired id (some e) =
    if e.closed
    then e.retired && leb e.leases 0
    else if e.retired
    then contains id retired && ltb 0 e.leases
    else names_id (lookup e.ep.name hosts) id

pub record IsPlan (r : Registry) (p : Plan) : Type 0 where
  pub first : ℕ
  pub sound : IsBuilt r first p r.made
  pub leaves : LeavesTable r p

pub record IsRegistry (r : Registry) : Type 0 where
  -- Each client that was dialled is in one place: closed, lost, planned or open.
  pub accounted :
      (id : ℕ)
      → count_of id r.closes
          + count_of id r.lost
          + planned id r.plan
          + is_open (lookup id r.entries)
        ≡ (if ltb id r.made then 1 else 0)
  pub counted : (id : ℕ) → closed_count (lookup id r.entries) ≤ count_of id r.closes
  pub holding : (id : ℕ) → leases_of (lookup id r.entries) ≡ holders id r.held
  pub held_map : IsMap r.held
  pub held_fresh : (n : ℕ) → r.leased ≤ n → lookup n r.held ≡ none
  pub fresh : IsFresh r r.made
  pub table : IsTable r.hosts r.entries
  pub placed : (id : ℕ) → is_placed r.closed r.hosts r.retired id (lookup id r.entries) ≡ true
  pub plan_ok : (p : Plan) → r.closed ≡ false → r.plan ≡ some p → IsPlan r p

pub holders-insert :
    (id n k : ℕ) (held : List (ℕ × ℕ))
    → lookup n held ≡ none
    → holders id (insert n k held) ≡ holders id held + (if k == id then 1 else 0)
unfolding lookup insert
holders-insert id n k [] new = ground arith
holders-insert id n k ((m, j) ∷ held) new = ground (arith, holders-insert id n k held)

pub holders-delete_absent :
    (id n : ℕ) (held : List (ℕ × ℕ))
    → lookup n held ≡ none
    → holders id (delete n held) ≡ holders id held
unfolding lookup delete
holders-delete_absent id n [] new = refl
holders-delete_absent id n ((m, j) ∷ held) new = ground (arith, holders-delete_absent id n held)

pub holders-delete :
    (id n k : ℕ) (held : List (ℕ × ℕ))
    → IsMap held
    → lookup n held ≡ some k
    → holders id (delete n held) + (if k == id then 1 else 0) ≡ holders id held
unfolding lookup delete
holders-delete id n k [] maps at = cc
holders-delete id n k ((m, j) ∷ held) maps at = ground (
  arith,
  at,
  maps.0,
  holders-delete id n k held maps.1,
  holders-delete_absent id n held,
  ==_iff m n,
)

pub holders-pos : (n k : ℕ) (held : List (ℕ × ℕ)) → lookup n held ≡ some k → 1 ≤ holders k held
unfolding lookup
holders-pos n k [] at = cc
holders-pos n k ((m, j) ∷ held) at = ground (arith, at, holders-pos n k held, ==_iff j k)
