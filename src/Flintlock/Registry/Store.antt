-- ===== src/Flintlock/Registry/Store.antt =====
-- The loops over entries: what they do to each entry, and which clients they close.
use flintlock_runner.Prelude.{
  ℕ, suc, ◌+◌, ◌≤◌, ◌≡◌, refl, ◌∙◌, leb, Bool, true, false, not, ◌&&◌, ◌||◌, List, [], ◌∷◌, ◌++◌,
  Option, none, some, arith, if◌then◌else◌, nat_key, ◌==◌, ==_iff, Option-cases, inl, inr,
}
use flintlock_runner.Prelude.Map.{lookup, lookup-insert}
use flintlock_runner.Prelude.Uids.{contains}
use flintlock_runner.Flintlock.Registry.{
  HostEntry, Registry, is_releasable, close_entry, retire_entry, retire_all, close_all,
}

-- How often a number is in a list.
abbrev pub count_of : ℕ → List ℕ → ℕ
count_of id [] = 0
count_of id (x ∷ xs) = let rest = count_of id xs in if x == id then suc rest else rest

pub count_of-append :
    (id : ℕ) (xs ys : List ℕ) → count_of id (xs ++ ys) ≡ count_of id xs + count_of id ys
count_of-append id [] ys = omega arith
count_of-append id (x ∷ xs) ys = ground (arith, count_of-append id xs ys)

-- An entry that has left the table, and whether that closes its client.
abbrev pub retired_form : Option HostEntry → Option HostEntry
retired_form none = none
retired_form (some e) = some (record e { retired = true; closed = e.closed || leb e.leases 0 })

abbrev pub newly_closed : Option HostEntry → ℕ
newly_closed none = 0
newly_closed (some e) = if not e.closed && leb e.leases 0 then 1 else 0

abbrev pub lingers : Option HostEntry → Bool
lingers none = false
lingers (some e) = e.closed || not (leb e.leases 0)

retire_entry_lem :
    (r : Registry) (id k : ℕ) (e : HostEntry)
    → lookup id r.entries ≡ some e
    → (lookup k (retire_entry r id e).entries
        ≡ (if id == k then retired_form (lookup k r.entries) else lookup k r.entries))
      × (count_of k (retire_entry r id e).closes
          ≡ count_of k r.closes + (if id == k then newly_closed (lookup k r.entries) else 0))
      × (contains k (retire_entry r id e).retired
          ≡ (contains k r.retired || (if id == k then lingers (lookup k r.entries) else false)))
unfolding retire_entry is_releasable close_entry contains
retire_entry_lem r id k e at = ground (
  arith,
  at,
  lookup-insert id k (record e { retired = true }) r.entries,
  lookup-insert id k (record e { retired = true; closed = true }) r.entries,
  ==_iff id k,
  ==_iff k id,
)

-- Only the entries, the calls of `Close` and the retired list differ.
pub record Keeps (r s : Registry) : Type 0 where
  pub same_closed : s.closed ≡ r.closed
  pub same_hosts : s.hosts ≡ r.hosts
  pub same_plan : s.plan ≡ r.plan
  pub same_held : s.held ≡ r.held
  pub same_made : s.made ≡ r.made
  pub same_leased : s.leased ≡ r.leased
  pub same_lost : s.lost ≡ r.lost

Keeps-trans : {r s t : Registry} → Keeps r s → Keeps s t → Keeps r t
Keeps-trans a b = record {
  same_closed = b.same_closed ∙ a.same_closed;
  same_hosts = b.same_hosts ∙ a.same_hosts;
  same_plan = b.same_plan ∙ a.same_plan;
  same_held = b.same_held ∙ a.same_held;
  same_made = b.same_made ∙ a.same_made;
  same_leased = b.same_leased ∙ a.same_leased;
  same_lost = b.same_lost ∙ a.same_lost;
}

Keeps-refl : (r : Registry) → Keeps r r
Keeps-refl r = record {
  same_closed = refl;
  same_hosts = refl;
  same_plan = refl;
  same_held = refl;
  same_made = refl;
  same_leased = refl;
  same_lost = refl;
}

retire_entry-Keeps : (r : Registry) (id : ℕ) (e : HostEntry) → Keeps r (retire_entry r id e)
unfolding retire_entry close_entry
retire_entry-Keeps r id e = record {
  same_closed = ground arith;
  same_hosts = ground arith;
  same_plan = ground arith;
  same_held = ground arith;
  same_made = ground arith;
  same_leased = ground arith;
  same_lost = ground arith;
}

close_open-Keeps :
    (r : Registry) (id : ℕ) (e : HostEntry) → Keeps r (if e.closed then r else close_entry r id e)
unfolding close_entry
close_open-Keeps r id e = record {
  same_closed = ground arith;
  same_hosts = ground arith;
  same_plan = ground arith;
  same_held = ground arith;
  same_made = ground arith;
  same_leased = ground arith;
  same_lost = ground arith;
}

pub retire_all-Keeps : (r : Registry) (ids : List ℕ) → Keeps r (retire_all r ids)
unfolding retire_all
retire_all-Keeps r [] = Keeps-refl r
retire_all-Keeps r (id ∷ ids) =
    elim (lookup id r.entries)
      as (λ o. Keeps r (elim o as (λ x. Registry) [
        | none ↦ retire_all r ids
        | some e ↦ retire_all (retire_entry r id e) ids
      ])) [
        | none ↦ retire_all-Keeps r ids
        | some e ↦
            Keeps-trans (retire_entry-Keeps r id e) (retire_all-Keeps (retire_entry r id e) ids)
      ]

-- What the loop over the leaving entries does to one of them, where none comes up twice.
pub retire_all_lem :
    (r : Registry) (ids : List ℕ) (k : ℕ)
    → count_of k ids ≤ 1
    → (lookup k (retire_all r ids).entries
        ≡ (if count_of k ids == 0 then lookup k r.entries else retired_form (lookup k r.entries)))
      × (count_of k (retire_all r ids).closes
          ≡ count_of k r.closes
            + (if count_of k ids == 0 then 0 else newly_closed (lookup k r.entries)))
      × (contains k (retire_all r ids).retired ≡ (
          contains k r.retired
          || (if count_of k ids == 0 then false else lingers (lookup k r.entries))))
unfolding retire_all
retire_all_lem r [] k once = ground arith
retire_all_lem r (id ∷ ids) k once = elim (Option-cases (lookup id r.entries)) [
  | inl missing ↦ ground (arith, missing, retire_all_lem r ids k, ==_iff id k)
  | inr (e, at) ↦ ground (
    arith,
    at,
    retire_all_lem (retire_entry r id e) ids k,
    retire_entry_lem r id k e at,
    ==_iff id k,
  )
]

-- `Close` closes each of these entries, if it is not closed.
abbrev pub closed_form : Option HostEntry → Option HostEntry
closed_form none = none
closed_form (some e) = some (record e { closed = true })

abbrev pub is_open : Option HostEntry → ℕ
is_open none = 0
is_open (some e) = if e.closed then 0 else 1

close_entry_lem :
    (r : Registry) (id k : ℕ) (e : HostEntry)
    → lookup id r.entries ≡ some e
    → (lookup k (if e.closed then r else close_entry r id e).entries
        ≡ (if id == k then closed_form (lookup k r.entries) else lookup k r.entries))
      × (count_of k (if e.closed then r else close_entry r id e).closes
          ≡ count_of k r.closes + (if id == k then is_open (lookup k r.entries) else 0))
unfolding close_entry
close_entry_lem r id k e at =
    ground (arith, at, lookup-insert id k (record e { closed = true }) r.entries, ==_iff id k)

pub close_all-Keeps : (r : Registry) (ids : List ℕ) → Keeps r (close_all r ids)
unfolding close_all
close_all-Keeps r [] = Keeps-refl r
close_all-Keeps r (id ∷ ids) =
    elim (lookup id r.entries)
      as (λ o. Keeps r (elim o as (λ x. Registry) [
        | none ↦ close_all r ids
        | some e ↦ close_all (if e.closed then r else close_entry r id e) ids
      ])) [
        | none ↦ close_all-Keeps r ids
        | some e ↦
            Keeps-trans (close_open-Keeps r id e)
              (close_all-Keeps (if e.closed then r else close_entry r id e) ids)
      ]

pub close_all_lem :
    (r : Registry) (ids : List ℕ) (k : ℕ)
    → (lookup k (close_all r ids).entries
        ≡ (if contains k ids then closed_form (lookup k r.entries) else lookup k r.entries))
      × (count_of k (close_all r ids).closes
          ≡ count_of k r.closes + (if contains k ids then is_open (lookup k r.entries) else 0))
unfolding close_all contains
close_all_lem r [] k = ground arith
close_all_lem r (id ∷ ids) k = elim (Option-cases (lookup id r.entries)) [
  | inl missing ↦ ground (arith, missing, close_all_lem r ids k, ==_iff id k, ==_iff k id)
  | inr (e, at) ↦ ground (
    arith,
    at,
    close_all_lem (if e.closed then r else close_entry r id e) ids k,
    close_entry_lem r id k e at,
    ==_iff id k,
    ==_iff k id,
  )
]
