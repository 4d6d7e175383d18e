-- ===== src/Flintlock/Registry/Reload.antt =====
-- The registry of internal/flintlock/registry.go under any order of leases, releases, reloads and a `Close`.
use flintlock_runner.Prelude.{
  ℕ, ◌+◌, ◌≤◌, ◌<◌, ◌≡◌, refl, ltb, Bool, true, false, List, none, some, arith, if◌then◌else◌,
  nat_key, string_key, String, ◌==◌, ==_iff, Option-cases, Bool-cases, inl, inr, ◌⊎◌,
}
use flintlock_runner.Prelude.Map.{lookup}
use flintlock_runner.Prelude.Uids.{contains}
use flintlock_runner.Flintlock.Registry.{
  HostEntry, Endpoint, Registry, lease, release, apply_begin, apply_publish, close, empty_registry,
}
use flintlock_runner.Flintlock.Registry.Store.{count_of, is_open}
use flintlock_runner.Flintlock.Registry.Invariant.{IsRegistry, holders, planned, holders-pos}
use flintlock_runner.Flintlock.Registry.Invariant.Leases.{lease-IsRegistry, release-IsRegistry}
use flintlock_runner.Flintlock.Registry.Invariant.Applying.{apply_begin-IsRegistry}
use flintlock_runner.Flintlock.Registry.Invariant.Published.{apply_publish-IsRegistry}
use flintlock_runner.Flintlock.Registry.Invariant.Closing.{
  close-IsRegistry, close-closed, close-keeps,
}

-- What callers do: one of them at most is in `Apply`.
pub data Step : Registry → Registry → Type 0 where
  leased : (r : Registry) (name : String) → Step r ((lease r name).0)
  released : (r : Registry) (n : ℕ) → Step r (release r n)
  begun :
      (dial : Endpoint → Bool) (r : Registry) (eps : List Endpoint)
      → r.plan ≡ none
      → Step r ((apply_begin dial r eps).0)
  published : (r : Registry) → Step r ((apply_publish r).0)
  shut : (r : Registry) → Step r (close r)

pub data Reached : Registry → Type 0 where
  start : Reached empty_registry
  then_ : {r s : Registry} → Reached r → Step r s → Reached s

empty_registry-IsRegistry : IsRegistry empty_registry
unfolding lookup contains
empty_registry-IsRegistry = record {
  accounted = λ k. ground arith;
  counted = λ k. ground arith;
  holding = λ k. ground arith;
  held_map = tt;
  held_fresh = λ n later. refl;
  fresh = λ k new. refl;
  table = record { maps = tt; stands = λ name id listed. absurd (ground (arith, listed)) };
  placed = λ k. refl;
  plan_ok = λ p opened same. absurd (ground (arith, same));
}

step-IsRegistry : {r s : Registry} → Step r s → IsRegistry r → IsRegistry s
step-IsRegistry (leased r name) i = lease-IsRegistry r name i
step-IsRegistry (released r n) i = release-IsRegistry r n i
step-IsRegistry (begun dial r eps idle) i = apply_begin-IsRegistry dial r eps idle i
step-IsRegistry (published r) i = apply_publish-IsRegistry r i
step-IsRegistry (shut r) i = close-IsRegistry r i

pub reached-IsRegistry : {r : Registry} → Reached r → IsRegistry r
reached-IsRegistry start = empty_registry-IsRegistry
reached-IsRegistry (then_ before step) = step-IsRegistry step (reached-IsRegistry before)

-- Of the clients that have been dialled, each is in one place: its `Close` has been called once, or a
-- refused `Apply` has lost it, or an `Apply` has still to publish it, or it is the open client of an entry.
-- So no client is closed twice.
pub client-accounted :
    {r : Registry}
    → Reached r
    → (id : ℕ)
    → count_of id r.closes + count_of id r.lost + planned id r.plan + is_open (lookup id r.entries)
      ≡ (if ltb id r.made then 1 else 0)
client-accounted reached id = (reached-IsRegistry reached).accounted id

-- While the registry is not closed, a client with a lease that has not been released is not closed,
-- whatever has been reloaded since the lease was taken.
pub leased_client-kept :
    {r : Registry}
    → Reached r
    → (n id : ℕ) → r.closed ≡ false
    → lookup n r.held ≡ some id
    → (count_of id r.closes ≡ 0) × (is_open (lookup id r.entries) ≡ 1)
leased_client-kept {r} reached n id opened held =
    let i = reached-IsRegistry reached in
    elim (Option-cases (lookup id r.entries)) [
      | inl gone ↦ absurd (ground (arith, gone, i.holding id, holders-pos n id r.held held))
      | inr (e, at) ↦ ground (
        arith,
        at,
        opened,
        i.holding id,
        holders-pos n id r.held held,
        i.placed id,
        i.accounted id,
        i.fresh id,
      )
    ]

-- While the registry is not closed, a client that has been dialled and that no `Close` has been called for
-- is in one of these places: a refused `Apply` has lost it, an `Apply` has still to publish it, it is the
-- one that the table has for its name, or it is a retired one that a lease which has not been released
-- holds.
pub open_client-wanted :
    {r : Registry}
    → Reached r
    → (id : ℕ) → r.closed ≡ false
    → id < r.made
    → count_of id r.closes ≡ 0
    → (count_of id r.lost ≡ 1)
      ⊎ (planned id r.plan ≡ 1)
      ⊎ ((e : HostEntry) × (lookup id r.entries ≡ some e)
          × ((lookup e.ep.name r.hosts ≡ some id) ⊎ ((e.retired ≡ true) × (1 ≤ holders id r.held))))
open_client-wanted {r} reached id opened dialled unclosed =
    let i = reached-IsRegistry reached in
    elim (Option-cases (lookup id r.entries)) [
      | inl missing ↦ elim (Bool-cases (count_of id r.lost == 1)) [
        | inl lost ↦ inl (ground (arith, lost, ==_iff (count_of id r.lost) 1))
        | inr kept ↦ inr (
            inl (
              ground (
                arith,
                kept,
                missing,
                dialled,
                unclosed,
                i.accounted id,
                ==_iff (count_of id r.lost) 1,
              )))
      ]
      | inr (e, at) ↦ inr (inr (e, at, table_or_held i e at))
    ]
  where
    table_or_held :
        IsRegistry r
        → (e : HostEntry) → lookup id r.entries ≡ some e
        → (lookup e.ep.name r.hosts ≡ some id) ⊎ ((e.retired ≡ true) × (1 ≤ holders id r.held))
    table_or_held i e at = elim (Bool-cases e.retired) [
      | inl retired ↦ inr (
        retired,
        ground (arith, at, opened, unclosed, retired, i.counted id, i.placed id, i.holding id),
      )
      | inr standing ↦ elim (Option-cases (lookup e.ep.name r.hosts)) [
        | inl missing ↦
            absurd
              (ground (arith, missing, at, opened, unclosed, standing, i.counted id, i.placed id))
        | inr (k, listed) ↦ inl (
            ground (
              arith,
              listed,
              at,
              opened,
              unclosed,
              standing,
              i.counted id,
              i.placed id,
              ==_iff k id,
            ))
      ]
    ]

-- `Close` has closed every client, once, but for those that an `Apply` which is still running has
-- dialled and those that a refused one has lost.
pub close_complete :
    {r : Registry}
    → Reached r
    → (id : ℕ)
    → count_of id (close r).closes + count_of id r.lost + planned id r.plan
      ≡ (if ltb id r.made then 1 else 0)
close_complete {r} reached id =
    let i = close-IsRegistry r (reached-IsRegistry reached) in
    elim (Option-cases (lookup id (close r).entries)) [
      | inl missing ↦ ground (arith, missing, i.accounted id, close-keeps r)
      | inr (e, at) ↦ ground (arith, at, i.accounted id, i.placed id, close-closed r, close-keeps r)
    ]
