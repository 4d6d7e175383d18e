-- ===== src/Scheduler/Placement.antt =====
-- internal/scheduler/placement.go: on which Host a leased MicroVM is. The registry of Hosts and the
-- answers of the Hosts and of the Pool Manager are arguments.
pub mod Search
mod Tests
use flintlock_runner.Prelude.{
  ℕ, Bool, true, false, List, [], ◌∷◌, Option, none, some, String, str_eq, if◌then◌else◌,
  string_key,
}
use flintlock_runner.Prelude.Map.{lookup}
use flintlock_runner.Scheduler.State.{Impl, Placement, HostRef, from_claim, from_lookup}

pub record Claim : Type 0 where
  pub lease_id : String
  pub vm_uid : String
  pub host : HostRef

-- Why an allocation fails.
pub data AllocationError : Type 0 where
  cancelled placement_unresolved host_not_in_inventory reservation_gone : AllocationError
  allocation_timeout profile_limit shutting_down not_running claim_failed : AllocationError

pub data Resolved : Type 0 where
  placed : Placement → Resolved
  unplaced : AllocationError → Resolved

-- What a Host answers when it is asked for the MicroVM. A Host that says that it has none, and one that
-- cannot be asked, are alike.
pub data Reply : Type 0 where
  not_in_registry has_vm no_answer : Reply

-- What is around a resolution. `cancelled_after` is about the context behind the call to a Host.
pub record Around : Type 0 where
  pub endpoint : String → Option String
  pub pool_hosts_answer : Option (List String)
  pub names : List String
  pub reply : String → Reply
  pub cancelled_after : String → Bool
  pub claim_backend : Bool
  pub now : ℕ

unfoldable pub cached_placement : Impl → String → Option Placement
cached_placement s uid = if str_eq uid "" then none else lookup uid s.placements

unfoldable pub placement_from_claim : Around → Claim → Resolved
placement_from_claim e c = elim (e.endpoint c.host.name) [
  | none ↦ unplaced host_not_in_inventory
  | some address ↦ placed (record { host = c.host.name; source = from_claim; resolved_at = e.now })
]

unfoldable pub placement_from_claim_status : Around → Claim → Resolved
placement_from_claim_status e c =
    placed (record { host = c.host.name; source = from_claim; resolved_at = e.now })

-- An answer without Hosts counts as none.
unfoldable pub pool_hosts : Around → List String
pool_hosts e = elim e.pool_hosts_answer [
  | none ↦ e.names
  | some [] ↦ e.names
  | some (h ∷ hs) ↦ h ∷ hs
]

unfoldable pub lookup_loop : Around → List String → Resolved
lookup_loop e [] = unplaced placement_unresolved
lookup_loop e (name ∷ names) =
    let rest = lookup_loop e names in
    elim (e.reply name) [
      | not_in_registry ↦ rest
      | has_vm ↦ placed (record { host = name; source = from_lookup; resolved_at = e.now })
      | no_answer ↦ if e.cancelled_after name then unplaced cancelled else rest
    ]

unfoldable pub placement_from_lookup : Around → Resolved
unfolding lookup_loop pool_hosts
placement_from_lookup e = lookup_loop e (pool_hosts e)

unfoldable pub resolve_placement : Impl → Around → Option Claim → Resolved
unfolding cached_placement placement_from_claim placement_from_claim_status placement_from_lookup
resolve_placement s e none = unplaced placement_unresolved
resolve_placement s e (some c) = elim (cached_placement s c.vm_uid) [
  | some p ↦ placed p
  | none ↦
      if str_eq c.host.name ""
      then placement_from_lookup e
      else if e.claim_backend
      then placement_from_claim_status e c
      else placement_from_claim e c
]
