-- ===== src/Scheduler/Placement/Search.antt =====
-- The search of the Hosts for a MicroVM.
use flintlock_runner.Prelude.{
  ◌≡◌, refl, Bool, true, false, List, [], ◌∷◌, Option, none, some, String, arith, find,
}
use flintlock_runner.Scheduler.State.{from_lookup}
use flintlock_runner.Scheduler.Placement.{
  Around, not_in_registry, has_vm, no_answer, Resolved, placed, unplaced, placement_unresolved,
  cancelled, lookup_loop, placement_from_lookup, pool_hosts,
}

-- The Host ends the search: it has the MicroVM, or the context is cancelled while it is asked.
abbrev pub ends_search : Around → String → Bool
ends_search e name = elim (e.reply name) [
  | not_in_registry ↦ false
  | has_vm ↦ true
  | no_answer ↦ e.cancelled_after name
]

abbrev pub search_result : Around → Option String → Resolved
search_result e none = unplaced placement_unresolved
search_result e (some name) = elim (e.reply name) [
  | has_vm ↦ placed (record { host = name; source = from_lookup; resolved_at = e.now })
  | _ ↦ unplaced cancelled
]

lookup_loop-find :
    (e : Around) (names : List String)
    → lookup_loop e names ≡ search_result e (find (ends_search e) names)
unfolding lookup_loop
lookup_loop-find e [] = refl
lookup_loop-find e (name ∷ names) = ground (arith, lookup_loop-find e names)

-- The Hosts of the Pool, or all Hosts where the Pool Manager names none, are asked in order, up to the
-- first that has the MicroVM, which is its Placement, or behind which the context is cancelled. Where
-- no Host ends the search the Placement is unresolved.
pub placement_from_lookup-find :
    (e : Around) → placement_from_lookup e ≡ search_result e (find (ends_search e) (pool_hosts e))
unfolding placement_from_lookup
placement_from_lookup-find e = lookup_loop-find e (pool_hosts e)
