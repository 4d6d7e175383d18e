-- ===== src/Scheduler/Hosts/Record.antt =====
-- `recordProbe`, `hostUnhealthy` and `resetHostsLocked`: what they do to the table of Hosts and to the
-- Allocations.
use flintlock_runner.Prelude.{
  ℕ, ◌≡◌, refl, Bool, false, not, ◌&&◌, List, [], ◌∷◌, Option, none, some, arith, inl, inr,
  Option-cases, if◌then◌else◌, string_key, nat_key, String, str_eq, eq_iff,
}
use flintlock_runner.Prelude.Map.{lookup, insert, lookup-insert}
use flintlock_runner.Prelude.Uids.{contains}
use flintlock_runner.Scheduler.State.{
  Impl, Handle, HostState, Cause, host_unhealthy, get_handle, set_handle, placement_host,
}
use flintlock_runner.Scheduler.Capacity.{finish, release_profile, close_drain}
use flintlock_runner.Scheduler.Release.{
  abort, abort_all, abort_host, end_allocation, hand_back, stop_heartbeat, request_release,
}
use flintlock_runner.Scheduler.Release.Ends.{IsKeyed}
use flintlock_runner.Scheduler.Release.Aborts.{passes, abort_host-contains}
use flintlock_runner.Scheduler.Hosts.{fold_probe, record_probe, reset_hosts, reset_loop, new_host}

abort-hosts : (s : Impl) (h : Handle) (cause : Cause) → (abort s h cause).hosts ≡ s.hosts
unfolding abort end_allocation hand_back stop_heartbeat request_release set_handle finish
    close_drain release_profile
abort-hosts s h cause = ground arith

abort_all-hosts :
    (s : Impl) (ids : List ℕ) (which : Handle → Bool) (cause : Cause)
    → (abort_all s ids which cause).hosts ≡ s.hosts
unfolding abort_all
abort_all-hosts s [] which cause = refl
abort_all-hosts s (id ∷ ids) which cause = elim (Option-cases (get_handle s id)) [
  | inl missing ↦ ground (arith, missing, abort_all-hosts s ids which cause)
  | inr (h, at) ↦ ground (
    arith,
    at,
    abort_all-hosts (abort s h cause) ids which cause,
    abort_all-hosts s ids which cause,
    abort-hosts s h cause,
  )
]

abbrev pub probed : Option HostState → ℕ → Bool → ℕ → Option HostState
probed none threshold success now = none
probed (some st) threshold success now = some ((fold_probe st threshold success now).0)

pub lookup-record_probe :
    (s : Impl) (threshold : ℕ) (name k : String) (success : Bool) (now : ℕ)
    → lookup k (record_probe s threshold name success now).hosts ≡ (
        if str_eq name k
        then probed (lookup name s.hosts) threshold success now
        else lookup k s.hosts)
unfolding record_probe abort_host
lookup-record_probe s threshold name k success now = elim (Option-cases (lookup name s.hosts)) [
  | inl missing ↦ ground (arith, missing, eq_iff name k)
  | inr (st, at) ↦
      let st' = (fold_probe st threshold success now).0 in
      let s' = record s { hosts = insert name st' s.hosts } in
      ground (
        arith,
        at,
        abort_all-hosts s' s'.allocations (λ h. str_eq (placement_host h) name) host_unhealthy,
        lookup-insert name k st' s.hosts,
      )
]

-- The Host is there and healthy.
abbrev pub is_up : Option HostState → Bool
is_up none = false
is_up (some st) = st.healthy

-- A probe ends exactly the Allocations on a Host that it takes from healthy to unhealthy.
pub record_probe-contains :
    (s : Impl) (threshold : ℕ) (name : String) (success : Bool) (now k : ℕ)
    → IsKeyed s
    → contains k (record_probe s threshold name success now).allocations ≡ (
        contains k s.allocations
        && not (
            is_up (lookup name s.hosts)
            && not (is_up (lookup name (record_probe s threshold name success now).hosts))
            && passes (λ a. str_eq a.placement.host name) (get_handle s k)))
unfolding get_handle
record_probe-contains s threshold name success now k keyed =
    elim (Option-cases (lookup name s.hosts)) [
      | inl missing ↦ unfold record_probe in ground (arith, missing)
      | inr (st, at) ↦
          let st' = (fold_probe st threshold success now).0 in
          let s' = record s { hosts = insert name st' s.hosts } in
          let after = lookup-record_probe s threshold name name success now in
          unfold record_probe fold_probe in
          ground (arith, at, after, eq_iff name name, abort_host-contains s' name k keyed)
    ]

abbrev pub kept_or_new : Option HostState → HostState
kept_or_new none = new_host
kept_or_new (some st) = st

reset_loop-lookup :
    (names : List String) (old next : List (String × HostState)) (k : String)
    → lookup k (reset_loop names old next)
      ≡ (if contains k names then some (kept_or_new (lookup k old)) else lookup k next)
unfolding reset_loop contains
reset_loop-lookup [] old next k = refl
reset_loop-lookup (name ∷ names) old next k = elim (Option-cases (lookup name old)) [
  | inl missing ↦ ground (
    arith,
    missing,
    reset_loop-lookup names old (insert name new_host next) k,
    lookup-insert name k new_host next,
    eq_iff name k,
    eq_iff k name,
  )
  | inr (st, at) ↦ ground (
    arith,
    at,
    reset_loop-lookup names old (insert name st next) k,
    lookup-insert name k st next,
    eq_iff name k,
    eq_iff k name,
  )
]

-- A reload leaves exactly the Hosts of the new inventory in the table: those that were there keep their
-- state, and the others start healthy.
pub lookup-reset_hosts :
    (s : Impl) (inventory : List String) (k : String)
    → lookup k (reset_hosts s inventory).hosts
      ≡ (if contains k inventory then some (kept_or_new (lookup k s.hosts)) else none)
unfolding reset_hosts lookup
lookup-reset_hosts s inventory k = reset_loop-lookup inventory s.hosts [] k
