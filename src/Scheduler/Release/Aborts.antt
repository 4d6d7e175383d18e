-- ===== src/Scheduler/Release/Aborts.antt =====
-- `abortRunning`, `hostUnhealthy` and the two stretches of `shutdown`: which Allocations they end. The order
-- in which the loop goes through the Allocations makes no difference; no other step comes in between its
-- turns.
use flintlock_runner.Prelude.{
  ℕ, ◌≡◌, refl, ap, ◌∙◌, Bool, true, false, not, ◌&&◌, List, [], ◌∷◌, Option, none, some, is_some,
  arith, if◌then◌else◌, nat_key, ◌==◌, ==_iff, String, str_eq, Bool-cases, inl, inr, Option-cases,
}
use flintlock_runner.Prelude.Map.{lookup-insert}
use flintlock_runner.Prelude.Uids.{contains, contains-drop}
use flintlock_runner.Scheduler.State.{
  Impl, Handle, Allocation, Cause, host_unhealthy, shutdown_elapsed, get_handle, set_handle, fail,
  placement_host,
}
use flintlock_runner.Scheduler.Capacity.{finish, drained, release_profile, close_drain}
use flintlock_runner.Scheduler.Release.{
  abort, abort_all, abort_host, abort_running, begin_shutdown, end_shutdown, end_allocation,
  hand_back, stop_heartbeat, request_release,
}
use flintlock_runner.Scheduler.Release.Ends.{
  IsKeyed, end_by-IsKeyed, aborts_it, finish_keeps, stopped_handle,
}

-- The Allocation of a stored handle.
abbrev pub alloc_of : Option Handle → Option Allocation
alloc_of none = none
alloc_of (some h) = some (h.alloc)

abbrev pub passes : (Allocation → Bool) → Option Handle → Bool
passes test none = false
passes test (some h) = test h.alloc

passes_of :
    (test : Allocation → Bool) (a b : Option Handle)
    → alloc_of a ≡ alloc_of b
    → passes test a ≡ passes test b
passes_of test a b same = ground (arith, same)

abort-contains :
    (s : Impl) (h : Handle) (cause : Cause) (k : ℕ)
    → contains k (abort s h cause).allocations
      ≡ (if h.id == k then false else contains k s.allocations)
unfolding abort end_allocation hand_back stop_heartbeat request_release set_handle fail finish
    close_drain release_profile
abort-contains s h cause k = ground (arith, contains-drop h.id k s.allocations, ==_iff h.id k)

fail_keeps :
    (h : Handle) (cause : Cause) → ((fail h cause).id ≡ h.id) × ((fail h cause).alloc ≡ h.alloc)
unfolding fail
fail_keeps h cause = ground arith

abort-alloc_of :
    (s : Impl) (h : Handle) (cause : Cause) (k : ℕ)
    → get_handle s h.id ≡ some h
    → alloc_of (get_handle (abort s h cause) k) ≡ alloc_of (get_handle s k)
unfolding abort end_allocation hand_back stop_heartbeat request_release set_handle get_handle
abort-alloc_of s h cause k at =
    let h' = fail h cause in
    ground (
      arith,
      at,
      finish_keeps (set_handle s h') h',
      lookup-insert h.id k h' s.handles,
      fail_keeps h cause,
      lookup-insert h'.id k (stopped_handle h') (finish (set_handle s h') h').0.handles,
      ==_iff h.id k,
    )

abort_all-contains :
    (s : Impl) (ids : List ℕ) (test : Allocation → Bool) (cause : Cause) (k : ℕ)
    → IsKeyed s
    → contains k (abort_all s ids (λ h. test h.alloc) cause).allocations
      ≡ (contains k s.allocations && not (contains k ids && passes test (get_handle s k)))
unfolding abort_all contains
abort_all-contains s [] test cause k keyed = ground arith
abort_all-contains s (id ∷ ids) test cause k keyed = elim (Option-cases (get_handle s id)) [
  | inl missing ↦
      ground (arith, missing, abort_all-contains s ids test cause k keyed, ==_iff id k, ==_iff k id)
  | inr (h, at) ↦
      let own = keyed id h at in
      let at' : get_handle s h.id ≡ some h = ap (get_handle s) own ∙ at in
      elim (Bool-cases (test h.alloc)) [
        | inr spared ↦ ground (
          arith,
          at,
          spared,
          abort_all-contains s ids test cause k keyed,
          ==_iff id k,
          ==_iff k id,
        )
        | inl hit ↦
            let s' = abort s h cause in
            ground (
              arith,
              at,
              hit,
              own,
              abort_all-contains s' ids test cause k (end_by-IsKeyed (aborts_it cause) s h keyed),
              abort-contains s h cause k,
              passes_of test (get_handle s' k) (get_handle s k) (abort-alloc_of s h cause k at'),
              ==_iff id k,
              ==_iff k id,
            )
      ]
]

abort-reservations :
    (s : Impl) (h : Handle) (cause : Cause) → (abort s h cause).reservations ≡ s.reservations
unfolding abort end_allocation hand_back stop_heartbeat request_release set_handle finish
    close_drain release_profile
abort-reservations s h cause = ground arith

abort_all-reservations :
    (s : Impl) (ids : List ℕ)
    → (abort_all s ids (λ h. true) shutdown_elapsed).reservations ≡ s.reservations
unfolding abort_all
abort_all-reservations s [] = refl
abort_all-reservations s (id ∷ ids) = elim (Option-cases (get_handle s id)) [
  | inl missing ↦ ground (arith, missing, abort_all-reservations s ids)
  | inr (h, at) ↦ ground (
    arith,
    at,
    abort_all-reservations (abort s h shutdown_elapsed) ids,
    abort-reservations s h shutdown_elapsed,
  )
]

-- When a Host becomes unhealthy, the Allocations whose Placement names it end, and no others.
pub abort_host-contains :
    (s : Impl) (name : String) (k : ℕ)
    → IsKeyed s
    → contains k (abort_host s name).allocations ≡ (
        contains k s.allocations
        && not (passes (λ a. str_eq a.placement.host name) (get_handle s k)))
unfolding abort_host placement_host
abort_host-contains s name k keyed = ground (
  arith,
  abort_all-contains s s.allocations (λ a. str_eq a.placement.host name) host_unhealthy k keyed,
)

drained_keeps :
    (s : Impl)
    → ((drained s).1.handles ≡ s.handles)
      × ((drained s).1.allocations ≡ s.allocations)
      × ((drained s).1.reservations ≡ s.reservations)
unfolding drained
drained_keeps s = ground arith

-- The two stretches of a shutdown, with any steps of the Scheduler in between. The first leaves no
-- Reservation, and every Allocation and its handle as they are. The second runs on any state in which the
-- handles are stored under their numbers and each Allocation has one: behind the timeout no Allocation is
-- left, if nothing comes in between the turns of its loop, and without the timeout it ends none. It makes
-- and drops no Reservation, and no new background work is accepted after it.
pub shutdown-IsEmpty :
    (s s' : Impl)
    → IsKeyed s'
    → ((k : ℕ) → contains k s'.allocations ≡ true → is_some (get_handle s' k) ≡ true)
    → ((begin_shutdown s).reservations ≡ [])
      × ((begin_shutdown s).allocations ≡ s.allocations)
      × ((begin_shutdown s).handles ≡ s.handles)
      × ((k : ℕ) → contains k (end_shutdown s' true).allocations ≡ false)
      × ((end_shutdown s' false).allocations ≡ s'.allocations)
      × ((elapsed : Bool)
          → ((end_shutdown s' elapsed).reservations ≡ s'.reservations)
            × ((end_shutdown s' elapsed).bg_closed ≡ true))
unfolding begin_shutdown end_shutdown abort_running
shutdown-IsEmpty s s' keyed stored =
    let (handles, allocations, reservations) = drained_keeps (record s { reservations = [] }) in
    (
      reservations,
      allocations,
      handles,
      (λ k. elim (Option-cases (get_handle s' k)) [
        | inl missing ↦ ground (
          arith,
          missing,
          stored k,
          abort_all-contains s' s'.allocations (λ a. true) shutdown_elapsed k keyed,
        )
        | inr (h, at) ↦
            ground
              (arith, at, abort_all-contains s' s'.allocations (λ a. true) shutdown_elapsed k keyed)
      ]),
      refl,
      λ elapsed. elim (Bool-cases elapsed) [
        | inl late ↦ ground (arith, late, abort_all-reservations s' s'.allocations)
        | inr early ↦ ground (arith, early)
      ],
    )
