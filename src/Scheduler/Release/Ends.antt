-- ===== src/Scheduler/Release/Ends.antt =====
-- Each way to end an Allocation: who is in charge of its Lease before and after.
use flintlock_runner.Prelude.{
  ℕ, suc, ◌+◌, ◌≤◌, ◌≡◌, sym, Bool, true, false, List, [], ◌∷◌, none, some, arith, if◌then◌else◌,
  nat_key, ◌==◌, ==_iff,
}
use flintlock_runner.Prelude.Map.{lookup-insert}
use flintlock_runner.Prelude.Uids.{contains, drop, contains-put, contains-drop}
use flintlock_runner.Scheduler.State.{
  Impl, Handle, Lease, Cause, lease_lost, get_handle, set_handle, fail, mark_lease_gone,
}
use flintlock_runner.Scheduler.Capacity.{finish, release_profile, close_drain}
use flintlock_runner.Scheduler.Release.{
  release, retain, retained, lease_is_lost, end_allocation, abort, silence, hand_back,
  stop_heartbeat, request_release,
}

-- The releases that have been asked for on a handle.
abbrev pub handed_back : ℕ → List (ℕ × Lease) → ℕ
handed_back id [] = 0
handed_back id ((k, l) ∷ rest) = let n = handed_back id rest in if k == id then suc n else n

-- The places that answer for the Lease of a handle: it is held, it is kept for a while, or its release
-- has been asked for.
abbrev pub in_charge : ℕ → Impl → ℕ
in_charge id s =
    (if contains id s.allocations then 1 else 0)
    + (if contains id s.retaining then 1 else 0)
    + handed_back id s.releases

abbrev pub is_gone : ℕ → Impl → Bool
is_gone id s = elim (get_handle s id) [ none ↦ false | some h ↦ h.lease_gone ]

pub data End : Type 0 where
  releases_it retains_it retained_long_enough loses_it finds_it_ended : End
  aborts_it : Cause → End

abbrev pub end_by : End → Impl → Handle → Impl
end_by releases_it s h = release s h
end_by retains_it s h = retain s h
end_by retained_long_enough s h = retained s h
end_by loses_it s h = lease_is_lost s h
end_by finds_it_ended s h = end_allocation s h
end_by (aborts_it cause) s h = abort s h cause

in_charge-finish :
    (s : Impl) (h : Handle) (id : ℕ)
    → in_charge id (finish s h).0 + (if (finish s h).1 then (if h.id == id then 1 else 0) else 0)
      ≡ in_charge id s
unfolding finish close_drain release_profile
in_charge-finish s h id = ground (arith, contains-drop h.id id s.allocations, ==_iff h.id id)

pub finish_keeps :
    (s : Impl) (h : Handle)
    → ((finish s h).0.handles ≡ s.handles)
      × ((finish s h).0.retaining ≡ s.retaining)
      × ((finish s h).0.releases ≡ s.releases)
unfolding finish close_drain release_profile
finish_keeps s h = ground arith

in_charge-hand_back :
    (s : Impl) (h : Handle) (id : ℕ)
    → in_charge id (hand_back s h)
      ≡ in_charge id s + (if h.lease_gone then 0 else if h.id == id then 1 else 0)
unfolding hand_back stop_heartbeat request_release set_handle
in_charge-hand_back s h id = ground arith

pub in_charge-release :
    (s : Impl) (h : Handle) (id : ℕ)
    → in_charge id (release s h)
        + (if (finish s h).1
            then (if h.lease_gone then (if h.id == id then 1 else 0) else 0)
            else 0)
      ≡ in_charge id s
unfolding release stop_heartbeat set_handle
in_charge-release s h id =
    ground (arith, in_charge-finish s h id, in_charge-hand_back (finish s h).0 h id)

pub in_charge-end_allocation :
    (s : Impl) (h : Handle) (id : ℕ)
    → in_charge id (end_allocation s h)
        + (if (finish s h).1
            then (if h.lease_gone then (if h.id == id then 1 else 0) else 0)
            else 0)
      ≡ in_charge id s
unfolding end_allocation
in_charge-end_allocation s h id =
    ground (arith, in_charge-finish s h id, in_charge-hand_back (finish s h).0 h id)

pub in_charge-retain :
    (s : Impl) (h : Handle) (id : ℕ)
    → in_charge id s ≤ 1
    → in_charge id (retain s h)
        + (if (finish s h).1
            then (if h.lease_gone then (if h.id == id then 1 else 0) else 0)
            else 0)
      ≡ in_charge id s
unfolding retain stop_heartbeat set_handle request_release
in_charge-retain s h id one = ground (
  arith,
  one,
  in_charge-release s h id,
  in_charge-finish s h id,
  finish_keeps s h,
  contains-put h.id id (finish s h).0.retaining,
  ==_iff h.id id,
)

pub in_charge-retained :
    (s : Impl) (h : Handle) (id : ℕ)
    → in_charge id (retained s h)
        + (if contains h.id s.retaining
            then (if h.lease_gone then (if h.id == id then 1 else 0) else 0)
            else 0)
      ≡ in_charge id s
unfolding retained
in_charge-retained s h id = ground (
  arith,
  in_charge-hand_back (record s { retaining = drop h.id s.retaining }) h id,
  contains-drop h.id id s.retaining,
  ==_iff h.id id,
)

pub in_charge-lease_is_lost :
    (s : Impl) (h : Handle) (id : ℕ)
    → in_charge id (lease_is_lost s h)
        + (if contains h.id s.allocations then (if h.id == id then 1 else 0) else 0)
      ≡ in_charge id s
unfolding lease_is_lost set_handle fail mark_lease_gone finish close_drain release_profile
in_charge-lease_is_lost s h id = ground (arith, contains-drop h.id id s.allocations, ==_iff h.id id)

pub in_charge-abort :
    (s : Impl) (h : Handle) (cause : Cause) (id : ℕ)
    → in_charge id (abort s h cause)
        + (if contains h.id s.allocations
            then (if h.lease_gone then (if h.id == id then 1 else 0) else 0)
            else 0)
      ≡ in_charge id s
unfolding abort end_allocation hand_back stop_heartbeat request_release set_handle fail finish
    close_drain release_profile
in_charge-abort s h cause id = ground (arith, contains-drop h.id id s.allocations, ==_iff h.id id)

-- What the stored handle says of its Lease, once the end `h` of it is stored.
gone_after_set :
    (s : Impl) (h : Handle) (id : ℕ)
    → is_gone id (set_handle s h) ≡ (if h.id == id then h.lease_gone else is_gone id s)
unfolding set_handle get_handle
gone_after_set s h id = ground (arith, lookup-insert h.id id h s.handles)

gone_kept :
    (s : Impl) (h : Handle) (id : ℕ)
    → get_handle s h.id ≡ some h
    → (if h.id == id then h.lease_gone else is_gone id s) ≡ is_gone id s
gone_kept s h id at = ground (arith, at, ==_iff h.id id)

abbrev pub stopped_handle : Handle → Handle
stopped_handle h = record h { heartbeats = silence h.heartbeats }

hand_back_keeps :
    (s : Impl) (h : Handle) (id : ℕ)
    → get_handle s h.id ≡ some h
    → (is_gone id (hand_back s h) ≡ is_gone id s)
      × (is_gone id s ≡ true → handed_back id (hand_back s h).releases ≡ handed_back id s.releases)
unfolding hand_back stop_heartbeat request_release set_handle get_handle
hand_back_keeps s h id at =
    ground (arith, at, lookup-insert h.id id (stopped_handle h) s.handles, ==_iff h.id id)

-- What an end that is not a loss does to a stored handle and to the calls.
abbrev pub Spares : ℕ → Impl → Impl → Type 0
Spares id s s' =
    (is_gone id s' ≡ is_gone id s)
    × (is_gone id s ≡ true → handed_back id s'.releases ≡ handed_back id s.releases)

pub release-Spares :
    (s : Impl) (h : Handle) (id : ℕ) → get_handle s h.id ≡ some h → Spares id s (release s h)
unfolding release stop_heartbeat get_handle set_handle
release-Spares s h id at = ground (
  arith,
  at,
  finish_keeps s h,
  hand_back_keeps (finish s h).0 h id,
  lookup-insert h.id id (stopped_handle h) s.handles,
  ==_iff h.id id,
)

pub end_allocation-Spares :
    (s : Impl) (h : Handle) (id : ℕ) → get_handle s h.id ≡ some h → Spares id s (end_allocation s h)
unfolding end_allocation get_handle
end_allocation-Spares s h id at =
    ground (arith, at, finish_keeps s h, hand_back_keeps (finish s h).0 h id)

pub retain-Spares :
    (s : Impl) (h : Handle) (id : ℕ) → get_handle s h.id ≡ some h → Spares id s (retain s h)
unfolding retain stop_heartbeat request_release get_handle set_handle
retain-Spares s h id at = ground (
  arith,
  at,
  finish_keeps s h,
  release-Spares s h id at,
  lookup-insert h.id id (stopped_handle h) s.handles,
  ==_iff h.id id,
)

pub retained-Spares :
    (s : Impl) (h : Handle) (id : ℕ) → get_handle s h.id ≡ some h → Spares id s (retained s h)
unfolding retained get_handle
retained-Spares s h id at =
    ground (arith, at, hand_back_keeps (record s { retaining = drop h.id s.retaining }) h id)

pub abort-Spares :
    (s : Impl) (h : Handle) (cause : Cause) (id : ℕ)
    → get_handle s h.id ≡ some h
    → Spares id s (abort s h cause)
unfolding abort fail set_handle get_handle
abort-Spares s h cause id at = ground (
  arith,
  at,
  lookup-insert h.id id (fail h cause) s.handles,
  lookup-insert h.id h.id (fail h cause) s.handles,
  end_allocation-Spares (set_handle s (fail h cause)) (fail h cause) id,
  ==_iff h.id h.id,
  ==_iff h.id id,
)

pub lost_gone :
    (s : Impl) (h : Handle) (id : ℕ)
    → get_handle s h.id ≡ some h
    → (is_gone id (lease_is_lost s h) ≡ (if h.id == id then true else is_gone id s))
      × (handed_back id (lease_is_lost s h).releases ≡ handed_back id s.releases)
unfolding lease_is_lost fail mark_lease_gone set_handle get_handle finish close_drain
    release_profile
lost_gone s h id at = ground (
  arith,
  at,
  lookup-insert h.id id (fail (mark_lease_gone h) lease_lost) s.handles,
  ==_iff h.id id,
)

-- A handle is stored under its own id.
abbrev pub IsKeyed : Impl → Type 0
IsKeyed s = (id : ℕ) (h : Handle) → get_handle s id ≡ some h → h.id ≡ id

pub set_handle-IsKeyed : (s : Impl) (h : Handle) → IsKeyed s → IsKeyed (set_handle s h)
unfolding get_handle set_handle
set_handle-IsKeyed s h keyed id g at =
    ground (arith, at, keyed id g, lookup-insert h.id id h s.handles, ==_iff h.id id)

hand_back-IsKeyed : (s : Impl) (h : Handle) → IsKeyed s → IsKeyed (hand_back s h)
unfolding hand_back stop_heartbeat request_release set_handle get_handle
hand_back-IsKeyed s h keyed id g at =
    ground
      (arith, at, keyed id g, lookup-insert h.id id (stopped_handle h) s.handles, ==_iff h.id id)

finish-IsKeyed : (s : Impl) (h : Handle) → IsKeyed s → IsKeyed (finish s h).0
unfolding get_handle
finish-IsKeyed s h keyed id g at = keyed id g (rw (sym (finish_keeps s h).0) at)

end_allocation-IsKeyed : (s : Impl) (h : Handle) → IsKeyed s → IsKeyed (end_allocation s h)
unfolding end_allocation
end_allocation-IsKeyed s h keyed id g at = ground (
  arith,
  at,
  finish-IsKeyed s h keyed id g,
  hand_back-IsKeyed (finish s h).0 h (finish-IsKeyed s h keyed) id g,
)

release-IsKeyed : (s : Impl) (h : Handle) → IsKeyed s → IsKeyed (release s h)
unfolding release stop_heartbeat
release-IsKeyed s h keyed id g at = ground (
  arith,
  at,
  set_handle-IsKeyed (finish s h).0 (stopped_handle h) (finish-IsKeyed s h keyed) id g,
  hand_back-IsKeyed (finish s h).0 h (finish-IsKeyed s h keyed) id g,
)

retain-IsKeyed : (s : Impl) (h : Handle) → IsKeyed s → IsKeyed (retain s h)
unfolding retain stop_heartbeat request_release get_handle set_handle
retain-IsKeyed s h keyed id g at = ground (
  arith,
  at,
  release-IsKeyed s h keyed id g,
  finish-IsKeyed s h keyed id g,
  set_handle-IsKeyed (finish s h).0 (stopped_handle h) (finish-IsKeyed s h keyed) id g,
)

retained-IsKeyed : (s : Impl) (h : Handle) → IsKeyed s → IsKeyed (retained s h)
unfolding retained get_handle
retained-IsKeyed s h keyed id g at = ground (
  arith,
  at,
  keyed id g,
  hand_back-IsKeyed (record s { retaining = drop h.id s.retaining }) h keyed id g,
)

pub end_by-IsKeyed : (e : End) (s : Impl) (h : Handle) → IsKeyed s → IsKeyed (end_by e s h)
unfolding lease_is_lost abort
end_by-IsKeyed releases_it s h keyed = release-IsKeyed s h keyed
end_by-IsKeyed retains_it s h keyed = retain-IsKeyed s h keyed
end_by-IsKeyed retained_long_enough s h keyed = retained-IsKeyed s h keyed
end_by-IsKeyed finds_it_ended s h keyed = end_allocation-IsKeyed s h keyed
end_by-IsKeyed loses_it s h keyed =
    let h' = fail (mark_lease_gone h) lease_lost in
    finish-IsKeyed (set_handle s h') h' (set_handle-IsKeyed s h' keyed)
end_by-IsKeyed (aborts_it cause) s h keyed =
    let h' = fail h cause in
    end_allocation-IsKeyed (set_handle s h') h' (set_handle-IsKeyed s h' keyed)
