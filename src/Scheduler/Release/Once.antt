-- ===== src/Scheduler/Release/Once.antt =====
-- Allocations over time: they are made, their Leases are renewed, and they end, by whoever ends them: a
-- Job that finishes, the keep-alive loop, a Host that becomes unhealthy, the shutdown.
use flintlock_runner.Prelude.{
  ℕ, ◌≤◌, ◌≡◌, refl, ap, ◌∙◌, ◌⊎◌, Bool, true, false, List, [], ◌∷◌, Option, none, some, arith,
  if◌then◌else◌, nat_key, ◌==◌, ==_iff,
}
use flintlock_runner.Prelude.Map.{lookup-insert}
use flintlock_runner.Prelude.Uids.{contains-put}
use flintlock_runner.Scheduler.State.{
  Impl, Handle, Allocation, Lease, beating, stopped, get_handle, set_handle, set_lease, new_handle,
}
use flintlock_runner.Scheduler.Capacity.{convert}
use flintlock_runner.Scheduler.Release.{start_heartbeat}
use flintlock_runner.Scheduler.Release.Kept.{Keeps, same_Keeps, then_Keeps, end_by-Keeps}
use flintlock_runner.Scheduler.Release.Ends.{
  End, end_by, in_charge, is_gone, handed_back, IsKeyed, end_by-IsKeyed, set_handle-IsKeyed,
}

-- What a Scheduler does to Allocations: an Allocation of a new handle, a change of a handle's Lease or
-- keep-alive loop, the end of the background work, and the ends, which the store gives the handle.
pub data Move : Type 0 where
  allocates : ℕ → Allocation → Move
  renews : ℕ → Lease → Move
  closes_background : Move
  ends : End → ℕ → Move

abbrev started : Bool → Handle → Handle
started closed h = record h { heartbeats = if closed then stopped else beating }

-- The end of `allocated`: a new handle of that id, where its Reservation is still there.
abbrev pub allocate : Impl → ℕ → Allocation → Impl
allocate s id alloc =
    let h = new_handle id alloc in
    let (s', converted) = convert s alloc.reservation_id h in
    if converted then start_heartbeat s' h else s'

abbrev pub renew_of : Option Handle → Impl → Lease → Impl
renew_of none s l = s
renew_of (some h) s l = set_handle s (set_lease h l)

abbrev pub end_of : Option Handle → End → Impl → Impl
end_of none e s = s
end_of (some h) e s = end_by e s h

abbrev pub move : Impl → Move → Impl
move s (allocates id alloc) = allocate s id alloc
move s (renews id l) = renew_of (get_handle s id) s l
move s closes_background = record s { bg_closed = true }
move s (ends e id) = end_of (get_handle s id) e s

abbrev pub moves : Impl → List Move → Impl
moves s [] = s
moves s (m ∷ ms) = moves (move s m) ms

-- None of the moves allocates under this id, as the ids of handles are new ones.
abbrev pub IsTaken : ℕ → List Move → Type 0
IsTaken id [] = true ≡ true
IsTaken id (allocates k alloc ∷ ms) = (id == k ≡ false) × IsTaken id ms
IsTaken id (renews k l ∷ ms) = IsTaken id ms
IsTaken id (closes_background ∷ ms) = IsTaken id ms
IsTaken id (ends e k ∷ ms) = IsTaken id ms

allocate-IsKeyed :
    (s : Impl) (id : ℕ) (alloc : Allocation) → IsKeyed s → IsKeyed (allocate s id alloc)
unfolding convert new_handle start_heartbeat set_handle get_handle
allocate-IsKeyed s id alloc keyed k g at = ground (
  arith,
  at,
  keyed k g,
  lookup-insert id k (started s.bg_closed (new_handle id alloc)) s.handles,
  ==_iff id k,
)

allocate-Keeps :
    (s : Impl) (id k : ℕ) (alloc : Allocation) → k == id ≡ false → Keeps k s (allocate s id alloc)
unfolding convert new_handle start_heartbeat set_handle get_handle
allocate-Keeps s id k alloc other = record {
  at_most = ground (arith, other, contains-put id k s.allocations, ==_iff id k, ==_iff k id);
  no_less = ground (arith, other, contains-put id k s.allocations, ==_iff id k, ==_iff k id);
  stays_gone = ground (
    arith,
    other,
    lookup-insert id k (started s.bg_closed (new_handle id alloc)) s.handles,
    ==_iff id k,
    ==_iff k id,
  );
  no_more_calls = ground arith;
}

renew_of-Keeps :
    (o : Option Handle) (s : Impl) (id k : ℕ) (l : Lease)
    → get_handle s id ≡ o
    → IsKeyed s
    → Keeps k s (renew_of o s l)
unfolding set_handle get_handle set_lease
renew_of-Keeps none s id k l at keyed = same_Keeps k s
renew_of-Keeps (some h) s id k l at keyed = record {
  at_most = ground arith;
  no_less = λ a. ground arith;
  stays_gone =
      ground
        (arith, at, keyed id h at, lookup-insert h.id k (set_lease h l) s.handles, ==_iff h.id k);
  no_more_calls = λ a. refl;
}

renew_of-IsKeyed : (o : Option Handle) (s : Impl) (l : Lease) → IsKeyed s → IsKeyed (renew_of o s l)
unfolding set_lease
renew_of-IsKeyed none s l keyed = keyed
renew_of-IsKeyed (some h) s l keyed = set_handle-IsKeyed s (set_lease h l) keyed

end_of-Keeps :
    (o : Option Handle) (e : End) (s : Impl) (id k : ℕ)
    → get_handle s id ≡ o
    → IsKeyed s
    → in_charge k s ≤ 1
    → Keeps k s (end_of o e s)
end_of-Keeps none e s id k at keyed one = same_Keeps k s
end_of-Keeps (some h) e s id k at keyed one =
    end_by-Keeps e s h k (ap (get_handle s) (keyed id h at) ∙ at) one

end_of-IsKeyed : (o : Option Handle) (e : End) (s : Impl) → IsKeyed s → IsKeyed (end_of o e s)
end_of-IsKeyed none e s keyed = keyed
end_of-IsKeyed (some h) e s keyed = end_by-IsKeyed e s h keyed

move-IsKeyed : (m : Move) (s : Impl) → IsKeyed s → IsKeyed (move s m)
unfolding get_handle
move-IsKeyed (allocates k alloc) s keyed = allocate-IsKeyed s k alloc keyed
move-IsKeyed (renews k l) s keyed = renew_of-IsKeyed (get_handle s k) s l keyed
move-IsKeyed closes_background s keyed = keyed
move-IsKeyed (ends e k) s keyed = end_of-IsKeyed (get_handle s k) e s keyed

move-Keeps :
    (id : ℕ) (m : Move) (s : Impl)
    → IsTaken id (m ∷ [])
    → IsKeyed s
    → in_charge id s ≤ 1
    → Keeps id s (move s m)
unfolding get_handle
move-Keeps id (allocates k alloc) s taken keyed one = allocate-Keeps s k id alloc taken.0
move-Keeps id (renews k l) s taken keyed one = renew_of-Keeps (get_handle s k) s k id l refl keyed
move-Keeps id closes_background s taken keyed one = record {
  at_most = omega arith;
  no_less = λ a. refl;
  stays_gone = λ a. a;
  no_more_calls = λ a. refl;
}
move-Keeps id (ends e k) s taken keyed one = end_of-Keeps (get_handle s k) e s k id refl keyed one

IsTaken-cons :
    (id : ℕ) (m : Move) (ms : List Move) → IsTaken id (m ∷ ms) → IsTaken id (m ∷ []) × IsTaken id ms
IsTaken-cons id (allocates k alloc) ms (a, b) = ((a, refl), b)
IsTaken-cons id (renews k l) ms b = (refl, b)
IsTaken-cons id closes_background ms b = (refl, b)
IsTaken-cons id (ends e k) ms b = (refl, b)

moves-Keeps :
    (id : ℕ) (ms : List Move) (s : Impl)
    → IsTaken id ms
    → IsKeyed s
    → in_charge id s ≤ 1
    → Keeps id s (moves s ms)
moves-Keeps id [] s taken keyed one = same_Keeps id s
moves-Keeps id (m ∷ ms) s taken keyed one =
    let (now, later) = IsTaken-cons id m ms taken in
    let first = move-Keeps id m s now keyed one in
    then_Keeps first (
      moves-Keeps id ms (move s m) later (move-IsKeyed m s keyed)
        (omega (arith, first.at_most, one)))

-- From the time that an Allocation is made, and whatever ends it and in whatever order the ends come:
-- its Lease is handed back at most once, and unless it has been lost exactly one place answers for it:
-- the Allocations, the handles kept for inspection, or one release.
pub lease-handed_back_once :
    (id : ℕ) (s : Impl) (ms : List Move)
    → IsTaken id ms
    → IsKeyed s
    → in_charge id s ≡ 1
    → (handed_back id (moves s ms).releases ≤ 1)
      × ((is_gone id (moves s ms) ≡ true) ⊎ (in_charge id (moves s ms) ≡ 1))
lease-handed_back_once id s ms taken keyed one =
    let k = moves-Keeps id ms s taken keyed (omega (arith, one)) in
    (ground (arith, k.at_most, one), ground (arith, k.no_less, one))

-- Once a Lease is known to be lost, no later move asks for its release.
pub lost-not_handed_back :
    (id : ℕ) (s : Impl) (ms : List Move)
    → IsTaken id ms
    → IsKeyed s
    → in_charge id s ≤ 1
    → is_gone id s ≡ true
    → handed_back id (moves s ms).releases ≡ handed_back id s.releases
lost-not_handed_back id s ms taken keyed one gone =
    (moves-Keeps id ms s taken keyed one).no_more_calls gone
