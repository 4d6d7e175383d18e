-- ===== src/Scheduler/Heartbeat/Losses.antt =====
-- When a Lease counts as lost, and what that does to its Allocation.
use flintlock_runner.Prelude.{
  ℕ, ◌≤◌, ◌<◌, ◌≡◌, ◌⊎◌, inl, inr, Bool-cases, subst, sym, Option, Bool, true, false, not, ◌&&◌,
  ◌||◌, none, some, is_some, arith, ltb, nat_key, ==_iff,
}
use flintlock_runner.Prelude.Map.{lookup-insert}
use flintlock_runner.Prelude.Uids.{contains, contains-drop}
use flintlock_runner.Scheduler.State.{
  Impl, Handle, Lease, Cause, lease_lost, beating, get_handle, set_handle, set_lease, fail,
  mark_lease_gone,
}
use flintlock_runner.Scheduler.Capacity.{finish, release_profile, close_drain}
use flintlock_runner.Scheduler.Release.{
  release, lease_is_lost, hand_back, stop_heartbeat, request_release,
}
use flintlock_runner.Scheduler.Release.Ends.{is_gone, finish_keeps, stopped_handle, lost_gone}
use flintlock_runner.Scheduler.Heartbeat.{
  Beat, renewed, gone, unknown, renew, holds, heartbeat_turn, heartbeat_answered, lease_checked,
  lose_unless_done, is_cancelled,
}

-- The answer says that the Lease is lost: it is gone, or its expiry has passed without a renewal.
abbrev pub tells_loss : Beat → Lease → ℕ → Bool
tells_loss (renewed expires) l now = false
tells_loss gone l now = true
tells_loss unknown l now = not (ltb now l.expires_at)

-- The cause that a stored handle gives its Job.
abbrev pub err_of : Option Handle → Option Cause
err_of none = none
err_of (some h) = h.err

-- The first cause that a Job is given stands.
abbrev pub or_lost : Option Cause → Option Cause
or_lost none = some lease_lost
or_lost (some earlier) = some earlier

-- What a loss leaves of the Allocation of a handle.
pub record IsLost (s s' : Impl) (h : Handle) : Type 0 where
  pub ended : contains h.id s'.allocations ≡ false
  pub marked : is_gone h.id s' ≡ true
  pub told : err_of (get_handle s' h.id) ≡ or_lost h.err
  pub no_call : s'.releases ≡ s.releases

lease_is_lost-IsLost :
    (s : Impl) (h : Handle) → get_handle s h.id ≡ some h → IsLost s (lease_is_lost s h) h
unfolding lease_is_lost fail mark_lease_gone set_handle get_handle finish close_drain
    release_profile
lease_is_lost-IsLost s h at = record {
  ended = ground (arith, contains-drop h.id h.id s.allocations, ==_iff h.id h.id);
  marked = ground (arith, lost_gone s h h.id at, ==_iff h.id h.id);
  told = ground (
    arith,
    finish_keeps (set_handle s (fail (mark_lease_gone h) lease_lost))
        (fail (mark_lease_gone h) lease_lost),
    lookup-insert h.id h.id (fail (mark_lease_gone h) lease_lost) s.handles,
    ==_iff h.id h.id,
  );
  no_call = ground arith;
}

-- Every way that a turn of the keep-alive loop goes. A loop that is cancelled is over, and changes nothing.
-- Else, if the expiry of the Lease has passed, the loop is over and the Lease is lost: the Allocation ends,
-- its Job is given the loss as its cause unless it had one, and no release is asked for. Else nothing
-- changes, and the loop waits before it calls.
pub heartbeat_turn-IsLost :
    (s : Impl) (h : Handle) (background_done : Bool) (now interval : ℕ) (backoff : ℕ → ℕ)
    (attempt : ℕ)
    → get_handle s h.id ≡ some h
    → ((is_cancelled background_done h.heartbeats ≡ true)
        × (heartbeat_turn s h background_done now interval backoff attempt ≡ (s, none)))
      ⊎ (((is_cancelled background_done h.heartbeats ≡ false)
            × (h.alloc.lease.expires_at ≤ now)
            × IsLost s (heartbeat_turn s h background_done now interval backoff attempt).0 h
            × ((heartbeat_turn s h background_done now interval backoff attempt).1 ≡ none))
          ⊎ ((is_cancelled background_done h.heartbeats ≡ false)
              × (now < h.alloc.lease.expires_at)
              × ((heartbeat_turn s h background_done now interval backoff attempt).0 ≡ s)
              × (is_some (heartbeat_turn s h background_done now interval backoff attempt).1
                  ≡ true)))
unfolding heartbeat_turn
heartbeat_turn-IsLost s h background_done now interval backoff attempt at =
    elim (Bool-cases (is_cancelled background_done h.heartbeats)) [
      | inl over ↦ inl (over, ground (arith, over))
      | inr on ↦ elim (Bool-cases (ltb now h.alloc.lease.expires_at)) [
        | inr past ↦
            inr (inl (on, ground (arith, past), past_turn on past, ground (arith, on, past)))
        | inl early ↦
            inr (
              inr (on, ground (arith, early), ground (arith, on, early), ground (arith, on, early)))
      ]
    ]
  where
    past_turn :
        is_cancelled background_done h.heartbeats ≡ false
        → ltb now h.alloc.lease.expires_at ≡ false
        → IsLost s (heartbeat_turn s h background_done now interval backoff attempt).0 h
    past_turn on past =
        let same : (heartbeat_turn s h background_done now interval backoff attempt).0
            ≡ lease_is_lost s h =
          ground (arith, on, past) in
        subst (λ t. IsLost s t h) (sym same) (lease_is_lost-IsLost s h at)

-- The handle that a renewal stores.
abbrev renewal : Handle → Beat → ℕ → Handle
renewal h (renewed expires) now = record h {
  alloc = record (h.alloc) { lease = renew h.alloc.lease expires now };
}
renewal h _ now = h

-- `CheckLease` takes the Lease of an Allocation that is still held, and has not failed, for lost exactly
-- if the answer says so; it never asks for a release.
pub lease_checked-is_gone :
    (s : Impl) (h : Handle) (beat : Beat) (now : ℕ)
    → get_handle s h.id ≡ some h
    → (is_gone h.id (lease_checked s h h.alloc.lease beat now)
        ≡ (h.lease_gone || (holds s h && not (is_some h.err) && tells_loss beat h.alloc.lease now)))
      × ((lease_checked s h h.alloc.lease beat now).releases ≡ s.releases)
unfolding lease_checked lose_unless_done set_handle set_lease get_handle
lease_checked-is_gone s h beat now at = ground (
  arith,
  at,
  lost_gone s h h.id at,
  lease_is_lost-IsLost s h at,
  lookup-insert h.id h.id (renewal h beat now) s.handles,
  ==_iff h.id h.id,
)

-- A heartbeat that was in flight while its Allocation was released changes nothing, whatever its answer.
pub released-ignores_heartbeat :
    (s : Impl) (h g : Handle) (l : Lease) (beat : Beat) (now attempt : ℕ)
    → h.heartbeats ≡ beating
    → get_handle (release s h) h.id ≡ some g
    → heartbeat_answered (release s h) g l false beat now attempt ≡ (release s h, none)
unfolding release hand_back stop_heartbeat request_release set_handle get_handle heartbeat_answered
released-ignores_heartbeat s h g l beat now attempt on at = ground (
  arith,
  on,
  at,
  finish_keeps s h,
  lookup-insert h.id h.id (stopped_handle h) s.handles,
  lookup-insert h.id h.id (stopped_handle h) (finish s h).0.handles,
  ==_iff h.id h.id,
)
