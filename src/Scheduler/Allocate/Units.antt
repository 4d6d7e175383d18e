-- ===== src/Scheduler/Allocate/Units.antt =====
-- The units of the Profiles over one allocation.
use flintlock_runner.Prelude.{
  ℕ, ◌+◌, ◌<◌, ◌≡◌, refl, ◌∙◌, Bool, false, List, [], ◌∷◌, Option, none, some, arith, String,
  str_eq, eq_iff, if◌then◌else◌, Bool-cases, inl, inr, is_some,
}
use flintlock_runner.Poolmgr.Tracker.{wait}
use flintlock_runner.Scheduler.State.{Impl, Profile, set_handle, new_handle}
use flintlock_runner.Scheduler.Capacity.{
  use_of, enter_profile, leave_profile, wait_on_pool, leave_pool, convert,
}
use flintlock_runner.Scheduler.Capacity.Counting.{use_of-release_profile, use_of-enter_profile}
use flintlock_runner.Scheduler.Release.{start_heartbeat}
use flintlock_runner.Scheduler.Placement.{Claim, AllocationError, Around}
use flintlock_runner.Scheduler.Allocate.{
  Allocated, made, erred, abandon, record_allocation, allocated, World, ClaimError, FailedClaim,
  Request, exhausted, unavailable, aborted, ctx_done, other_error, unknown_pool, claim_error,
  claim_loop, stop_waiting, claim_vm, stop_or, ends_with, await_profile_limit, allocate_running,
}
use flintlock_runner.Scheduler.Allocate.Errors.{handle_of}

claim_error-profile_use :
    (w : World) (p : Profile) (waiting : Bool) (err : ClaimError) (now : ℕ)
    → (claim_error w p waiting err now).0.impl.profile_use ≡ w.impl.profile_use
unfolding claim_error wait_on_pool
claim_error-profile_use w p waiting exhausted now = ground arith
claim_error-profile_use w p waiting (unknown_pool declared) now = refl
claim_error-profile_use w p waiting unavailable now = refl
claim_error-profile_use w p waiting aborted now = refl
claim_error-profile_use w p waiting ctx_done now = refl
claim_error-profile_use w p waiting other_error now = refl

stop_or-profile_use :
    (o : Option AllocationError) (u v : World) (b : Bool)
    (rest : World × Bool × Option AllocationError)
    → v.impl.profile_use ≡ u.impl.profile_use
    → rest.0.impl.profile_use ≡ u.impl.profile_use
    → (stop_or o v b rest).0.impl.profile_use ≡ u.impl.profile_use
unfolding stop_or
stop_or-profile_use none u v b rest now later = later
stop_or-profile_use (some err) u v b rest now later = now

claim_loop-profile_use :
    (w : World) (p : Profile) (waiting : Bool) (fs : List FailedClaim)
    → (claim_loop w p waiting fs).0.impl.profile_use ≡ w.impl.profile_use
unfolding claim_loop
claim_loop-profile_use w p waiting [] = refl
claim_loop-profile_use w p waiting (f ∷ fs) =
    let w' = record w { tracker = (wait w.tracker p.pool_ref).1 } in
    let r = claim_error w' p waiting f.error f.now in
    let first = claim_error-profile_use w' p waiting f.error f.now in
    stop_or-profile_use (ends_with r.2 f.wait_end) w r.0 r.1 (claim_loop r.0 p r.1 fs) first
      (claim_loop-profile_use r.0 p r.1 fs ∙ first)

allocated-profile_use :
    (s : Impl) (reservation job : ℕ) (p : Profile) (c : Claim) (gone : Bool) (e : Around)
    → (allocated s reservation job p c gone e).0.profile_use ≡ s.profile_use
unfolding allocated record_allocation abandon convert start_heartbeat set_handle new_handle
allocated-profile_use s reservation job p c gone e = ground arith

claim_vm-profile_use :
    (w : World) (r : Request) (fs : List FailedClaim)
    → (claim_vm w r fs).0.impl.profile_use ≡ w.impl.profile_use
unfolding claim_vm stop_waiting leave_pool
claim_vm-profile_use w r fs =
    let s = (claim_loop w r.profile false fs).0.impl in
    ground (
      arith,
      claim_loop-profile_use w r.profile false fs,
      allocated-profile_use s r.reservation r.job r.profile r.claim r.cancelled_then r.around,
    )

use_of_same :
    (s s' : Impl) (name : String) → s'.profile_use ≡ s.profile_use → use_of s' name ≡ use_of s name
unfolding use_of
use_of_same s s' name same = ground (arith, same)

-- What an allocation does once its unit is taken.
abbrev after_claim : Request → World × Allocated → World × Allocated
after_claim r (w, made h) = (w, made h)
after_claim r (w, erred e) = (record w { impl = leave_profile w.impl r.profile }, erred e)

after_claim-use_of :
    (r : Request) (w : World) (result : Allocated) (name : String)
    → 0 < use_of w.impl r.profile.name
    → use_of (after_claim r (w, result)).0.impl name
        + (if is_some (handle_of result) then 0 else if str_eq r.profile.name name then 1 else 0)
      ≡ use_of w.impl name
unfolding leave_profile
after_claim-use_of r w (made h) name pos = omega arith
after_claim-use_of r w (erred e) name pos = use_of-release_profile w.impl r.profile.name name pos

-- An allocation that need not wait for a unit of its Profile keeps one unit exactly if it succeeds; on
-- every other path, and of every other Profile, the units in use are as many as before.
pub allocate_running-use_of :
    (w : World) (r : Request) (fs : List FailedClaim) (name : String)
    → use_of (allocate_running w r [] fs).0.impl name
      ≡ use_of w.impl name
        + (if is_some (handle_of (allocate_running w r [] fs).1)
            then if str_eq r.profile.name name then 1 else 0
            else 0)
unfolding allocate_running await_profile_limit
allocate_running-use_of w r fs name = elim (Bool-cases (enter_profile w.impl r.profile).1) [
  | inr full ↦ ground (arith, full)
  | inl entered ↦
      let s = (enter_profile w.impl r.profile).0 in
      let v = record w { impl = s } in
      let out = claim_vm v r fs in
      let mine = use_of-enter_profile w.impl r.profile r.profile.name entered in
      let kept = claim_vm-profile_use v r fs in
      ground (
        arith,
        entered,
        eq_iff r.profile.name r.profile.name,
        mine,
        use_of-enter_profile w.impl r.profile name entered,
        use_of_same s out.0.impl name kept,
        use_of_same s out.0.impl r.profile.name kept,
        after_claim-use_of r out.0 out.1 name,
      )
]
