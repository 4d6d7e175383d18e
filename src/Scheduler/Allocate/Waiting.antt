-- ===== src/Scheduler/Allocate/Waiting.antt =====
-- The number of allocations that wait on a Pool, over one allocation.
use flintlock_runner.Prelude.{
  ℕ, ◌+◌, ◌-◌, ◌≡◌, Bool, false, not, ◌&&◌, List, [], ◌∷◌, Option, none, some, arith, if◌then◌else◌,
}
use flintlock_runner.Prelude.Map.{lookup-insert, lookup-delete}
use flintlock_runner.Poolmgr.Event.{PoolRef, ref_key}
use flintlock_runner.Poolmgr.Tracker.{wait}
use flintlock_runner.Scheduler.State.{Impl, Profile, set_handle, new_handle}
use flintlock_runner.Scheduler.Capacity.{waiting_on, wait_on_pool, leave_pool, convert}
use flintlock_runner.Scheduler.Release.{start_heartbeat}
use flintlock_runner.Scheduler.Placement.{Claim, AllocationError, Around}
use flintlock_runner.Scheduler.Allocate.{
  abandon, record_allocation, allocated, World, ClaimError, FailedClaim, Request, exhausted,
  unavailable, aborted, ctx_done, other_error, unknown_pool, claim_error, claim_loop, stop_waiting,
  claim_vm, stop_or, ends_with,
}

-- The one that a loop adds to a Pool's count when it starts to wait.
abbrev added : Bool → Bool → Bool → ℕ
added before after same = if after && not before && same then 1 else 0

claim_error-waiting_on :
    (w : World) (p : Profile) (waiting : Bool) (err : ClaimError) (now : ℕ) (ref : PoolRef)
    → (waiting_on (claim_error w p waiting err now).0.impl ref
        ≡ waiting_on w.impl ref
          + added waiting (claim_error w p waiting err now).1 (ref_key.beq p.pool_ref ref))
      × ((waiting && not (claim_error w p waiting err now).1) ≡ false)
unfolding claim_error wait_on_pool waiting_on
claim_error-waiting_on w p waiting exhausted now ref = ground (
  arith,
  lookup-insert p.pool_ref ref (waiting_on w.impl p.pool_ref + 1) w.impl.waiting,
  ref_key.beq_iff p.pool_ref ref,
)
claim_error-waiting_on w p waiting (unknown_pool declared) now ref = ground arith
claim_error-waiting_on w p waiting unavailable now ref = ground arith
claim_error-waiting_on w p waiting aborted now ref = ground arith
claim_error-waiting_on w p waiting ctx_done now ref = ground arith
claim_error-waiting_on w p waiting other_error now ref = ground arith

-- Of a Pool, the count before and after, and whether the loop waits before and after.
abbrev Counts : PoolRef → Bool → World → Bool → World → Bool → Type 0
Counts ref mine w before w' after =
    (waiting_on w'.impl ref ≡ waiting_on w.impl ref + added before after mine)
    × ((before && not after) ≡ false)

Counts-trans :
    (ref : PoolRef) (mine : Bool) (u v w : World) (a b c : Bool)
    → Counts ref mine u a v b
    → Counts ref mine v b w c
    → Counts ref mine u a w c
Counts-trans ref mine u v w a b c first second = ground (arith, first, second)

stop_or-Counts :
    (o : Option AllocationError) (ref : PoolRef) (mine : Bool) (u v : World) (a b : Bool)
    (rest : World × Bool × Option AllocationError)
    → Counts ref mine u a v b
    → Counts ref mine u a rest.0 rest.1
    → Counts ref mine u a (stop_or o v b rest).0 (stop_or o v b rest).1
unfolding stop_or
stop_or-Counts none ref mine u v a b rest now later = later
stop_or-Counts (some err) ref mine u v a b rest now later = now

claim_loop-Counts :
    (w : World) (p : Profile) (waiting : Bool) (fs : List FailedClaim) (ref : PoolRef)
    → Counts ref
        (ref_key.beq p.pool_ref ref)
        w
        waiting
        (claim_loop w p waiting fs).0
        (claim_loop w p waiting fs).1
unfolding claim_loop waiting_on
claim_loop-Counts w p waiting [] ref = ground arith
claim_loop-Counts w p waiting (f ∷ fs) ref =
    let w' = record w { tracker = (wait w.tracker p.pool_ref).1 } in
    let r = claim_error w' p waiting f.error f.now in
    let mine = ref_key.beq p.pool_ref ref in
    let first = claim_error-waiting_on w' p waiting f.error f.now ref in
    let rest = claim_loop r.0 p r.1 fs in
    stop_or-Counts (ends_with r.2 f.wait_end) ref mine w r.0 waiting r.1 rest first (
      Counts-trans ref mine w r.0 rest.0 waiting r.1 rest.1 first
        (claim_loop-Counts r.0 p r.1 fs ref))

leave_pool-waiting_on :
    (s : Impl) (mine ref : PoolRef)
    → waiting_on (leave_pool s mine).0 ref
      ≡ (if ref_key.beq mine ref then waiting_on s ref - 1 else waiting_on s ref)
unfolding leave_pool waiting_on
leave_pool-waiting_on s mine ref = ground (
  arith,
  lookup-insert mine ref (waiting_on s mine - 1) s.waiting,
  lookup-delete mine ref s.waiting,
  ref_key.beq_iff mine ref,
)

allocated-waiting :
    (s : Impl) (reservation job : ℕ) (p : Profile) (c : Claim) (gone : Bool) (e : Around)
    → (allocated s reservation job p c gone e).0.waiting ≡ s.waiting
unfolding allocated record_allocation abandon convert start_heartbeat set_handle new_handle
allocated-waiting s reservation job p c gone e = ground arith

same_waiting :
    (s s' : Impl) (ref : PoolRef) → s'.waiting ≡ s.waiting → waiting_on s' ref ≡ waiting_on s ref
unfolding waiting_on
same_waiting s s' ref same = ground (arith, same)

-- However its claims fail and however it ends, an allocation leaves the number of those that wait on
-- each Pool as it was.
pub claim_vm-waiting_on :
    (w : World) (r : Request) (fs : List FailedClaim) (ref : PoolRef)
    → waiting_on (claim_vm w r fs).0.impl ref ≡ waiting_on w.impl ref
unfolding claim_vm stop_waiting
claim_vm-waiting_on w r fs ref =
    let end = claim_loop w r.profile false fs in
    let s = end.0.impl in
    let s' = (allocated s r.reservation r.job r.profile r.claim r.cancelled_then r.around).0 in
    ground (
      arith,
      claim_loop-Counts w r.profile false fs ref,
      leave_pool-waiting_on s r.profile.pool_ref ref,
      leave_pool-waiting_on s' r.profile.pool_ref ref,
      same_waiting s s' ref
          (allocated-waiting s r.reservation r.job r.profile r.claim r.cancelled_then r.around),
    )
