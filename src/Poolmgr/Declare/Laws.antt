-- ===== src/Poolmgr/Declare/Laws.antt =====
-- What a declaration of a Pool achieves.
use flintlock_runner.Prelude.{
  ◌≡◌, refl, ◌∙◌, sym, ap, Bool, true, false, List, String, Option, some, arith,
}
use flintlock_runner.Poolmgr.Event.{PoolRef, ref_key}
use flintlock_runner.Poolmgr.Declare.{
  PoolSpec, already_exists, not_found, admin_failed, AdminReply, pool, refused, PoolAdmin, Declared,
  declared, not_created, not_updated, created, updated, first_created, declare_pool,
}

abbrev pub is_declared : Declared → Bool
is_declared (declared hosts) = true
is_declared (not_created err) = false
is_declared (not_updated err) = false

abbrev is_pool : AdminReply → Bool
is_pool (pool hosts) = true
is_pool (refused err) = false

-- A Pool Manager: an accepted CreatePool or UpdatePool leaves it holding the spec, and no call changes
-- another Pool.
pub record IsManager {M S : Type 0} (admin : PoolAdmin M S)
    (holds : M → PoolRef → Option (PoolSpec S)) : Type 0 where
  pub create_holds :
      (m : M) (spec : PoolSpec S) (hosts : List String)
      → (admin.create_pool m spec).1 ≡ pool hosts
      → holds ((admin.create_pool m spec).0) spec.ref ≡ some spec
  pub update_holds :
      (m : M) (spec : PoolSpec S) (hosts : List String)
      → (admin.update_pool m spec).1 ≡ pool hosts
      → holds ((admin.update_pool m spec).0) spec.ref ≡ some spec
  pub create_other :
      (m : M) (spec : PoolSpec S) (ref : PoolRef)
      → ref_key.beq spec.ref ref ≡ false
      → holds ((admin.create_pool m spec).0) ref ≡ holds m ref
  pub update_other :
      (m : M) (spec : PoolSpec S) (ref : PoolRef)
      → ref_key.beq spec.ref ref ≡ false
      → holds ((admin.update_pool m spec).0) ref ≡ holds m ref

module _ {M S : Type 0} (admin : PoolAdmin M S) (holds : M → PoolRef → Option (PoolSpec S))
    (law : IsManager admin holds) where
  created-holds :
      (m : M) (spec : PoolSpec S) (out : M × AdminReply)
      → admin.create_pool m spec ≡ out
      → is_declared (created out.1) ≡ true
      → holds out.0 spec.ref ≡ some spec
  created-holds m spec (n, pool hosts) at done =
      ap (λ x. holds x.0 spec.ref) (sym at) ∙ law.create_holds m spec hosts (ap (λ x. x.1) at)
  created-holds m spec (n, refused err) at done = absurd (ground (arith, done))

  updated-holds :
      (m : M) (spec : PoolSpec S) (out : M × AdminReply)
      → admin.update_pool m spec ≡ out
      → is_declared ((updated admin spec out).1) ≡ true
      → holds ((updated admin spec out).0) spec.ref ≡ some spec
  unfolding updated
  updated-holds m spec (n, pool hosts) at done =
      ap (λ x. holds x.0 spec.ref) (sym at) ∙ law.update_holds m spec hosts (ap (λ x. x.1) at)
  updated-holds m spec (n, refused not_found) at done =
      created-holds n spec (admin.create_pool n spec) refl done
  updated-holds m spec (n, refused already_exists) at done = absurd (ground (arith, done))
  updated-holds m spec (n, refused admin_failed) at done = absurd (ground (arith, done))

  first_created-holds :
      (m : M) (spec : PoolSpec S) (out : M × AdminReply)
      → admin.create_pool m spec ≡ out
      → is_declared ((first_created admin spec out).1) ≡ true
      → holds ((first_created admin spec out).0) spec.ref ≡ some spec
  unfolding first_created
  first_created-holds m spec (n, pool hosts) at done =
      ap (λ x. holds x.0 spec.ref) (sym at) ∙ law.create_holds m spec hosts (ap (λ x. x.1) at)
  first_created-holds m spec (n, refused already_exists) at done =
      updated-holds n spec (admin.update_pool n spec) refl done
  first_created-holds m spec (n, refused not_found) at done = absurd (ground (arith, done))
  first_created-holds m spec (n, refused admin_failed) at done = absurd (ground (arith, done))

  -- A declaration that succeeds leaves the Pool Manager holding the spec, whether the Pool was new, had
  -- another spec, or went away between the calls.
  pub declare_pool-holds :
      (m : M) (spec : PoolSpec S)
      → is_declared ((declare_pool admin m spec).1) ≡ true
      → holds ((declare_pool admin m spec).0) spec.ref ≡ some spec
  unfolding declare_pool
  declare_pool-holds m spec done = first_created-holds m spec (admin.create_pool m spec) refl done

  updated-other :
      (m : M) (spec : PoolSpec S) (ref : PoolRef) (out : M × AdminReply)
      → ref_key.beq spec.ref ref ≡ false
      → holds out.0 ref ≡ holds m ref
      → holds ((updated admin spec out).0) ref ≡ holds m ref
  unfolding updated
  updated-other m spec ref (n, pool hosts) other same = same
  updated-other m spec ref (n, refused not_found) other same =
      law.create_other n spec ref other ∙ same
  updated-other m spec ref (n, refused already_exists) other same = same
  updated-other m spec ref (n, refused admin_failed) other same = same

  first_created-other :
      (m : M) (spec : PoolSpec S) (ref : PoolRef) (out : M × AdminReply)
      → ref_key.beq spec.ref ref ≡ false
      → holds out.0 ref ≡ holds m ref
      → holds ((first_created admin spec out).0) ref ≡ holds m ref
  unfolding first_created
  first_created-other m spec ref (n, pool hosts) other same = same
  first_created-other m spec ref (n, refused already_exists) other same =
      updated-other m spec ref (admin.update_pool n spec) other
        (law.update_other n spec ref other ∙ same)
  first_created-other m spec ref (n, refused not_found) other same = same
  first_created-other m spec ref (n, refused admin_failed) other same = same

  pub declare_pool-other :
      (m : M) (spec : PoolSpec S) (ref : PoolRef)
      → ref_key.beq spec.ref ref ≡ false
      → holds ((declare_pool admin m spec).0) ref ≡ holds m ref
  unfolding declare_pool
  declare_pool-other m spec ref other =
      first_created-other m spec ref (admin.create_pool m spec) other
        (law.create_other m spec ref other)
