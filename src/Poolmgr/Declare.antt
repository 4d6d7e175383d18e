-- ===== src/Poolmgr/Declare.antt =====
-- internal/poolmgr/declare.go, the Declarer: how one Pool is created or updated. The Pool Manager is a
-- parameter, and so is what a spec has besides its PoolRef.
pub mod Laws
pub mod Examples
mod Tests
use flintlock_runner.Prelude.{Bool, List, String}
use flintlock_runner.Poolmgr.Event.{PoolRef}

pub record PoolSpec (S : Type 0) : Type 0 where
  pub ref : PoolRef
  pub template : S

-- The class of a failed call that `errors.Is` asks about.
pub data AdminError : Type 0 where
  already_exists not_found admin_failed : AdminError

-- The Pool of an answer, of which its `FlintlockHosts` are read.
pub data AdminReply : Type 0 where
  pool : List String → AdminReply
  refused : AdminError → AdminReply

-- `PoolAdmin`, over the state of the Pool Manager.
pub record PoolAdmin (M S : Type 0) : Type 0 where
  pub create_pool : M → PoolSpec S → M × AdminReply
  pub update_pool : M → PoolSpec S → M × AdminReply

pub data Declared : Type 0 where
  declared : List String → Declared
  not_created not_updated : AdminError → Declared

abbrev pub created : AdminReply → Declared
created (pool hosts) = declared hosts
created (refused err) = not_created err

-- What follows the call of UpdatePool.
unfoldable pub updated : {M S : Type 0} → PoolAdmin M S → PoolSpec S → M × AdminReply → M × Declared
updated admin spec (m, pool hosts) = (m, declared hosts)
updated admin spec (m, refused not_found) =
    let (m', reply) = admin.create_pool m spec in (m', created reply)
updated admin spec (m, refused already_exists) = (m, not_updated already_exists)
updated admin spec (m, refused admin_failed) = (m, not_updated admin_failed)

unfoldable pub first_created :
    {M S : Type 0} → PoolAdmin M S → PoolSpec S → M × AdminReply → M × Declared
unfolding updated
first_created admin spec (m, pool hosts) = (m, declared hosts)
first_created admin spec (m, refused already_exists) = updated admin spec (admin.update_pool m spec)
first_created admin spec (m, refused not_found) = (m, not_created not_found)
first_created admin spec (m, refused admin_failed) = (m, not_created admin_failed)

unfoldable pub declare_pool : {M S : Type 0} → PoolAdmin M S → M → PoolSpec S → M × Declared
unfolding first_created
declare_pool admin m spec = first_created admin spec (admin.create_pool m spec)
