-- ===== src/Poolmgr/Declare/Tests.antt =====
-- Declarations of a new Pool and of one that has another spec.
use flintlock_runner.Prelude.{ℕ, ◌≡◌, refl, [], ◌∷◌}
use flintlock_runner.Prelude.Map.{lookup}
use flintlock_runner.Poolmgr.Event.{PoolRef}
use flintlock_runner.Poolmgr.Declare.{PoolSpec, declared, declare_pool}
use flintlock_runner.Poolmgr.Declare.Examples.{Held, manager}

abbrev small : PoolRef
small = record { name = "small"; namespace = "ci" }

abbrev spec_with : ℕ → PoolSpec ℕ
spec_with n = record { ref = small; template = n }

abbrev one_pool : Held
one_pool = (small, spec_with 1) ∷ []

declare_pool-new : (declare_pool manager [] (spec_with 1)).1 ≡ declared ("a" ∷ [])
unfolding declare_pool lookup
declare_pool-new = refl
