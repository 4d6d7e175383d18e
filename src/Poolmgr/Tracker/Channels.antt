-- ===== src/Poolmgr/Tracker/Channels.antt =====
-- The channels that callers wait on: every tracked Pool has an open one of its own.
use flintlock_runner.Prelude.{
  ℕ, ◌+◌, ◌<◌, ◌≡◌, true, false, List, ◌∷◌, some, arith, nat_key, Bool-cases,
}
use flintlock_runner.Prelude.Map.{lookup, insert, delete, lookup-insert, lookup-delete}
use flintlock_runner.Prelude.Uids.{contains, IsUnique}
use flintlock_runner.Poolmgr.Event.{PoolRef, ref_eq_iff, ref_key}
use flintlock_runner.Poolmgr.Pool.{Chans, TrackedPool}
use flintlock_runner.Poolmgr.Pool.Laws.{IsPool}

abbrev pub IsOpen : Chans → TrackedPool → Type 0
IsOpen cs p = (p.waiters < cs.made) × (contains p.waiters cs.closed ≡ false)

-- The Pools and channels of a Tracker.
pub record IsSafe (ps : List (PoolRef × TrackedPool)) (cs : Chans) : Type 0 where
  pub sound : (r : PoolRef) (p : TrackedPool) → lookup r ps ≡ some p → IsPool p
  pub opened : (r : PoolRef) (p : TrackedPool) → lookup r ps ≡ some p → IsOpen cs p
  pub apart :
      (r s : PoolRef) (p q : TrackedPool)
      → lookup r ps ≡ some p
      → lookup s ps ≡ some q
      → p.waiters ≡ q.waiters
      → r ≡ s
  pub closed_once : IsUnique cs.closed
  pub closed_made : (c : ℕ) → contains c cs.closed ≡ true → c < cs.made

-- A Pool is replaced by one that waits on the same channel.
pub replace-IsSafe :
    (ps : List (PoolRef × TrackedPool)) (cs : Chans) (r : PoolRef) (p q : TrackedPool)
    → IsSafe ps cs
    → lookup r ps ≡ some p
    → IsPool q
    → q.waiters ≡ p.waiters
    → IsSafe (insert r q ps) cs
replace-IsSafe ps cs r p q h at ok same = record {
  sound = λ s x e. ground (arith, lookup-insert r s q ps, h.sound s x, ok);
  opened = λ s x e. ground (arith, lookup-insert r s q ps, h.opened s x, h.opened r p at);
  apart = λ s t x y e f w. ground (
    arith,
    lookup-insert r s q ps,
    lookup-insert r t q ps,
    ref_eq_iff r s,
    ref_eq_iff r t,
    h.apart s t x y,
    h.apart r t p y at,
    h.apart s r x p,
  );
  closed_once = h.closed_once;
  closed_made = h.closed_made;
}

-- A Pool gets a fresh channel, and the one it had is closed.
pub rearm-IsSafe :
    (ps : List (PoolRef × TrackedPool)) (cs : Chans) (r : PoolRef) (p q : TrackedPool)
    → IsSafe ps cs
    → lookup r ps ≡ some p
    → IsPool q
    → q.waiters ≡ cs.made
    → IsSafe (insert r q ps) (record { made = cs.made + 1; closed = p.waiters ∷ cs.closed })
unfolding contains
rearm-IsSafe ps cs r p q h at ok fresh = record {
  sound = λ s x e. ground (arith, lookup-insert r s q ps, h.sound s x, ok);
  opened = λ s x e. ground (
    arith,
    lookup-insert r s q ps,
    h.opened s x,
    h.opened r p at,
    h.closed_made cs.made,
    ref_eq_iff r s,
    h.apart s r x p,
  );
  apart = λ s t x y e f w. ground (
    arith,
    lookup-insert r s q ps,
    lookup-insert r t q ps,
    ref_eq_iff r s,
    ref_eq_iff r t,
    h.apart s t x y,
    h.opened s x,
    h.opened t y,
  );
  closed_once = (((h.opened r p at).1), h.closed_once);
  closed_made = λ c e. ground (arith, h.closed_made c, h.opened r p at);
}

-- A Pool that is not there gets a fresh channel.
pub extend-IsSafe :
    (ps : List (PoolRef × TrackedPool)) (cs : Chans) (r : PoolRef) (q : TrackedPool)
    → IsSafe ps cs
    → IsPool q
    → q.waiters ≡ cs.made
    → IsSafe (insert r q ps) (record cs { made = cs.made + 1 })
extend-IsSafe ps cs r q h ok fresh = record {
  sound = λ s x e. ground (arith, lookup-insert r s q ps, h.sound s x, ok);
  opened = λ s x e. ground (
    arith,
    lookup-insert r s q ps,
    h.opened s x,
    h.closed_made cs.made,
    Bool-cases (contains cs.made cs.closed),
  );
  apart = λ s t x y e f w. ground (
    arith,
    lookup-insert r s q ps,
    lookup-insert r t q ps,
    ref_eq_iff r s,
    ref_eq_iff r t,
    h.apart s t x y,
    h.opened s x,
    h.opened t y,
  );
  closed_once = h.closed_once;
  closed_made = λ c e. ground (arith, h.closed_made c);
}

-- A Pool goes, and its channel is closed.
pub remove-IsSafe :
    (ps : List (PoolRef × TrackedPool)) (cs : Chans) (r : PoolRef) (p : TrackedPool)
    → IsSafe ps cs
    → lookup r ps ≡ some p
    → IsSafe (delete r ps) (record { made = cs.made + 1; closed = p.waiters ∷ cs.closed })
unfolding contains
remove-IsSafe ps cs r p h at = record {
  sound = λ s x e. ground (arith, lookup-delete r s ps, h.sound s x);
  opened =
      λ s x e. ground (arith, lookup-delete r s ps, h.opened s x, ref_eq_iff r s, h.apart s r x p);
  apart =
      λ s t x y e f w. ground (arith, lookup-delete r s ps, lookup-delete r t ps, h.apart s t x y);
  closed_once = (((h.opened r p at).1), h.closed_once);
  closed_made = λ c e. ground (arith, h.closed_made c, h.opened r p at);
}
