-- ===== src/Poolmgr/Declare/Examples.antt =====
-- A Pool Manager that holds specs, for the tests.
use flintlock_runner.Prelude.{ℕ, List, [], ◌∷◌, Option, none, some, arith, Option-cases, inl, inr}
use flintlock_runner.Prelude.Map.{lookup, insert, lookup-insert}
use flintlock_runner.Poolmgr.Event.{PoolRef, ref_key, ref_eq_iff}
use flintlock_runner.Poolmgr.Declare.{
  PoolSpec, AdminReply, PoolAdmin, pool, refused, already_exists, not_found,
}
use flintlock_runner.Poolmgr.Declare.Laws.{IsManager}

abbrev pub Held : Type 0
Held = List (PoolRef × PoolSpec ℕ)

abbrev pub held_spec : Held → PoolRef → Option (PoolSpec ℕ)
held_spec m ref = lookup ref m

abbrev create : Held → PoolSpec ℕ → Held × AdminReply
create m spec = elim (lookup spec.ref m) [
  | some old ↦ (m, refused already_exists)
  | none ↦ (insert spec.ref spec m, pool ("a" ∷ []))
]

abbrev update : Held → PoolSpec ℕ → Held × AdminReply
update m spec = elim (lookup spec.ref m) [
  | none ↦ (m, refused not_found)
  | some old ↦ (insert spec.ref spec m, pool ("a" ∷ []))
]

abbrev pub manager : PoolAdmin Held ℕ
manager = record { create_pool = create; update_pool = update }

pub manager-IsManager : IsManager manager held_spec
manager-IsManager = record {
  create_holds = λ m spec hosts done. elim (Option-cases (lookup spec.ref m)) [
    | inl new ↦
        ground (arith, new, lookup-insert spec.ref spec.ref spec m, ref_eq_iff spec.ref spec.ref)
    | inr (old, at) ↦ absurd (ground (arith, at, done))
  ];
  update_holds = λ m spec hosts done. elim (Option-cases (lookup spec.ref m)) [
    | inl new ↦ absurd (ground (arith, new, done))
    | inr (old, at) ↦
        ground (arith, at, lookup-insert spec.ref spec.ref spec m, ref_eq_iff spec.ref spec.ref)
  ];
  create_other = λ m spec ref other. elim (Option-cases (lookup spec.ref m)) [
    | inl new ↦ ground (arith, new, other, lookup-insert spec.ref ref spec m)
    | inr (old, at) ↦ ground (arith, at)
  ];
  update_other = λ m spec ref other. elim (Option-cases (lookup spec.ref m)) [
    | inl new ↦ ground (arith, new)
    | inr (old, at) ↦ ground (arith, at, other, lookup-insert spec.ref ref spec m)
  ];
}
