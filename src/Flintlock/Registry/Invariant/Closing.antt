-- ===== src/Flintlock/Registry/Invariant/Closing.antt =====
-- `Close` keeps what holds of a registry.
use flintlock_runner.Prelude.{
  ℕ, ◌+◌, ◌≡◌, refl, sym, subst, true, false, ◌||◌, List, [], ◌∷◌, ◌++◌, arith, nat_key, string_key,
  String, ==_iff, Option-cases, Bool-cases, inl, inr,
}
use flintlock_runner.Prelude.Map.{lookup, IsMap}
use flintlock_runner.Prelude.Uids.{contains}
use flintlock_runner.Flintlock.Registry.{Registry, close, close_all, table_ids}
use flintlock_runner.Flintlock.Registry.Store.{
  count_of, is_open, Keeps, close_all-Keeps, close_all_lem, closed_form,
}
use flintlock_runner.Flintlock.Registry.Build.{names_id}
use flintlock_runner.Flintlock.Registry.Invariant.{IsRegistry}

contains-append :
    (id : ℕ) (xs ys : List ℕ) → contains id (xs ++ ys) ≡ (contains id xs || contains id ys)
unfolding contains
contains-append id [] ys = refl
contains-append id (x ∷ xs) ys = ground (arith, contains-append id xs ys)

contains-table_ids :
    (name : String) (id : ℕ) (hosts : List (String × ℕ))
    → names_id (lookup name hosts) id ≡ true
    → contains id (table_ids hosts) ≡ true
unfolding lookup contains
contains-table_ids name id [] listed = listed
contains-table_ids name id ((other, k) ∷ hosts) listed =
    ground (arith, listed, contains-table_ids name id hosts, ==_iff k id, ==_iff id k)

abbrev shut_registry : Registry → Registry
shut_registry r = record r { closed = true; hosts = []; retired = [] }

abbrev to_close : Registry → List ℕ
to_close r = table_ids r.hosts ++ r.retired

-- `Close` visits every entry that is open.
open-to_close :
    (r : Registry) (k : ℕ)
    → r.closed ≡ false
    → IsRegistry r
    → is_open (lookup k r.entries) ≡ 1
    → contains k (to_close r) ≡ true
open-to_close r k opened i there = elim (Option-cases (lookup k r.entries)) [
  | inl missing ↦ absurd (ground (arith, missing, there))
  | inr (e, at) ↦ ground (
    arith,
    at,
    opened,
    there,
    i.placed k,
    contains-append k (table_ids r.hosts) r.retired,
    contains-table_ids e.ep.name k r.hosts,
  )
]

closing_lem :
    (r : Registry) (k : ℕ)
    → r.closed ≡ false
    → IsRegistry r
    → (lookup k (close_all (shut_registry r) (to_close r)).entries
        ≡ closed_form (lookup k r.entries))
      × (count_of k (close_all (shut_registry r) (to_close r)).closes
          ≡ count_of k r.closes + is_open (lookup k r.entries))
closing_lem r k opened i = elim (Option-cases (lookup k r.entries)) [
  | inl missing ↦ ground (arith, missing, close_all_lem (shut_registry r) (to_close r) k)
  | inr (e, at) ↦
      ground (arith, at, close_all_lem (shut_registry r) (to_close r) k, open-to_close r k opened i)
]

closed-IsRegistry :
    (r t : Registry)
    → r.closed ≡ false
    → IsRegistry r
    → Keeps (shut_registry r) t
    → ((k : ℕ)
        → (lookup k t.entries ≡ closed_form (lookup k r.entries))
          × (count_of k t.closes ≡ count_of k r.closes + is_open (lookup k r.entries)))
    → IsRegistry t
unfolding lookup
closed-IsRegistry r t opened i kept each = record {
  accounted = λ k. elim (Option-cases (lookup k r.entries)) [
    | inl missing ↦
        ground
          (arith, missing, each k, i.accounted k, kept.same_lost, kept.same_plan, kept.same_made)
    | inr (e, at) ↦
        ground (arith, at, each k, i.accounted k, kept.same_lost, kept.same_plan, kept.same_made)
  ];
  counted = λ k. elim (Option-cases (lookup k r.entries)) [
    | inl missing ↦ ground (arith, missing, each k)
    | inr (e, at) ↦ ground (arith, at, each k, i.counted k)
  ];
  holding = λ k. elim (Option-cases (lookup k r.entries)) [
    | inl missing ↦ ground (arith, missing, each k, i.holding k, kept.same_held)
    | inr (e, at) ↦ ground (arith, at, each k, i.holding k, kept.same_held)
  ];
  held_map = subst IsMap (sym kept.same_held) i.held_map;
  held_fresh = λ n later.
      ground (arith, kept.same_held, i.held_fresh n (omega (arith, later, kept.same_leased)));
  fresh = λ k new. ground (arith, each k, i.fresh k (omega (arith, new, kept.same_made)));
  table = record {
    maps = subst IsMap (sym kept.same_hosts) tt;
    stands = λ name k listed. absurd (ground (arith, listed, kept.same_hosts));
  };
  placed = λ k. elim (Option-cases (lookup k r.entries)) [
    | inl missing ↦ ground (arith, missing, each k, kept.same_closed)
    | inr (e, at) ↦ ground (arith, at, each k, kept.same_closed)
  ];
  plan_ok = λ q alive same. absurd (ground (arith, alive, kept.same_closed));
}

close-shut : (r : Registry) → r.closed ≡ true → close r ≡ r
unfolding close
close-shut r shut = ground (arith, shut)

close-open : (r : Registry) → r.closed ≡ false → close r ≡ close_all (shut_registry r) (to_close r)
unfolding close
close-open r opened = ground (arith, opened)

pub close-IsRegistry : (r : Registry) → IsRegistry r → IsRegistry (close r)
close-IsRegistry r i = elim (Bool-cases r.closed) [
  | inl shut ↦ subst IsRegistry (sym (close-shut r shut)) i
  | inr opened ↦ subst IsRegistry (sym (close-open r opened)) (
      closed-IsRegistry r (close_all (shut_registry r) (to_close r)) opened i
        (close_all-Keeps (shut_registry r) (to_close r)) (λ k. closing_lem r k opened i))
]

pub close-closed : (r : Registry) → (close r).closed ≡ true
close-closed r = elim (Bool-cases r.closed) [
  | inl shut ↦ ground (arith, shut, close-shut r shut)
  | inr opened ↦
      subst (λ t. t.closed ≡ true) (sym (close-open r opened))
        (close_all-Keeps (shut_registry r) (to_close r)).same_closed
]

pub close-keeps :
    (r : Registry)
    → ((close r).lost ≡ r.lost) × ((close r).plan ≡ r.plan) × ((close r).made ≡ r.made)
close-keeps r = elim (Bool-cases r.closed) [
  | inl shut ↦ ground (arith, close-shut r shut)
  | inr opened ↦
      subst (λ t. (t.lost ≡ r.lost) × (t.plan ≡ r.plan) × (t.made ≡ r.made))
        (sym (close-open r opened)) (by_loop (close_all-Keeps (shut_registry r) (to_close r)))
]
  where
    by_loop :
        {t : Registry}
        → Keeps (shut_registry r) t
        → (t.lost ≡ r.lost) × (t.plan ≡ r.plan) × (t.made ≡ r.made)
    by_loop kept = (kept.same_lost, kept.same_plan, kept.same_made)
