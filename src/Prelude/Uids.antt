-- ===== src/Prelude/Uids.antt =====
-- Go sets (`map[K]struct{}`) as lists without repetition.
use mathlib.Core.Path.{◌≡◌, refl}
use mathlib.Core.Bool.{Bool, false, ◌||◌}
use mathlib.Core.List.{List, [], ◌∷◌}
use Prim.Native.Nat.{◌+◌, ◌≤◌}
use native.Mathlib.Omega.{arith}
use flintlock_runner.Prelude.Tests.{if◌then◌else◌}
use flintlock_runner.Prelude.Lists.{length}
use flintlock_runner.Prelude.Keys.{Eq}

module _ {ℓ} {K : Type ℓ} ⦃e : Eq K⦄ where
  unfoldable pub contains : K → List K → Bool
  contains k [] = false
  contains k (x ∷ xs) = e.beq x k || contains k xs

  -- `s[k] = struct{}{}`
  unfoldable pub put : K → List K → List K
  put k xs = if contains k xs then xs else k ∷ xs

  -- `delete(s, k)`
  unfoldable pub drop : K → List K → List K
  drop k [] = []
  drop k (x ∷ xs) = let rest = drop k xs in if e.beq x k then rest else x ∷ rest

  abbrev pub IsUnique : List K → Type 0
  IsUnique [] = Unit
  IsUnique (x ∷ xs) = (contains x xs ≡ false) × IsUnique xs

  pub contains-put : (k j : K) (xs : List K) → contains j (put k xs) ≡ (e.beq k j || contains j xs)
  unfolding put contains
  contains-put k j xs = ground (arith, e.beq_iff k j)

  pub contains-drop :
      (k j : K) (xs : List K)
      → contains j (drop k xs) ≡ (if e.beq k j then false else contains j xs)
  unfolding contains drop
  contains-drop k j [] = ground arith
  contains-drop k j (x ∷ xs) =
      ground (arith, e.beq_iff k j, e.beq_iff x k, e.beq_iff x j, contains-drop k j xs)

  pub put-IsUnique : (k : K) (xs : List K) → IsUnique xs → IsUnique (put k xs)
  unfolding put
  put-IsUnique k xs h = ground arith

  pub drop-IsUnique : (k : K) (xs : List K) → IsUnique xs → IsUnique (drop k xs)
  unfolding drop
  drop-IsUnique k [] h = tt
  drop-IsUnique k (x ∷ xs) h = ground (arith, drop-IsUnique k xs h.1, contains-drop k x xs)

  drop_absent : (k : K) (xs : List K) → contains k xs ≡ false → drop k xs ≡ xs
  unfolding contains drop
  drop_absent k [] h = refl
  drop_absent k (x ∷ xs) h = ground (arith, drop_absent k xs)

  -- A member leaves once, and takes one from the size.
  pub length-drop :
      (k : K) (xs : List K)
      → IsUnique xs
      → length (drop k xs) + (if contains k xs then 1 else 0) ≡ length xs
  unfolding contains drop
  length-drop k [] h = omega arith
  length-drop k (x ∷ xs) h = ground (arith, length-drop k xs h.1, drop_absent k xs, e.beq_iff x k)

  pub length-put : (k : K) (xs : List K) → length (put k xs) ≤ length xs + 1
  unfolding put
  length-put k xs = ground arith

  pub length-drop_le : (k : K) (xs : List K) → length (drop k xs) ≤ length xs
  unfolding drop
  length-drop_le k [] = omega arith
  length-drop_le k (x ∷ xs) = ground (arith, length-drop_le k xs)
