-- ===== src/Poolmgr/Count/Replay.antt =====
-- Events that are seen more than once: what a count owes to one uid.
use flintlock_runner.Prelude.{
  ℕ, suc, ◌+◌, ◌≤◌, ◌<◌, ◌≡◌, true, false, List, [], ◌∷◌, String, eq_iff, ==_iff, arith, string_key,
  ◌⊎◌, inl, inr, length, if◌then◌else◌,
}
use flintlock_runner.Prelude.Words.{half32, sub32}
use flintlock_runner.Prelude.Uids.{contains, put, contains-put, contains-drop}
use flintlock_runner.Poolmgr.Count.{UidCount, take, add, remove, leaves}

-- What the events about one MicroVM do to a count.
pub data Move : Type 0 where
  adds removes leaving takes : Move

unfoldable pub move : UidCount → String → Move → UidCount
move c uid adds = (add c uid).0
move c uid removes = (remove c uid).0
move c uid leaving = leaves c uid
move c uid takes = (take c uid).0

unfoldable pub moves : UidCount → List (String × Move) → UidCount
moves c [] = c
moves c ((uid, m) ∷ ms) = moves (move c uid m) ms

-- The MicroVMs that the moves are about.
abbrev pub uids_of : List (String × Move) → List String
uids_of [] = []
uids_of ((uid, m) ∷ ms) = put uid (uids_of ms)

-- How many uids have not been accounted.
abbrev pending : List String → List String → ℕ
pending [] accounted = 0
pending (uid ∷ uids) accounted =
    let rest = pending uids accounted in if contains uid accounted then rest else suc rest

pending-length : (uids accounted : List String) → pending uids accounted ≤ length uids
pending-length [] accounted = omega arith
pending-length (uid ∷ uids) accounted = ground (arith, pending-length uids accounted)

pending-put_le :
    (uid : String) (uids accounted : List String)
    → pending uids (put uid accounted) ≤ pending uids accounted
pending-put_le uid [] accounted = omega arith
pending-put_le uid (u ∷ uids) accounted =
    ground (arith, pending-put_le uid uids accounted, contains-put uid u accounted)

pending-put :
    (uid : String) (uids accounted : List String)
    → contains uid uids ≡ true
    → contains uid accounted ≡ false
    → pending uids (put uid accounted) < pending uids accounted
unfolding contains
pending-put uid [] accounted there new = cc
pending-put uid (u ∷ uids) accounted there new = ground (
  arith,
  there,
  new,
  pending-put uid uids accounted,
  pending-put_le uid uids accounted,
  contains-put uid u accounted,
  eq_iff u uid,
  eq_iff uid u,
)

pending-pos :
    (uid : String) (uids accounted : List String)
    → contains uid uids ≡ true
    → contains uid accounted ≡ false
    → 1 ≤ pending uids accounted
pending-pos uid uids accounted there new = omega (arith, pending-put uid uids accounted there new)

-- A move takes nothing, or it takes an unnamed one for a uid that was not accounted: it is then, or none is
-- left.
abbrev Spends : UidCount → UidCount → String → Type 0
Spends c d uid =
    ((d.unnamed ≡ c.unnamed) × (d.accounted ≡ c.accounted))
    ⊎ ((d.unnamed + 1 ≡ c.unnamed)
        × (contains uid c.accounted ≡ false)
        × ((d.unnamed ≡ 0) ⊎ (d.accounted ≡ put uid c.accounted)))

take-Spends : (c : UidCount) (uid : String) → c.unnamed ≤ half32 → Spends c (take c uid).0 uid
unfolding take
take-Spends c uid h = ground (arith, ==_iff (sub32 c.unnamed 1) 0)

move-Spends :
    (c : UidCount) (uid : String) (m : Move) → c.unnamed ≤ half32 → Spends c (move c uid m) uid
unfolding move add remove leaves
move-Spends c uid adds h = ground (arith, take-Spends (record c { named = put uid c.named }) uid)
move-Spends c uid removes h = ground arith
move-Spends c uid leaving h = ground (arith, take-Spends c uid)
move-Spends c uid takes h = ground (arith, take-Spends c uid)

-- All the moves are about these MicroVMs.
abbrev Covers : List String → List (String × Move) → Type 0
Covers uids [] = Unit
Covers uids ((uid, m) ∷ ms) = (contains uid uids ≡ true) × Covers uids ms

moves-pending :
    (uids : List String) (c : UidCount) (ms : List (String × Move))
    → c.unnamed ≤ half32
    → Covers uids ms
    → ((moves c ms).unnamed ≤ c.unnamed)
      × (c.unnamed ≤ (moves c ms).unnamed + pending uids c.accounted)
unfolding moves
moves-pending uids c [] h covers = omega arith
moves-pending uids c ((uid, m) ∷ ms) h (there, covers) = elim (move-Spends c uid m h) [
  | inl same ↦
      ground (arith, same, moves-pending uids (move c uid m) ms (omega (arith, same.0, h)) covers)
  | inr (spent, new, left) ↦ ground (
    arith,
    spent,
    left,
    moves-pending uids (move c uid m) ms (omega (arith, spent, h)) covers,
    pending-put uid uids c.accounted there new,
    pending-pos uid uids c.accounted there new,
  )
]

Covers-put :
    (uid : String) (uids : List String) (ms : List (String × Move))
    → Covers uids ms
    → Covers (put uid uids) ms
Covers-put uid uids [] covers = tt
Covers-put uid uids ((u, m) ∷ ms) (there, covers) =
    (ground (arith, there, contains-put uid u uids), Covers-put uid uids ms covers)

uids_of-Covers : (ms : List (String × Move)) → Covers (uids_of ms) ms
uids_of-Covers [] = tt
uids_of-Covers ((uid, m) ∷ ms) = (
  ground (arith, contains-put uid uid (uids_of ms), eq_iff uid uid),
  Covers-put uid (uids_of ms) ms (uids_of-Covers ms),
)

-- A run of moves with no total of a poll and no reset among them, however often and in whatever order
-- they name MicroVMs, takes at most one for each of these out of the unnamed part of a count, and never
-- adds to that part.
pub moves_spend_once :
    (c : UidCount) (ms : List (String × Move))
    → c.unnamed ≤ half32
    → ((moves c ms).unnamed ≤ c.unnamed) × (c.unnamed ≤ (moves c ms).unnamed + length (uids_of ms))
moves_spend_once c ms h =
    let (less, bound) = moves-pending (uids_of ms) c ms h (uids_of-Covers ms) in
    (less, omega (arith, bound, pending-length (uids_of ms) c.accounted))

-- A replay of the event that named a MicroVM changes nothing, and reports nothing as new.
pub add-add : (c : UidCount) (uid : String) → add (add c uid).0 uid ≡ ((add c uid).0, false, false)
unfolding add take
add-add c uid = ground (arith, contains-put uid uid c.named, eq_iff uid uid)

-- A replay of the event that removed a MicroVM changes nothing.
pub remove-remove :
    (c : UidCount) (uid : String) → remove (remove c uid).0 uid ≡ ((remove c uid).0, false)
unfolding remove
remove-remove c uid = ground (arith, contains-drop uid uid c.named, eq_iff uid uid)
