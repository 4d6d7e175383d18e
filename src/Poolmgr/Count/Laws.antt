-- ===== src/Poolmgr/Count/Laws.antt =====
-- The invariant of one count, and what folding the Pool Manager's own total into it gives.
use flintlock_runner.Prelude.{
  ℕ, ◌<◌, ◌≡◌, refl, true, false, ◌||◌, List, [], ◌∷◌, String, arith, length, string_key, max,
}
use flintlock_runner.Prelude.Words.{half32}
use flintlock_runner.Prelude.Uids.{
  contains, put, IsUnique, contains-put, put-IsUnique, drop-IsUnique,
}
use flintlock_runner.Poolmgr.Count.{
  UidCount, new_uid_count, total, take, add, remove, account_all, surplus, rebaseline, reset,
  leaves,
}

pub record IsCount (c : UidCount) : Type 0 where
  pub named_unique : IsUnique c.named
  pub accounted_unique : IsUnique c.accounted
  pub unnamed_positive : c.unnamed < half32
  pub settled : c.unnamed ≡ 0 → c.accounted ≡ []

account_all-IsUnique : (us acc : List String) → IsUnique acc → IsUnique (account_all us acc)
unfolding account_all
account_all-IsUnique [] acc h = h
account_all-IsUnique (u ∷ us) acc h = account_all-IsUnique us (put u acc) (put-IsUnique u acc h)

pub take-IsCount : (c : UidCount) (uid : String) → IsCount c → IsCount (take c uid).0
unfolding take
take-IsCount c uid h = ground (arith, put-IsUnique uid c.accounted h.accounted_unique)

pub add-IsCount : (c : UidCount) (uid : String) → IsCount c → IsCount (add c uid).0
unfolding add
add-IsCount c uid h = ground (
  arith,
  take-IsCount (record c { named = put uid c.named }) uid,
  put-IsUnique uid c.named h.named_unique,
)

pub remove-IsCount : (c : UidCount) (uid : String) → IsCount c → IsCount (remove c uid).0
unfolding remove
remove-IsCount c uid h = ground (arith, drop-IsUnique uid c.named h.named_unique)

pub leaves-IsCount : (c : UidCount) (uid : String) → IsCount c → IsCount (leaves c uid)
unfolding leaves
leaves-IsCount c uid h = ground (arith, remove-IsCount c uid, take-IsCount (remove c uid).0 uid)

surplus-lt : (c : UidCount) (n : ℕ) → surplus c n < half32
unfolding surplus
surplus-lt c n = ground arith

pub rebaseline-IsCount : (c : UidCount) (n : ℕ) → IsCount c → IsCount (rebaseline c n)
unfolding rebaseline
rebaseline-IsCount c n h = ground (arith, surplus-lt c n, account_all-IsUnique c.named [] tt)

pub reset-IsCount : (c : UidCount) → IsCount (reset c)
unfolding reset
reset-IsCount c = ground arith

pub new-IsCount : IsCount new_uid_count
unfolding new_uid_count
new-IsCount = ground arith

-- A total that the Pool Manager reports is authoritative upward only: the count becomes that total, or
-- the number of named MicroVMs if that is more.
pub total-rebaseline :
    (c : UidCount) (n : ℕ)
    → n < half32
    → length c.named < half32
    → total (rebaseline c n) ≡ max n (length c.named)
unfolding total rebaseline
total-rebaseline c n h k = ground arith

pub contains-account_all :
    (us acc : List String) (u : String)
    → contains u (account_all us acc) ≡ (contains u us || contains u acc)
unfolding account_all contains
contains-account_all [] acc u = refl
contains-account_all (x ∷ us) acc u =
    ground (arith, contains-account_all us (put x acc) u, contains-put x u acc)

-- After a total is folded in, no uid that an event has named can take an unnamed MicroVM.
pub take-rebaseline :
    (c : UidCount) (n : ℕ) (uid : String)
    → contains uid c.named ≡ true
    → take (rebaseline c n) uid ≡ (rebaseline c n, false)
unfolding take rebaseline
take-rebaseline c n uid h = ground (arith, contains-account_all c.named [] uid, surplus-lt c n)
