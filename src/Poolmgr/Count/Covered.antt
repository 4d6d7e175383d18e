-- ===== src/Poolmgr/Count/Covered.antt =====
-- Why a replay takes nothing: while a count has unnamed MicroVMs, every named uid is accounted.
use flintlock_runner.Prelude.{ℕ, ◌<◌, ◌≡◌, refl, ◌≢◌, true, String, eq_iff, arith, string_key, []}
use flintlock_runner.Prelude.Words.{half32}
use flintlock_runner.Prelude.Uids.{contains, contains-put, contains-drop}
use flintlock_runner.Poolmgr.Count.{
  UidCount, new_uid_count, take, add, remove, rebaseline, reset, leaves,
}
use flintlock_runner.Poolmgr.Count.Laws.{contains-account_all}

abbrev pub CoveredAt : UidCount → String → Type 0
CoveredAt c u = contains u c.named ≡ true → c.unnamed ≢ 0 → contains u c.accounted ≡ true

abbrev pub IsCovered : UidCount → Type 0
IsCovered c = (u : String) → CoveredAt c u

take-CoveredAt : (c : UidCount) (uid u : String) → CoveredAt c u → CoveredAt (take c uid).0 u
unfolding take
take-CoveredAt c uid u h named some_left = ground (arith, contains-put uid u c.accounted)

add-CoveredAt :
    (c : UidCount) (uid u : String) → c.unnamed < half32 → CoveredAt c u → CoveredAt (add c uid).0 u
unfolding add take
add-CoveredAt c uid u bound h named some_left =
    ground (arith, contains-put uid u c.accounted, contains-put uid u c.named, eq_iff uid u)

remove-CoveredAt : (c : UidCount) (uid u : String) → CoveredAt c u → CoveredAt (remove c uid).0 u
unfolding remove
remove-CoveredAt c uid u h named some_left = ground (arith, contains-drop uid u c.named)

pub take-IsCovered : (c : UidCount) (uid : String) → IsCovered c → IsCovered (take c uid).0
take-IsCovered c uid h u = take-CoveredAt c uid u (h u)

pub add-IsCovered :
    (c : UidCount) (uid : String) → c.unnamed < half32 → IsCovered c → IsCovered (add c uid).0
add-IsCovered c uid bound h u = add-CoveredAt c uid u bound (h u)

pub remove-IsCovered : (c : UidCount) (uid : String) → IsCovered c → IsCovered (remove c uid).0
remove-IsCovered c uid h u = remove-CoveredAt c uid u (h u)

pub leaves-IsCovered : (c : UidCount) (uid : String) → IsCovered c → IsCovered (leaves c uid)
unfolding leaves
leaves-IsCovered c uid h u named some_left = ground (
  arith,
  remove-CoveredAt c uid u (h u),
  take-CoveredAt (remove c uid).0 uid u (remove-CoveredAt c uid u (h u)),
)

pub rebaseline-IsCovered : (c : UidCount) (n : ℕ) → IsCovered (rebaseline c n)
unfolding rebaseline
rebaseline-IsCovered c n u named some_left = ground (arith, contains-account_all c.named [] u)

pub reset-IsCovered : (c : UidCount) → IsCovered (reset c)
unfolding reset
reset-IsCovered c u named some_left = ground arith

pub new-IsCovered : IsCovered new_uid_count
unfolding new_uid_count
new-IsCovered u named some_left = ground arith

-- A replay of the event that took a MicroVM out of a count changes nothing.
pub leaves-leaves :
    (c : UidCount) (uid : String) → IsCovered c → leaves (leaves c uid) uid ≡ leaves c uid
unfolding leaves remove take
leaves-leaves c uid h =
    ground (
      arith,
      h uid,
      contains-drop uid uid c.named,
      contains-put uid uid c.accounted,
      eq_iff uid uid,
    )

-- Folding the same total in twice is folding it in once.
pub rebaseline-rebaseline : (c : UidCount) (n : ℕ) → rebaseline (rebaseline c n) n ≡ rebaseline c n
unfolding rebaseline
rebaseline-rebaseline c n = refl
