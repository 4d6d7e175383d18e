-- ===== src/Poolmgr/Count.antt =====
-- internal/poolmgr/tracker.go, `uidCount`: one of a Pool's counts, kept by uid. An `int32` is its bit
-- pattern, and a set of uids is a list without repetition.
pub mod Laws
pub mod Replay
pub mod Covered
mod Tests
use flintlock_runner.Prelude.{
  string_key, ℕ, ◌==◌, Bool, true, false, ◌||◌, List, [], ◌∷◌, String, str_eq, if◌then◌else◌,
  length,
}
use flintlock_runner.Prelude.Words.{int32, add32, sub32, lt32, le32}
use flintlock_runner.Prelude.Uids.{contains, put, drop}

pub record UidCount : Type 0 where
  pub named : List String
  pub unnamed : ℕ
  pub accounted : List String

unfoldable pub new_uid_count : UidCount
new_uid_count = record { named = []; unnamed = 0; accounted = [] }

unfoldable pub total : UidCount → ℕ
total c = add32 (int32 (length c.named)) c.unnamed

unfoldable pub take : UidCount → String → UidCount × Bool
take c uid =
    if str_eq uid "" || le32 c.unnamed 0
    then (c, false)
    else if contains uid c.accounted
    then (c, false)
    else (
      record c {
        unnamed = sub32 c.unnamed 1;
        accounted = if sub32 c.unnamed 1 == 0 then [] else put uid c.accounted;
      },
      true,
    )

-- The count, whether the uid was added, and whether that took an unnamed one.
unfoldable pub add : UidCount → String → UidCount × Bool × Bool
add c uid =
    if str_eq uid ""
    then (c, false, false)
    else if contains uid c.named
    then (c, false, false)
    else let (c', took) = take (record c { named = put uid c.named }) uid in (c', true, took)

unfoldable pub remove : UidCount → String → UidCount × Bool
remove c uid =
    if str_eq uid ""
    then (c, false)
    else if contains uid c.named
    then (record c { named = drop uid c.named }, true)
    else (c, false)

-- The loop that marks every named uid accounted.
unfoldable pub account_all : List String → List String → List String
account_all [] accounted = accounted
account_all (uid ∷ uids) accounted = account_all uids (put uid accounted)

-- `total - named`, at least 0.
unfoldable pub surplus : UidCount → ℕ → ℕ
surplus c total = let n = sub32 total (int32 (length c.named)) in if lt32 n 0 then 0 else n

unfoldable pub rebaseline : UidCount → ℕ → UidCount
unfolding surplus
rebaseline c total = record c {
  unnamed = surplus c total;
  accounted = if surplus c total == 0 then [] else account_all c.named [];
}

unfoldable pub reset : UidCount → UidCount
reset c = record c { named = []; accounted = []; unnamed = 0 }

-- Takes a MicroVM out of a count, named or not.
unfoldable pub leaves : UidCount → String → UidCount
leaves c uid = let (c', found) = remove c uid in if found then c' else (take c' uid).0
