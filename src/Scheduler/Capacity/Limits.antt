-- ===== src/Scheduler/Capacity/Limits.antt =====
-- The concurrency limits of the Profiles, as the callers of the accounting use it.
use flintlock_runner.Prelude.{
  ℕ, ◌+◌, ◌≤◌, ◌<◌, ◌≡◌, true, List, ◌∷◌, none, some, is_some, nat_key, string_key, String, str_eq,
  ◌⊎◌,
}
use flintlock_runner.Prelude.Map.{lookup, insert, delete, IsMap}
use flintlock_runner.Prelude.Uids.{contains}
use flintlock_runner.Scheduler.State.{Profile, Handle, Impl}
use flintlock_runner.Scheduler.Capacity.{use_of, enter_profile, leave_profile, convert, finish}
use flintlock_runner.Scheduler.Capacity.Counting.{tally, tally_live, one_if}

-- The accounting beside what it accounts for: the Profiles that allocations in flight have entered,
-- and the live Allocations.
pub record Ledger : Type 0 where
  pub impl : Impl
  pub entering : List String
  pub live : List (ℕ × String)

-- One entry of that name goes.
abbrev pub Takes : String → List String → List String → Type 0
Takes name before after =
    (other : String) → tally other before ≡ one_if (str_eq name other) + tally other after

-- `cap` is the largest maximum that a Profile of that name has had over all reloads, or 0 where one had
-- none.
abbrev pub IsWithin : (String → ℕ) → Profile → Type 0
IsWithin cap p = (cap p.name ≡ 0) ⊎ ((0 < p.max_concurrency) × (p.max_concurrency ≤ cap p.name))

-- How the callers use the accounting, with whatever maximum a Profile has at the time: an allocation enters
-- its Profile, and then either leaves it or is converted, once; a handle is converted once, and its Profile
-- never changes.
pub data Step (cap : String → ℕ) (l : Ledger) : Ledger → Type 0 where
  enters :
      (p : Profile)
      → IsWithin cap p
      → (enter_profile l.impl p).1 ≡ true
      → Step cap l (record l { impl = (enter_profile l.impl p).0; entering = p.name ∷ l.entering })
  leaves :
      (p : Profile) (rest : List String)
      → Takes p.name l.entering rest
      → Step cap l (record l { impl = leave_profile l.impl p; entering = rest })
  converts :
      (id : ℕ) (h : Handle) (rest : List String)
      → Takes h.alloc.profile l.entering rest
      → lookup h.id l.live ≡ none
      → (convert l.impl id h).1 ≡ true
      → Step cap l (record {
        impl = (convert l.impl id h).0;
        entering = rest;
        live = insert h.id h.alloc.profile l.live;
      })
  ends :
      (h : Handle)
      → (contains h.id l.impl.allocations ≡ true → lookup h.id l.live ≡ some h.alloc.profile)
      → Step cap l (record l { impl = (finish l.impl h).0; live = delete h.id l.live })
  others :
      (s : Impl)
      → s.profile_use ≡ l.impl.profile_use
      → s.allocations ≡ l.impl.allocations
      → Step cap l (record l { impl = s })

pub data Reach (cap : String → ℕ) (l : Ledger) : Ledger → Type 0 where
  here : Reach cap l l
  next : {m n : Ledger} → Reach cap l m → Step cap m n → Reach cap l n

pub record IsBalanced (cap : String → ℕ) (l : Ledger) : Type 0 where
  pub maps : IsMap l.live
  pub known : (id : ℕ) → contains id l.impl.allocations ≡ is_some (lookup id l.live)
  pub balanced :
      (name : String) → use_of l.impl name ≡ tally name l.entering + tally_live name l.live
  pub capped : (name : String) → 0 < cap name → use_of l.impl name ≤ cap name
