-- ===== src/Scheduler/Capacity/Counting.antt =====
-- One step of the accounting of the Profiles' limits, counted.
use flintlock_runner.Prelude.{
  ℕ, ◌+◌, ◌-◌, ◌<◌, ◌≡◌, refl, Bool, true, List, [], ◌∷◌, none, some, arith, if◌then◌else◌, nat_key,
  string_key, String, str_eq, eq_iff, count_by, ==_iff,
}
use flintlock_runner.Prelude.Map.{lookup, insert, delete, lookup-insert, lookup-delete, IsMap}
use flintlock_runner.Scheduler.State.{Profile, Handle, Impl}
use flintlock_runner.Scheduler.Capacity.{use_of, enter_profile, release_profile, finish}

-- How often a name stands in a list.
abbrev pub tally : String → List String → ℕ
tally name = count_by (λ n. str_eq n name)

pub use_of-release_profile :
    (s : Impl) (name other : String)
    → 0 < use_of s name
    → use_of (release_profile s name) other + (if str_eq name other then 1 else 0) ≡ use_of s other
unfolding use_of release_profile
use_of-release_profile s name other h = ground (
  arith,
  lookup-insert name other (use_of s name - 1) s.profile_use,
  lookup-delete name other s.profile_use,
  eq_iff name other,
)

pub use_of-enter_profile :
    (s : Impl) (p : Profile) (other : String)
    → (enter_profile s p).1 ≡ true
    → use_of (enter_profile s p).0 other ≡ (if str_eq p.name other then 1 else 0) + use_of s other
unfolding use_of enter_profile
use_of-enter_profile s p other h =
    ground
      (arith, lookup-insert p.name other (use_of s p.name + 1) s.profile_use, eq_iff p.name other)

pub use_of-finish :
    (s : Impl) (h : Handle) (other : String)
    → (finish s h).1 ≡ true
    → 0 < use_of s h.alloc.profile
    → use_of (finish s h).0 other + (if str_eq h.alloc.profile other then 1 else 0) ≡ use_of s other
unfolding use_of finish
use_of-finish s h other ended pos = ground (
  arith,
  lookup-insert h.alloc.profile other (use_of s h.alloc.profile - 1) s.profile_use,
  lookup-delete h.alloc.profile other s.profile_use,
  eq_iff h.alloc.profile other,
)

pub enter_profile_below :
    (s : Impl) (p : Profile)
    → (enter_profile s p).1 ≡ true
    → 0 < p.max_concurrency
    → use_of s p.name < p.max_concurrency
unfolding enter_profile
enter_profile_below s p h k = ground arith

-- The Profiles of the live Allocations, by the Allocation's id.
abbrev pub tally_live : String → List (ℕ × String) → ℕ
tally_live name = count_by (λ (kv : ℕ × String). str_eq kv.1 name)

abbrev pub one_if : Bool → ℕ
one_if b = if b then 1 else 0

pub tally_live-delete_absent :
    (other : String) (k : ℕ) (m : List (ℕ × String))
    → lookup k m ≡ none
    → tally_live other (delete k m) ≡ tally_live other m
unfolding lookup delete
tally_live-delete_absent other k [] h = refl
tally_live-delete_absent other k ((j, w) ∷ m) h = ground (arith, tally_live-delete_absent other k m)

pub tally_live-delete :
    (other name : String) (k : ℕ) (m : List (ℕ × String))
    → IsMap m
    → lookup k m ≡ some name
    → tally_live other (delete k m) + one_if (str_eq name other) ≡ tally_live other m
unfolding lookup delete
tally_live-delete other name k [] h e = cc e
tally_live-delete other name k ((j, w) ∷ m) h e =
    ground
      (arith, tally_live-delete other name k m h.1, tally_live-delete_absent other k m, ==_iff j k)

pub tally_live-insert :
    (other name : String) (k : ℕ) (m : List (ℕ × String))
    → lookup k m ≡ none
    → tally_live other (insert k name m) ≡ one_if (str_eq name other) + tally_live other m
unfolding lookup insert
tally_live-insert other name k [] e = ground arith
tally_live-insert other name k ((j, w) ∷ m) e = ground (arith, tally_live-insert other name k m)
