-- ===== src/Scheduler/Profiles.antt =====
-- internal/scheduler/profile.go, and the look-ups of Profiles in scheduler.go. `path.Match` is a
-- parameter, which says whether a pattern is well formed and matches.
pub mod Priority
mod Tests
use flintlock_runner.Prelude.{
  ℕ, Bool, true, false, not, ◌&&◌, List, [], ◌∷◌, Option, none, some, String, str_eq, if◌then◌else◌,
  any, find, map,
}
use flintlock_runner.Poolmgr.Event.{PoolRef, ref_key}
use flintlock_runner.Scheduler.State.{Profile}

-- The first Profile that one of the tests of its names passes: the two nested loops.
abbrev pub names_image : String → Profile → Bool
names_image image p = any (λ name. str_eq name image) p.images

abbrev pub globs_image : (String → String → Bool) → String → Profile → Bool
globs_image path_match image p = any (λ pattern. path_match pattern image) p.image_globs

unfoldable pub default_profile : List Profile → Option Profile
default_profile ps = find (λ p. p.default) ps

-- `allow`: the option that lets an image of no Profile have the default one.
unfoldable pub resolve_profile :
    (String → String → Bool) → List Profile → Bool → String → Option Profile
unfolding default_profile
resolve_profile path_match ps allow image =
    if str_eq image "" then default_profile ps else elim (find (names_image image) ps) [
      | some p ↦ some p
      | none ↦ elim (find (globs_image path_match image) ps) [
        | some p ↦ some p
        | none ↦ if not allow then none else default_profile ps
      ]
    ]

unfoldable pub find_profile_by_pool : List Profile → PoolRef → Option Profile
find_profile_by_pool ps ref = find (λ p. ref_key.beq p.pool_ref ref) ps

unfoldable pub profile_by_name : List Profile → String → Option Profile
profile_by_name ps name = find (λ p. str_eq p.name name) ps

-- A Profile of the configuration, whose Pool may be named in full, in part or not at all.
unfoldable pub resolve_ref : String → Profile → PoolRef
resolve_ref namespace p = record {
  name = if str_eq p.pool_ref.name "" then p.name else p.pool_ref.name;
  namespace = if str_eq p.pool_ref.namespace "" then namespace else p.pool_ref.namespace;
}

unfoldable pub resolve_profiles : List Profile → String → List Profile
unfolding resolve_ref
resolve_profiles ps namespace =
    map {A = Profile} {B = Profile} (λ p. record p { pool_ref = resolve_ref namespace p }) ps
