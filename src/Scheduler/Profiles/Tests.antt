-- ===== src/Scheduler/Profiles/Tests.antt =====
-- Runs of the resolution of Profiles.
use flintlock_runner.Prelude.{◌≡◌, refl, Bool, true, false, ◌||◌, [], ◌∷◌, some, String, str_eq}
use flintlock_runner.Scheduler.State.{Profile}
use flintlock_runner.Scheduler.Examples.{small}
use flintlock_runner.Scheduler.Profiles.{resolve_profile}
use flintlock_runner.Scheduler.Profiles.Priority.{IsResolution, resolve_profile-IsResolution}

abbrev fallback : Profile
fallback = record small {
  name = "fallback";
  images = "gopher" ∷ [];
  image_globs = [];
  default = true;
}

abbrev go_glob : String → String → Bool
go_glob pattern image = str_eq image "gopher" || str_eq image "goat"

exact_wins : resolve_profile go_glob (small ∷ fallback ∷ []) false "gopher" ≡ some fallback
unfolding resolve_profile
exact_wins = refl

resolve_profile-IsResolution_example :
    IsResolution go_glob
      (small ∷ fallback ∷ [])
      false
      "goat"
      (resolve_profile go_glob (small ∷ fallback ∷ []) false "goat")
resolve_profile-IsResolution_example =
    resolve_profile-IsResolution go_glob (small ∷ fallback ∷ []) false "goat"
