-- ===== src/Scheduler/Profiles/Priority.antt =====
-- `ResolveProfile`: which of several Profiles a Job gets.
use flintlock_runner.Prelude.{
  ◌≡◌, refl, ap, inl, inr, Bool, true, false, not, List, [], ◌∷◌, ◌++◌, Option, none, some, String,
  str_eq, arith, if◌then◌else◌, find, all, Bool-cases,
}
use flintlock_runner.Scheduler.State.{Profile}
use flintlock_runner.Scheduler.Profiles.{resolve_profile, default_profile, names_image, globs_image}

-- The first element that passes a test, told by where it stands.
pub data IsFirst {ℓ} {A : Type ℓ} (test : A → Bool) (xs : List A) : Option A → Type ℓ where
  none_passes : all (λ x. not (test x)) xs ≡ true → IsFirst test xs none
  passes_at :
      (before after : List A) (x : A)
      → xs ≡ before ++ x ∷ after
      → all (λ y. not (test y)) before ≡ true
      → test x ≡ true
      → IsFirst test xs (some x)

IsFirst-cons {ℓ} :
    {A : Type ℓ} (test : A → Bool) (x : A) (xs : List A) {o : Option A}
    → test x ≡ false
    → IsFirst test xs o
    → IsFirst test (x ∷ xs) o
IsFirst-cons test x xs fails (none_passes a) = none_passes (ground (arith, fails, a))
IsFirst-cons test x xs fails (passes_at before after y at b c) =
    passes_at (x ∷ before) after y (ap (λ ys. x ∷ ys) at) (ground (arith, fails, b)) c

find-IsFirst {ℓ} : {A : Type ℓ} (test : A → Bool) (xs : List A) → IsFirst test xs (find test xs)
find-IsFirst test [] = none_passes refl
find-IsFirst {A = A} test (x ∷ xs) = elim (Bool-cases (test x)) [
  | inl hit ↦ rw hit (passes_at [] xs x refl refl hit)
  | inr miss ↦ rw miss (IsFirst-cons test x xs miss (find-IsFirst test xs))
]

-- The order of preference over three answers.
abbrev pub prefer : Option Profile → Option Profile → Option Profile → Option Profile
prefer (some p) glob default = some p
prefer none (some p) default = some p
prefer none none default = default

-- What the three searches find, and what comes of it.
pub record IsResolution (path_match : String → String → Bool) (ps : List Profile) (allow : Bool)
    (image : String) (result : Option Profile) : Type 0 where
  pub exact : Option Profile
  pub glob : Option Profile
  pub default : Option Profile
  pub exact_first : IsFirst (names_image image) ps exact
  pub glob_first : IsFirst (globs_image path_match image) ps glob
  pub default_first : IsFirst (λ p. p.default) ps default
  pub chosen :
      result
      ≡ (if str_eq image "" then default else prefer exact glob (if allow then default else none))

-- A Job with an image gets the first Profile that names it, or else the first with a matching glob, or
-- else the first default Profile if the configuration allows it; a Job without one gets the default.
pub resolve_profile-IsResolution :
    (path_match : String → String → Bool) (ps : List Profile) (allow : Bool) (image : String)
    → IsResolution path_match ps allow image (resolve_profile path_match ps allow image)
unfolding resolve_profile default_profile
resolve_profile-IsResolution path_match ps allow image = record {
  exact = find (names_image image) ps;
  glob = find (globs_image path_match image) ps;
  default = find (λ p. p.default) ps;
  exact_first = find-IsFirst (names_image image) ps;
  glob_first = find-IsFirst (globs_image path_match image) ps;
  default_first = find-IsFirst (λ p. p.default) ps;
  chosen = ground arith;
}
