-- ===== src/Config/Image/Parts.antt =====
-- The parts of an image reference, and the reference that they make.
use flintlock_runner.Prelude.{
  ℕ, ◌≡◌, refl, sym, ap, ◌∙◌, true, false, not, ◌&&◌, ◌||◌, [], ◌∷◌, ◌++◌, none, some, arith,
  if◌then◌else◌, length, Bool-cases, inl, inr,
}
use flintlock_runner.Config.Text.{
  Text, last_index, lacks, IsSplit, absent, apart, split, take-append, drop-append,
  last_index-lacks, last_index-append,
}
use flintlock_runner.Config.Image.{
  ImageRef, is_empty, parsed, refused, is_behind, with_repository, parse_tag, empty_tag,
}

-- A part with the character that leads to it, where there is one.
abbrev pub led_by : ℕ → Text → Text
led_by c [] = []
led_by c (d ∷ s) = c ∷ d ∷ s

abbrev pub render_tagged : ImageRef → Text
render_tagged r = r.repository ++ led_by b':' r.tag

abbrev pub render : ImageRef → Text
render r = render_tagged r ++ led_by b'@' r.digest

-- A colon in the repository is before its last slash, unless a tag follows.
pub record IsTagged (r : ImageRef) : Type 0 where
  pub repository_there : is_empty r.repository ≡ false
  pub tag_clean : (lacks b':' r.tag && lacks b'/' r.tag) ≡ true
  pub port_only :
      (not (is_empty r.tag)
        || not (is_behind (last_index b':' r.repository) (last_index b'/' r.repository)))
      ≡ true

last_index-is_some :
    (c : ℕ) (s : Text) → lacks c s ≡ (elim (last_index c s) [ none ↦ true | some i ↦ false ])
unfolding last_index
last_index-is_some c [] = refl
last_index-is_some c (d ∷ s) = ground (arith, last_index-is_some c s)

is_behind-lacks :
    (before after : Text)
    → is_behind (some (length before)) (last_index b'/' (before ++ b':' ∷ after)) ≡ lacks b'/' after
unfolding is_behind last_index
is_behind-lacks [] after = ground (arith, last_index-is_some b'/' after)
is_behind-lacks (d ∷ before) after = ground (arith, is_behind-lacks before after)

with_repository_sound :
    (s tag digest : Text) (r : ImageRef)
    → with_repository s tag digest ≡ parsed r
    → (r.repository ≡ s) × (r.tag ≡ tag) × (r.digest ≡ digest) × (is_empty s ≡ false)
unfolding with_repository
with_repository_sound [] tag digest r at = cc
with_repository_sound (c ∷ s) tag digest r at = ground (arith, at)

parse_tag-absent :
    (s digest : Text) → lacks b':' s ≡ true → parse_tag s digest ≡ with_repository s [] digest
unfolding parse_tag
parse_tag-absent s digest clean = ground (arith, last_index-lacks b':' s clean)

parse_tag-apart :
    (before after digest : Text)
    → lacks b':' after ≡ true
    → parse_tag (before ++ b':' ∷ after) digest ≡ (
        if lacks b'/' after
        then (if is_empty after then refused empty_tag else with_repository before after digest)
        else with_repository (before ++ b':' ∷ after) [] digest)
unfolding parse_tag
parse_tag-apart before after digest clean = ground (
  arith,
  last_index-append b':' before after clean,
  take-append before (b':' ∷ after),
  drop-append before b':' after,
  is_behind-lacks before after,
)

pub append-nil_text : (s : Text) → s ++ [] ≡ s
append-nil_text [] = refl
append-nil_text (c ∷ s) = cc (append-nil_text s)

pub led_by_some : (c : ℕ) (s : Text) → is_empty s ≡ false → led_by c s ≡ c ∷ s
led_by_some c [] there = cc
led_by_some c (d ∷ s) there = refl

untagged :
    (s digest : Text) (r : ImageRef)
    → is_behind (last_index b':' s) (last_index b'/' s) ≡ false
    → with_repository s [] digest ≡ parsed r
    → (r.digest ≡ digest) × (render_tagged r ≡ s) × IsTagged r
untagged s digest r port at =
    let (repo, tag, dig, there) = with_repository_sound s [] digest r at in
    (
      dig,
      rw (repo, tag) (append-nil_text s),
      record {
        repository_there = rw repo there;
        tag_clean = rw tag refl;
        port_only = rw (repo, tag) (ground (arith, port));
      },
    )

tagged :
    (before after digest : Text) (r : ImageRef)
    → (lacks b':' after && lacks b'/' after) ≡ true
    → is_empty after ≡ false
    → with_repository before after digest ≡ parsed r
    → (r.digest ≡ digest) × (render_tagged r ≡ before ++ b':' ∷ after) × IsTagged r
tagged before after digest r clean there at =
    let (repo, tag, dig, repo_there) = with_repository_sound before after digest r at in
    (
      dig,
      rw (repo, tag, led_by_some b':' after there) refl,
      record {
        repository_there = rw repo repo_there;
        tag_clean = rw tag clean;
        port_only = rw (tag, there) refl;
      },
    )

apart_sound :
    (before after digest : Text) (r : ImageRef)
    → lacks b':' after ≡ true
    → parse_tag (before ++ b':' ∷ after) digest ≡ parsed r
    → (r.digest ≡ digest) × (render_tagged r ≡ before ++ b':' ∷ after) × IsTagged r
apart_sound before after digest r clean at = elim (Bool-cases (lacks b'/' after)) [
  | inr slash ↦
      untagged (before ++ b':' ∷ after) digest r
        (ground
          (arith, slash, last_index-append b':' before after clean, is_behind-lacks before after))
        (ground (arith, slash, at, parse_tag-apart before after digest clean))
  | inl bare ↦ elim (Bool-cases (is_empty after)) [
    | inl nothing ↦
        absurd (ground (arith, bare, nothing, at, parse_tag-apart before after digest clean))
    | inr there ↦
        tagged before after digest r (ground (arith, bare, clean)) there
          (ground (arith, bare, there, at, parse_tag-apart before after digest clean))
  ]
]

pub parse_tag_sound :
    (s digest : Text) (r : ImageRef)
    → parse_tag s digest ≡ parsed r
    → (r.digest ≡ digest) × (render_tagged r ≡ s) × IsTagged r
parse_tag_sound s digest r at = by_split (split b':' s)
  where
    by_split : IsSplit b':' s → (r.digest ≡ digest) × (render_tagged r ≡ s) × IsTagged r
    by_split (absent clean) =
        untagged s digest r (unfold is_behind in rw (last_index-lacks b':' s clean) refl)
          (sym (parse_tag-absent s digest clean) ∙ at)
    by_split (apart before after e clean) =
        rw e (apart_sound before after digest r clean (sym (ap (λ u. parse_tag u digest) e) ∙ at))

parse_tag-untagged :
    (s digest : Text)
    → is_behind (last_index b':' s) (last_index b'/' s) ≡ false
    → parse_tag s digest ≡ with_repository s [] digest
unfolding parse_tag
parse_tag-untagged s digest port = ground (arith, port)

with_repository_complete :
    (s tag digest : Text)
    → is_empty s ≡ false
    → with_repository s tag digest ≡ parsed (record { repository = s; tag = tag; digest = digest })
unfolding with_repository
with_repository_complete [] tag digest there = cc
with_repository_complete (c ∷ s) tag digest there = refl

complete :
    (repo tag digest : Text)
    → IsTagged (record { repository = repo; tag = tag; digest = digest })
    → parse_tag (repo ++ led_by b':' tag) digest
      ≡ parsed (record { repository = repo; tag = tag; digest = digest })
complete repo [] digest ok =
    rw (append-nil_text repo, parse_tag-untagged repo digest (ground (arith, ok.port_only)))
      (with_repository_complete repo [] digest ok.repository_there)
complete repo (c ∷ tag) digest ok = ground (
  arith,
  ok.tag_clean,
  parse_tag-apart repo (c ∷ tag) digest,
  with_repository_complete repo (c ∷ tag) digest ok.repository_there,
)

-- A tagged reference is read as its parts.
pub parse_tag_complete :
    (r : ImageRef) → IsTagged r → parse_tag (render_tagged r) r.digest ≡ parsed r
parse_tag_complete r ok = complete r.repository r.tag r.digest ok
