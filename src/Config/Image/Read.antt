-- ===== src/Config/Image/Read.antt =====
-- `ParseImageRef` against the references that it reads.
use flintlock_runner.Prelude.{
  ◌≡◌, refl, sym, ap, ◌∙◌, true, false, not, ◌||◌, ◌↔◌, [], ◌∷◌, ◌++◌, arith, if◌then◌else◌,
  Bool-cases, inl, inr,
}
use flintlock_runner.Config.Text.{
  Text, trim, lacks, IsSplit, absent, apart, split, take-append, drop-append, last_index-lacks,
  last_index-append,
}
use flintlock_runner.Config.Image.{
  ImageRef, is_empty, parsed, refused, is_digest, parse_tag, parse_trimmed, parse_image_ref,
  malformed_digest, empty_reference,
}
use flintlock_runner.Config.Image.Parts.{
  led_by, render_tagged, render, IsTagged, parse_tag_sound, parse_tag_complete, led_by_some,
  append-nil_text,
}

-- A digest is well formed and has no other at-sign in it; without one there is none in the rest.
pub record IsImageRef (r : ImageRef) : Type 0 where
  pub tagged : IsTagged r
  pub digest_clean : lacks b'@' r.digest ≡ true
  pub digest_formed : (is_empty r.digest || is_digest r.digest) ≡ true
  pub no_at_sign : (not (is_empty r.digest) || lacks b'@' (render_tagged r)) ≡ true

parse_trimmed-absent :
    (s : Text) → lacks b'@' s ≡ true → is_empty s ≡ false → parse_trimmed s ≡ parse_tag s []
unfolding parse_trimmed
parse_trimmed-absent [] clean there = cc
parse_trimmed-absent (c ∷ s) clean there = ground (arith, last_index-lacks b'@' (c ∷ s) clean)

parse_trimmed-apart :
    (before after : Text)
    → lacks b'@' after ≡ true
    → parse_trimmed (before ++ b'@' ∷ after)
      ≡ (if is_digest after then parse_tag before after else refused malformed_digest)
unfolding parse_trimmed
parse_trimmed-apart [] after clean = ground (
  arith,
  last_index-append b'@' [] after clean,
  take-append [] (b'@' ∷ after),
  drop-append [] b'@' after,
)
parse_trimmed-apart (c ∷ before) after clean = ground (
  arith,
  last_index-append b'@' (c ∷ before) after clean,
  take-append (c ∷ before) (b'@' ∷ after),
  drop-append (c ∷ before) b'@' after,
)

is_digest-there : (d : Text) → is_digest d ≡ true → is_empty d ≡ false
unfolding is_digest
is_digest-there [] formed = cc
is_digest-there (c ∷ d) formed = refl

without_digest :
    (s : Text) (r : ImageRef)
    → lacks b'@' s ≡ true
    → parse_tag s [] ≡ parsed r
    → IsImageRef r × (render r ≡ s)
without_digest s r clean at =
    let (dig, shown, ok) = parse_tag_sound s [] r at in
    (
      record {
        tagged = ok;
        digest_clean = rw dig refl;
        digest_formed = rw dig refl;
        no_at_sign = rw (dig, shown) clean;
      },
      rw (dig, append-nil_text (render_tagged r)) shown,
    )

with_digest :
    (before after : Text) (r : ImageRef)
    → lacks b'@' after ≡ true
    → is_digest after ≡ true
    → parse_tag before after ≡ parsed r
    → IsImageRef r × (render r ≡ before ++ b'@' ∷ after)
with_digest before after r clean formed at =
    let (dig, shown, ok) = parse_tag_sound before after r at in
    let there = is_digest-there after formed in
    (
      record {
        tagged = ok;
        digest_clean = rw dig clean;
        digest_formed = rw dig (ground (arith, formed));
        no_at_sign = rw (dig, there) refl;
      },
      rw (dig, led_by_some b'@' after there) (ap (λ t. t ++ b'@' ∷ after) shown),
    )

parse_trimmed-empty : (s : Text) → is_empty s ≡ true → parse_trimmed s ≡ refused empty_reference
unfolding parse_trimmed
parse_trimmed-empty [] nothing = refl
parse_trimmed-empty (c ∷ s) nothing = cc

split_sound :
    (s : Text) (r : ImageRef)
    → IsSplit b'@' s
    → parse_trimmed s ≡ parsed r
    → IsImageRef r × (render r ≡ s)
split_sound s r (absent clean) at = elim (Bool-cases (is_empty s)) [
  | inl nothing ↦ absurd (cc (at, parse_trimmed-empty s nothing))
  | inr there ↦ without_digest s r clean (sym (parse_trimmed-absent s clean there) ∙ at)
]
split_sound s r (apart before after e clean) at =
    let at' : parse_trimmed (before ++ b'@' ∷ after) ≡ parsed r = sym (ap parse_trimmed e) ∙ at in
    elim (Bool-cases (is_digest after)) [
      | inl formed ↦ rw e (
          with_digest before after r clean formed
            (ground (arith, at', formed, parse_trimmed-apart before after clean)))
      | inr broken ↦ absurd (ground (arith, at', broken, parse_trimmed-apart before after clean))
    ]

append-there : (s t : Text) → is_empty s ≡ false → is_empty (s ++ t) ≡ false
append-there [] t there = cc
append-there (c ∷ s) t there = refl

complete :
    (repo tag digest : Text)
    → IsImageRef (record { repository = repo; tag = tag; digest = digest })
    → parse_trimmed (render (record { repository = repo; tag = tag; digest = digest }))
      ≡ parsed (record { repository = repo; tag = tag; digest = digest })
complete repo tag [] ok =
    let s = repo ++ led_by b':' tag in
    rw
      (
        append-nil_text s,
        parse_trimmed-absent s ok.no_at_sign
            (append-there repo (led_by b':' tag) ok.tagged.repository_there),
      )
      (parse_tag_complete (record { repository = repo; tag = tag; digest = [] }) ok.tagged)
complete repo tag (c ∷ digest) ok =
    let r : ImageRef = record { repository = repo; tag = tag; digest = c ∷ digest } in
    ground (
      arith,
      ok.digest_formed,
      parse_trimmed-apart (repo ++ led_by b':' tag) (c ∷ digest) ok.digest_clean,
      parse_tag_complete r ok.tagged,
    )

-- An image reference is accepted, as these parts, exactly if they are well formed and put together again
-- they are the reference without the space around it.
pub parse_image_ref_iff :
    (s : Text) (r : ImageRef)
    → (parse_image_ref s ≡ parsed r) ↔ (IsImageRef r × (render r ≡ trim s))
unfolding parse_image_ref
parse_image_ref_iff s r = (
  λ at. split_sound (trim s) r (split b'@' (trim s)) at,
  λ (ok, shown). sym (ap parse_trimmed shown) ∙ complete r.repository r.tag r.digest ok,
)
