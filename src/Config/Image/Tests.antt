-- ===== src/Config/Image/Tests.antt =====
-- Image references read and refused.
use flintlock_runner.Config.Text.{drop}
use flintlock_runner.Config.Text.{last_index}
use flintlock_runner.Config.Text.{take}
use flintlock_runner.Prelude.{◌≡◌, refl, ◌↔◌, [], ◌∷◌, none}
use flintlock_runner.Config.Text.{codes, trim}
use flintlock_runner.Config.Image.{
  ImageRef, parsed, refused, parse_image_ref, malformed_digest, empty_tag, no_repository,
  ProfileImages, warnings, rootfs,
}
use flintlock_runner.Config.Image.Parts.{render}
use flintlock_runner.Config.Image.Read.{IsImageRef, parse_image_ref_iff}

abbrev pinned_image : ImageRef
pinned_image = record {
  repository = codes "localhost:5000/ci/go";
  tag = codes "1.22";
  digest = codes "sha256:abc";
}

with_port : parse_image_ref (codes " localhost:5000/ci/go:1.22@sha256:abc ") ≡ parsed pinned_image
unfolding parse_image_ref trim last_index drop take
with_port = refl

only_a_port :
    parse_image_ref (codes "localhost:5000/ci")
    ≡ parsed (record { repository = codes "localhost:5000/ci"; tag = []; digest = [] })
unfolding parse_image_ref trim last_index
only_a_port = refl

refusals :
    (parse_image_ref (codes "go@sha256") ≡ refused malformed_digest)
    × (parse_image_ref (codes "go:") ≡ refused empty_tag)
    × (parse_image_ref (codes ":v1") ≡ refused no_repository)
unfolding parse_image_ref trim last_index drop take
refusals = (refl, refl, refl)

parse_image_ref_iff_example :
    (parse_image_ref (codes "localhost:5000/ci/go:1.22@sha256:abc") ≡ parsed pinned_image) ↔ (
      IsImageRef pinned_image
      × (render pinned_image ≡ trim (codes "localhost:5000/ci/go:1.22@sha256:abc")))
parse_image_ref_iff_example =
    parse_image_ref_iff (codes "localhost:5000/ci/go:1.22@sha256:abc") pinned_image

abbrev two_images : ProfileImages
two_images = record {
  name = "go";
  kernel = codes "kernel@sha256:1";
  rootfs = codes "rootfs:latest";
  initrd = none;
  volumes = [];
}

warns_of_rootfs :
    warnings (two_images ∷ [])
    ≡ record { profile = "go"; index = 0; field = rootfs; image = codes "rootfs:latest" } ∷ []
unfolding warnings parse_image_ref trim last_index drop take
warns_of_rootfs = refl
