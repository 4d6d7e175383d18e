-- ===== src/Config/Image.antt =====
-- internal/config/image.go: image references, and the warnings about those without a digest. The field
-- path of an image is data, and so is a warning, of which `String` makes a line of the log.
pub mod Parts
pub mod Read
mod Tests
use flintlock_runner.Prelude.{
  ℕ, zero, suc, ◌+◌, Bool, true, false, not, ◌&&◌, ◌||◌, List, [], ◌∷◌, ◌++◌, Option, none, some,
  ltb, if◌then◌else◌, map, String,
}
use flintlock_runner.Config.Text.{Text, trim, last_index, take, drop, cut}

pub record ImageRef : Type 0 where
  pub repository : Text
  pub tag : Text
  pub digest : Text

abbrev pub is_empty : Text → Bool
is_empty [] = true
is_empty (c ∷ s) = false

unfoldable pub pinned : ImageRef → Bool
pinned r = not (is_empty r.digest) || not (is_empty r.tag)

pub data ImageError : Type 0 where
  empty_reference malformed_digest empty_tag no_repository : ImageError

pub data Parsed : Type 0 where
  parsed : ImageRef → Parsed
  refused : ImageError → Parsed

-- `algo:hex`
unfoldable pub is_digest : Text → Bool
unfolding cut
is_digest d = elim (cut b':' d) [
  | none ↦ false
  | some (algo, hex) ↦ not (is_empty algo) && not (is_empty hex)
]

-- `colon > lastSlash`, where an index that is not there is -1.
unfoldable pub is_behind : Option ℕ → Option ℕ → Bool
is_behind none slash = false
is_behind (some colon) none = true
is_behind (some colon) (some slash) = ltb slash colon

unfoldable pub with_repository : Text → Text → Text → Parsed
with_repository [] tag digest = refused no_repository
with_repository (c ∷ s) tag digest =
    parsed (record { repository = c ∷ s; tag = tag; digest = digest })

-- The part behind the digest, which is empty or well formed.
unfoldable pub parse_tag : Text → Text → Parsed
unfolding is_behind with_repository
parse_tag s digest = elim (last_index b':' s) [
  | none ↦ with_repository s [] digest
  | some colon ↦
      if is_behind (some colon) (last_index b'/' s)
      then if is_empty (drop (suc colon) s)
        then refused empty_tag
        else with_repository (take colon s) (drop (suc colon) s) digest
      else with_repository s [] digest
]

unfoldable pub parse_trimmed : Text → Parsed
unfolding is_digest parse_tag
parse_trimmed [] = refused empty_reference
parse_trimmed (c ∷ s) = elim (last_index b'@' (c ∷ s)) [
  | none ↦ parse_tag (c ∷ s) []
  | some at ↦
      if not (is_digest (drop (suc at) (c ∷ s)))
      then refused malformed_digest
      else parse_tag (take at (c ∷ s)) (drop (suc at) (c ∷ s))
]

unfoldable pub parse_image_ref : Text → Parsed
unfolding parse_trimmed
parse_image_ref s = parse_trimmed (trim s)

-- The fields of a Profile with an image.
pub data Field : Type 0 where
  kernel_image rootfs initrd_image : Field
  additional_volume : ℕ → Field

-- What of a Profile bears images.
pub record ProfileImages : Type 0 where
  pub name : String
  pub kernel : Text
  pub rootfs : Text
  pub initrd : Option Text
  pub volumes : List Text

unfoldable pub volume_images : ℕ → List Text → List (Field × Text)
volume_images i [] = []
volume_images i (v ∷ vs) = (additional_volume i, v) ∷ volume_images (suc i) vs

unfoldable pub images : ProfileImages → List (Field × Text)
unfolding volume_images
images p =
    let first = (kernel_image, p.kernel) ∷ (rootfs, p.rootfs) ∷ [] in
    (elim p.initrd [ none ↦ first | some image ↦ first ++ (initrd_image, image) ∷ [] ])
    ++ volume_images 0 p.volumes

-- The index of a Profile is a part of its field paths.
pub record ImageWarning : Type 0 where
  pub profile : String
  pub index : ℕ
  pub field : Field
  pub image : Text

-- A tag and no digest.
unfoldable pub warns : Parsed → Bool
warns (refused e) = false
warns (parsed r) = is_empty r.digest && not (is_empty r.tag)

unfoldable pub image_warnings : String → ℕ → List (Field × Text) → List ImageWarning
unfolding warns parse_image_ref
image_warnings profile index [] = []
image_warnings profile index ((field, image) ∷ rest) =
    let later = image_warnings profile index rest in
    if warns (parse_image_ref image)
    then record { profile = profile; index = index; field = field; image = image } ∷ later
    else later

unfoldable pub warnings_from : ℕ → List ProfileImages → List ImageWarning
unfolding images image_warnings
warnings_from i [] = []
warnings_from i (p ∷ ps) = image_warnings p.name i (images p) ++ warnings_from (suc i) ps

unfoldable pub warnings : List ProfileImages → List ImageWarning
unfolding warnings_from
warnings ps = warnings_from 0 ps
