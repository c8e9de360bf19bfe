-- ===== src/ExtractUos.antt =====
-- extract_uos.py, with `verify_sha256` of download.py: the base image inside an installer of UniFi OS.
-- Downloads, checksums, archives and docker are parameters, over the state `D` of docker. The tar of
-- the image is its bytes, and lines for a reader are left out.
pub mod Checked
pub mod Tests
use unifi_containers.Prelude.{
  ℕ, Bool, true, false, Option, none, some, List, [], ◌∷◌, ◌++◌, if◌then◌else◌,
}
use unifi_containers.Prelude.Results.{Result, ok, err, ◌>>=◌, after}
use unifi_containers.Text.{Text, codes, text_eq}
use unifi_containers.Text.Find.{lower}
use unifi_containers.Forge.{filled}

pub data ExtractError : Type 0 where
  -- `ExtractError` of the file.
  unsupported_arch : Text → ExtractError
  missing_pin : Text → ExtractError
  no_member : ExtractError
  empty_member : ExtractError
  -- `ChecksumError`
  sha256_mismatch : Text → Text → ExtractError
  -- Exceptions of httpx, of zipfile and of docker.
  no_download : ExtractError
  no_archive : ExtractError
  no_docker : ExtractError

pub record Tools (D : Type 0) : Type 0 where
  -- `download`: the bytes of a file.
  pub download : Text → Option (List ℕ)
  pub sha256_of : List ℕ → Text
  -- `ZipFile`: the bytes of a member, where there is one of that name.
  pub unzip : List ℕ → Option (Text → Option (List ℕ))
  -- `load_image`, with the image's id, and `image.tag`, with whether it ended without an exception.
  pub load_image : List ℕ → D → Option Text × D
  pub tag_image : Text → Text → Text → D → Bool × D
  -- `platform.machine()`
  pub machine : Text

abbrev pub member : Text
member = codes "image.tar"

-- `ARCHES`
unfoldable pub arch_suffix : Text → Option Text
arch_suffix arch =
    if text_eq arch (codes "amd64")
    then some (codes "AMD64")
    else if text_eq arch (codes "x86_64")
    then some (codes "AMD64")
    else if text_eq arch (codes "arm64")
    then some (codes "ARM64")
    else if text_eq arch (codes "aarch64")
    then some (codes "ARM64")
    else none

-- `pins[key]`
unfoldable pub pin : (Text → Option Text) → Text → Result ExtractError Text
pin pins key = elim (pins key) [ none ↦ err (missing_pin key) | some value ↦ ok value ]

unfoldable pub select : (Text → Option Text) → Text → Result ExtractError (Text × Text)
unfolding pin
select pins arch = elim (arch_suffix arch) [
  | none ↦ err (unsupported_arch arch)
  | some suffix ↦ do
    url ← pin pins (codes "UOS_URL_" ++ suffix)
    sha256 ← pin pins (codes "UOS_SHA256_" ++ suffix)
    ok (url, sha256)
]

unfoldable pub solid_member : List ℕ → Result ExtractError (List ℕ)
solid_member [] = err empty_member
solid_member (b ∷ bytes) = ok (b ∷ bytes)

unfoldable pub or_fail : {A : Type 0} → ExtractError → Option A → Result ExtractError A
or_fail e none = err e
or_fail e (some a) = ok a

module _ {D : Type 0} (T : Tools D) where
  unfoldable pub verify_sha256 : List ℕ → Text → Result ExtractError Text
  verify_sha256 file expected =
      let actual = T.sha256_of file in
      if text_eq actual (lower expected) then ok actual else err (sha256_mismatch expected actual)

  unfoldable pub extract_image_tar : List ℕ → Result ExtractError (List ℕ)
  unfolding or_fail solid_member
  extract_image_tar installer = do
    archive ← or_fail no_archive (T.unzip installer)
    bytes ← or_fail no_member (archive member)
    solid_member bytes

  -- `arch or platform.machine()`
  unfoldable pub arch_or_machine : Option Text → Text
  arch_or_machine arch = elim (filled arch) [ none ↦ T.machine | some name ↦ name ]

  -- `extract` up to the image's tar.
  unfoldable pub image_tar : (Text → Option Text) → Text → Result ExtractError (List ℕ)
  unfolding or_fail
  image_tar pins arch = do
    chosen ← select pins arch
    installer ← or_fail no_download (T.download chosen.0)
    _ ← verify_sha256 installer chosen.1
    extract_image_tar installer

  unfoldable pub loaded : Option Text × D → Result ExtractError Text × D
  loaded (none, d) = (err no_docker, d)
  loaded (some image, d) = (ok image, d)

  unfoldable pub tagged : Bool × D → Result ExtractError (Unit {0}) × D
  tagged (true, d) = (ok tt, d)
  tagged (false, d) = (err no_docker, d)

  unfoldable pub extract :
      Option Text → (Text → Option Text) → D → Result ExtractError (Unit {0}) × D
  unfolding loaded tagged
  extract arch pins d =
      after (image_tar pins (arch_or_machine arch), d)
        (λ tar d1.
          after (loaded (T.load_image tar d1))
            (λ image d2. tagged (T.tag_image image (codes "uos-base") (codes "local") d2)))
