-- ===== src/ExtractUos/Tests.antt =====
-- An installer with an image, and the theorem on its extraction.
use unifi_containers.Prelude.{◌≡◌, refl, true, none, some, List, [], ◌∷◌, if◌then◌else◌, Option}
use unifi_containers.Prelude.Results.{ok}
use unifi_containers.Text.{Text, codes, text_eq}
use unifi_containers.Text.Find.{lower}
use unifi_containers.Forge.{filled}
use unifi_containers.ExtractUos.{
  Tools, arch_suffix, pin, select, verify_sha256, extract_image_tar, arch_or_machine, image_tar,
  extract,
}
use unifi_containers.ExtractUos.Checked.{Extracted, extract-Extracted}

-- The state of docker is the names of its images.
abbrev tools : Tools (List Text)
tools = record {
  download = λ url. some (7 ∷ []);
  sha256_of = λ bytes. codes "0f";
  unzip = λ bytes. some (λ name. some bytes);
  load_image = λ bytes d. (some (codes "sha256:1"), d);
  tag_image = λ image repo tag d. (true, repo ∷ d);
  machine = codes "x86_64";
}

abbrev pinned : Text → Option Text
pinned name =
    if text_eq name (codes "UOS_URL_AMD64")
    then some (codes "https://example.invalid/installer")
    else if text_eq name (codes "UOS_SHA256_AMD64")
    then some (codes "0F")
    else none

extract_run : extract tools none pinned [] ≡ (ok tt, codes "uos-base" ∷ [])
unfolding extract image_tar select arch_suffix arch_or_machine text_eq verify_sha256 lower
    extract_image_tar pin filled
extract_run = refl

extract-Extracted_example : Extracted tools none pinned [] (codes "uos-base" ∷ [])
extract-Extracted_example =
    extract-Extracted tools none pinned [] (codes "uos-base" ∷ []) extract_run
