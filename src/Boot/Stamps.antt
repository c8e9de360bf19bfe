-- ===== src/Boot/Stamps.antt =====
-- The console's UUID and the version stamps of entrypoint/uos.py.
pub mod Uuid
use unifi_containers.Prelude.{
  ℕ, suc, zero, Bool, true, false, ◌==◌, ◌&&◌, Option, none, some, List, [], ◌∷◌, ◌++◌,
  if◌then◌else◌,
}
use unifi_containers.Prelude.Results.{Result, ok, err}
use unifi_containers.Text.{Text, codes, text_eq}
use unifi_containers.Text.Words.{trim}
use unifi_containers.Pins.{truthy}
use unifi_containers.Settings.{Env}

-- The text with the character at that index replaced; a shorter text is left as it is.
unfoldable pub with_char : ℕ → ℕ → Text → Text
with_char i c [] = []
with_char zero c (d ∷ s) = c ∷ s
with_char (suc i) c (d ∷ s) = d ∷ with_char i c s

unfoldable pub force_uuid_version_5 : Text → Text
unfolding with_char
force_uuid_version_5 = with_char 14 b'5'

-- `ensure_uuid`: the value in force, and the text of the file, `none` where there is none before.
unfoldable pub ensure_uuid : Env → Text → Option Text → Text × Text
unfolding force_uuid_version_5
ensure_uuid env source (some text) = (trim text, text)
ensure_uuid env source none =
    let value : Text = elim (truthy (env (codes "UOS_UUID"))) [
      | some uuid ↦ uuid
      | none ↦ force_uuid_version_5 (trim source)
    ] in
    (value, value ++ b'\n' ∷ [])

unfoldable pub version_stamp : Text → Text → Text
version_stamp app_model app_version =
    app_model ++ (codes ".0000000." ++ (app_version ++ codes ".0000000.000000.0000"))

abbrev pub platforms : List (Text × Text)
platforms =
    (codes "amd64", codes "linux-x64")
    ∷ (codes "x86_64", codes "linux-x64")
    ∷ (codes "arm64", codes "arm64")
    ∷ (codes "aarch64", codes "arm64")
    ∷ []

unfoldable pub platform_in : Text → List (Text × Text) → Option Text
platform_in arch [] = none
platform_in arch ((name, platform) ∷ rest) =
    let other = platform_in arch rest in if text_eq arch name then some platform else other

-- `none` is the ValueError.
unfoldable pub firmware_platform : Text → Option Text
unfolding platform_in
firmware_platform arch = platform_in arch platforms

-- What `dpkg` says, unless there is none, and the kernel's own name of the machine.
unfoldable pub detect_arch : Option (ℕ × Text) → Text → Text
detect_arch none machine = machine
detect_arch (some (status, out)) machine =
    if status == 0
    then elim (truthy (some (trim out))) [ some arch ↦ arch | none ↦ machine ]
    else machine

-- `env.get(key, "")`
unfoldable pub or_empty : Option Text → Text
or_empty none = []
or_empty (some value) = value
