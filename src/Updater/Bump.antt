-- ===== src/Updater/Bump.antt =====
-- `bump` of updaters/network.py. The firmware records and the entries of the feed are what the program
-- reads of the decoded downloads.
use unifi_containers.Prelude.{Bool, Option, none, some, List, [], ◌∷◌, if◌then◌else◌}
use unifi_containers.Prelude.Results.{Result, ok, err, ◌>>=◌}
use unifi_containers.Text.{Text, codes, text_eq}
use unifi_containers.Text.Row.{rewrite_row}
use unifi_containers.Text.Scan.{dotted}
use unifi_containers.Text.Words.{trim}
use unifi_containers.Packaging.{Versions}
use unifi_containers.Pins.{truthy}
use unifi_containers.Updater.{Firmware, read_pins, ga_versions, bump_dockerfile}

-- RuntimeError, by what it says, and InvalidVersion.
pub data BumpError : Type 0 where
  no_pins : BumpError
  no_ga_version : BumpError
  bad_version : BumpError
  no_rewrite : BumpError
  no_row : BumpError

-- An entry of the community feed.
pub record FeedEntry : Type 0 where
  pub title : Option Text
  pub link : Option Text

-- What the downloads of `bump` give; `feed` is `none` for an exception, and `hash` downloads a file.
pub record Downloads : Type 0 where
  pub ga : List Firmware
  pub deb : List Firmware
  pub feed : Option (List FeedEntry)
  pub hash : Text → Text

-- network/Dockerfile and the README.
pub record Files : Type 0 where
  pub dockerfile : Text
  pub readme : Text

-- `text or ""`
unfoldable pub or_empty : Option Text → Text
or_empty none = []
or_empty (some t) = t

-- `re.search(r"(\d+\.\d+\.\d+)", text)`
unfoldable pub search_dotted : Text → Option Text
search_dotted [] = none
search_dotted (c ∷ s) =
    let later = search_dotted s in elim (dotted (c ∷ s)) [ some (v, r) ↦ some v | none ↦ later ]

-- `feed_links(…).get(version)`: of two entries with one version the first counts.
unfoldable pub feed_link : List FeedEntry → Text → Option Text
unfolding or_empty search_dotted
feed_link [] version = none
feed_link (e ∷ entries) version =
    let later = feed_link entries version in
    elim (search_dotted (or_empty e.title)) [
      | none ↦ later
      | some v ↦ if text_eq v version then some (trim (or_empty e.link)) else later
    ]

abbrev pub fallback_link : Text
fallback_link = codes "https://community.ui.com/releases"

unfoldable pub release_notes_link : Option (List FeedEntry) → Text → Text
unfolding feed_link
release_notes_link none version = fallback_link
release_notes_link (some entries) version = elim (truthy (feed_link entries version)) [
  | none ↦ fallback_link
  | some link ↦ link
]

-- How `README_ROW_RE` starts.
abbrev pub network_row : Text
network_row = codes "| `ghcr.io/jamesbraid/unifi-network` | "

unfoldable pub or_raise : {A : Type 0} → BumpError → Option A → Result BumpError A
or_raise e none = err e
or_raise e (some a) = ok a

module _ (V : Versions) where
  -- `max(versions, key=Version)`, from the highest so far on.
  unfoldable pub highest_from : Text × V.Key → List Text → Result BumpError Text
  highest_from (t, k) [] = ok t
  highest_from (t, k) (u ∷ us) = elim (V.read u) [
    | none ↦ err bad_version
    | some j ↦ highest_from (if V.lt k j then (u, j) else (t, k)) us
  ]

  unfoldable pub highest : List Text → Result BumpError Text
  unfolding highest_from
  highest [] = err no_ga_version
  highest (t ∷ ts) = elim (V.read t) [ none ↦ err bad_version | some k ↦ highest_from (t, k) ts ]

  unfoldable pub parse_ga_version : List Firmware → Result BumpError Text
  unfolding highest
  parse_ga_version firmware = highest (ga_versions firmware)

  -- The version to pin, if it is above the one that is pinned.
  unfoldable pub newer : Text → Text → Result BumpError (Option Text)
  unfolding or_raise
  newer current version = do
    a ← or_raise bad_version (V.read version)
    b ← or_raise bad_version (V.read current)
    ok (if V.lt b a then some version else none)

  unfoldable pub due : Downloads → Text → Result BumpError (Option Text)
  unfolding or_raise parse_ga_version newer
  due d dockerfile = do
    pins ← or_raise no_pins (read_pins dockerfile)
    version ← parse_ga_version d.ga
    newer pins.version version

  -- The README follows the Dockerfile.
  unfoldable pub write_row : Downloads → Text → Files → Result BumpError (Option Text) × Files
  write_row d version files =
      elim (rewrite_row network_row files.readme version (release_notes_link d.feed version)) [
        | none ↦ (err no_row, files)
        | some readme ↦
            (ok (some version), record { dockerfile = files.dockerfile; readme = readme })
      ]

  unfoldable pub write_pins : Downloads → Text → Files → Result BumpError (Option Text) × Files
  unfolding write_row
  write_pins d version files = elim (bump_dockerfile d.hash d.deb files.dockerfile version) [
    | none ↦ (err no_rewrite, files)
    | some dockerfile ↦
        write_row d version (record { dockerfile = dockerfile; readme = files.readme })
  ]

  unfoldable pub bump : Bool → Downloads → Files → Result BumpError (Option Text) × Files
  unfolding due write_pins
  bump write d files = elim (due d files.dockerfile) [
    | err e ↦ (err e, files)
    | ok none ↦ (ok none, files)
    | ok (some version) ↦ if write then write_pins d version files else (ok (some version), files)
  ]
