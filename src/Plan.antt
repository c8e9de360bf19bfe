-- ===== src/Plan.antt =====
-- release_plan.py: a release git tag becomes what the release workflow pushes and slides.
-- `pinned_lookup` and the tags of the repository are arguments. Lines for a reader are left out.
pub mod Emit
pub mod Checks
pub mod Tests
use unifi_containers.Prelude.{
  ℕ, Bool, true, false, Option, none, some, List, [], ◌∷◌, ◌++◌, if◌then◌else◌,
}
use unifi_containers.Prelude.Results.{Result, ok, err, ◌>>=◌}
use unifi_containers.Packaging.{Versions}
use unifi_containers.Failure.{
  Failure, not_a_release, pin_mismatch, bad_version, no_image, is_reported,
}
use unifi_containers.Text.{Text, codes, text_eq}
use unifi_containers.Text.Words.{join}
use unifi_containers.Release.{
  Release, InvalidVersion, parse, image, version, version_tags, global_tags, is_highest_build,
  is_highest_stable,
}

pub record Plan : Type 0 where
  pub release : Release
  pub pinned : Option Text
  pub newest_build : Bool
  pub top : Bool

-- `pinned != rel.upstream`, where `pinned` may be None.
unfoldable pub is_pinned : Option Text → Text → Bool
is_pinned none upstream = false
is_pinned (some pinned) upstream = text_eq pinned upstream

unfoldable pub raised {ℓ} : {A : Type ℓ} → Result InvalidVersion A → Result Failure A
raised (ok a) = ok a
raised (err e) = err (bad_version e)

module _ (V : Versions) (pinned_lookup : Text → Result Failure (Option Text)) where
  -- The plan for a tag that is parsed and agrees with the pin.
  unfoldable pub agreed : List Text → Release → Option Text → Result Failure Plan
  unfolding raised
  agreed tags r pinned = do
    top ← raised (is_highest_stable V tags r)
    ok (record { release = r; pinned = pinned; newest_build = is_highest_build tags r; top = top })

  unfoldable pub plan_release : Text → List Text → Release → Result Failure Plan
  unfolding agreed is_pinned
  plan_release tag tags r = do
    pinned ← pinned_lookup r.product
    if is_pinned pinned r.upstream then agreed tags r pinned else err (pin_mismatch tag pinned)

  unfoldable pub plan : Text → List Text → Result Failure Plan
  unfolding plan_release
  plan tag tags = elim (parse tag) [
    | none ↦ err (not_a_release tag)
    | some r ↦ plan_release tag tags r
  ]

-- What `emit` prints, by key.
pub record Outputs : Type 0 where
  pub publish : Bool
  pub image_name : Text
  pub push_base : Text
  pub push_sim : Text
  pub push_seeded : Text
  pub globals : Text
  pub build : Text

-- `version.get(…, "")`: the name if this is the newest build, else the empty text.
unfoldable pub if_newest : Bool → Text → Text
if_newest newest name = if newest then name else []

unfoldable pub emit : Plan → Result Failure Outputs
unfolding if_newest
emit p = elim (image p.release) [
  | none ↦ err (no_image p.release.product)
  | some name ↦ ok (record {
    publish = p.newest_build;
    image_name = name;
    push_base = if_newest p.newest_build (version_tags p.release).base;
    push_sim = if_newest p.newest_build (version_tags p.release).sim;
    push_seeded = if_newest p.newest_build (version_tags p.release).seeded;
    globals = if_newest p.newest_build (join (b' ' ∷ []) (global_tags p.top));
    build = version p.release;
  })
]

module _ (V : Versions) (pinned_lookup : Text → Result Failure (Option Text)) where
  -- `report` with `github`: the exit status, with the outputs where it is 0. An exception that is
  -- not caught is the result of the whole.
  unfoldable pub report : Result Failure (List Text) → Text → Result Failure (ℕ × Option Outputs)
  report tags tag = elim (tags >>= plan V pinned_lookup tag) [
    | err e ↦ if is_reported e then ok (1, none) else err e
    | ok p ↦ elim (emit p) [ err e ↦ err e | ok out ↦ ok (0, some out) ]
  ]
