-- ===== src/Slide.antt =====
-- slide_tags.py: point the sliding registry tags at the digests of a release.
-- `imagetools_create` runs `docker buildx`, so it is a parameter: a registry state `R`, and a step
-- that tells whether the command succeeded. Output lines are left out.
pub mod Names
pub mod Moves
pub mod Tests
use unifi_containers.Prelude.{
  ℕ, Bool, true, false, ◌||◌, Option, none, some, List, [], ◌∷◌, ◌++◌, if◌then◌else◌,
}
use unifi_containers.Prelude.Results.{Result, ok, err}
use unifi_containers.Text.{Text, codes, text_eq, strip}
use unifi_containers.Text.Scan.{dotted, at_end}
use unifi_containers.Text.Words.{ends_with, words}

-- The keys of `digests`.
pub data Variant : Type 0 where
  base sim seeded : Variant

-- The exceptions of `variant_for`, `slide` and `imagetools_create`.
pub data SlideError : Type 0 where
  unknown_tag : Text → SlideError
  no_digest : Text → Variant → SlideError
  create_failed : Text → Text → SlideError

abbrev pub latest_name : Text
latest_name = codes "latest"

abbrev pub sim_name : Text
sim_name = codes "sim"

abbrev pub seeded_name : Text
seeded_name = codes "seeded"

-- `GLOBAL_TRACKS`
unfoldable pub global_track : Text → Option Variant
global_track name =
    if text_eq name latest_name
    then some base
    else if text_eq name sim_name
    then some sim
    else if text_eq name seeded_name
    then some seeded
    else none

-- What may follow the version: `(?:-(?:sim|seeded))?$`.
unfoldable pub suffix_ok : Text → Bool
suffix_ok rest =
    at_end rest
    || elim (strip (codes "-sim") rest) [ some r ↦ at_end r | none ↦ false ]
    || elim (strip (codes "-seeded") rest) [ some r ↦ at_end r | none ↦ false ]

-- `VERSION_TAG_RE`
unfoldable pub is_version_tag : Text → Bool
unfolding suffix_ok
is_version_tag name = elim (dotted name) [ none ↦ false | some (u, rest) ↦ suffix_ok rest ]

unfoldable pub variant_for : Text → Result SlideError Variant
variant_for name = elim (global_track name) [
  | some v ↦ ok v
  | none ↦
      if is_version_tag name
      then (if ends_with (codes "-sim") name
          then ok sim
          else if ends_with (codes "-seeded") name
          then ok seeded
          else ok base)
      else err (unknown_tag name)
]

pub record Digests : Type 0 where
  pub base_digest : Option Text
  pub sim_digest : Option Text
  pub seeded_digest : Option Text

-- `digests.get(variant)`, where the empty text counts as no digest.
unfoldable pub nonempty_digest : Option Text → Option Text
nonempty_digest none = none
nonempty_digest (some []) = none
nonempty_digest (some (c ∷ d)) = some (c ∷ d)

unfoldable pub digest_for : Digests → Variant → Option Text
unfolding nonempty_digest
digest_for d base = nonempty_digest d.base_digest
digest_for d sim = nonempty_digest d.sim_digest
digest_for d seeded = nonempty_digest d.seeded_digest

module _ {R : Type 0} (create : Text → Text → Text → R → Bool × R) where
  -- What the loop of `slide` does with one name: the new registry, or the exception.
  unfoldable pub slide_one : Text → Digests → Text → R → Result SlideError (Unit {0}) × R
  slide_one image digests name s = elim (variant_for name) [
    | err e ↦ (err e, s)
    | ok v ↦ elim (digest_for digests v) [
      | none ↦ (err (no_digest name v), s)
      | some digest ↦
          let (done, s') = create image name digest s in
          (if done then ok tt else err (create_failed image name), s')
    ]
  ]

  -- The loop, with the names moved so far.
  unfoldable pub slide_from :
      Text → Digests → List Text → List Text → R → Result SlideError (List Text) × R
  slide_from image digests moved [] s = (ok moved, s)
  slide_from image digests moved (name ∷ names) s =
      let (r, s') = slide_one image digests name s in
      elim r [
        | err e ↦ (err e, s')
        | ok _ ↦ slide_from image digests (moved ++ (name ∷ [])) names s'
      ]

  unfoldable pub slide : Text → Digests → List Text → R → Result SlideError (List Text) × R
  unfolding slide_from
  slide image digests names s = slide_from image digests [] names s

  -- The exit status.
  unfoldable pub apply_names : Text → Digests → List Text → R → ℕ × R
  apply_names image digests [] s = (0, s)
  apply_names image digests (name ∷ names) s =
      let (r, s') = slide image digests (name ∷ names) s in
      (elim r [ ok moved ↦ 0 | err e ↦ 1 ], s')

  unfoldable pub apply : Text → Text → Digests → R → ℕ × R
  unfolding apply_names
  apply image tags digests s = apply_names image digests (words tags) s
