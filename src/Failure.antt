-- ===== src/Failure.antt =====
-- The exceptions of the release lanes, and which of them `report` turns into an exit status.
use unifi_containers.Prelude.{Bool, true, false, Option}
use unifi_containers.Text.{Text}
use unifi_containers.Release.{InvalidVersion}

pub data Failure : Type 0 where
  -- ValueError: the tag is no release tag, the tag and the pin disagree, the product is unknown.
  not_a_release : Text → Failure
  pin_mismatch : Text → Option Text → Failure
  unknown_product : Text → Failure
  -- InvalidVersion, a ValueError of `packaging`.
  bad_version : InvalidVersion → Failure
  -- `gitops.GitError`
  git_error : Failure
  -- KeyError and FileNotFoundError
  no_image : Text → Failure
  no_file : Text → Failure

-- `except (ValueError, gitops.GitError)`
unfoldable pub is_reported : Failure → Bool
is_reported (no_image product) = false
is_reported (no_file path) = false
is_reported (not_a_release tag) = true
is_reported (pin_mismatch tag pinned) = true
is_reported (unknown_product product) = true
is_reported (bad_version e) = true
is_reported git_error = true
