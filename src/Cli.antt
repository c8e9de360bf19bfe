-- ===== src/Cli.antt =====
-- cli.py: the commands that decide something before they call the module that they stand for. The
-- exit status is a result, and so is typer's BadParameter.
use unifi_containers.Prelude.{ℕ, max, Bool, Option, none, some, List, [], ◌∷◌, if◌then◌else◌}
use unifi_containers.Prelude.Results.{Result, ok, err}
use unifi_containers.Failure.{Failure}
use unifi_containers.Text.{Text, is_in}
use unifi_containers.Packaging.{Versions}
use unifi_containers.Gitops.{Git}
use unifi_containers.Forge.{filled}
use unifi_containers.Release.{Release, network, unifi_os}
use unifi_containers.Cut.{cut}
use unifi_containers.Lanes.{LaneError, Calls, lane_of, run_lane}

pub data CliError : Type 0 where
  no_product : CliError
  unknown_product : Text → CliError
  no_lane : Text → CliError
  cut_failed : Failure → CliError
  lane_failed : LaneError → CliError

-- `PRODUCTS`
abbrev pub products : List Text
products = network ∷ unifi_os ∷ []

-- The products that `cut-release` is asked for.
unfoldable pub asked_products : Option Text → Bool → Result CliError (List Text)
asked_products product every = elim (filled product) [
  | none ↦ if every then ok products else err no_product
  | some name ↦
      if is_in name products
      then ok (if every then products else name ∷ [])
      else err (unknown_product name)
]

-- The exit status for the releases that were due: a rebuild of nothing is a failure.
unfoldable pub cut_status : Bool → List Release → ℕ
cut_status rebuild (r ∷ rs) = 0
cut_status rebuild [] = if rebuild then 1 else 0

module _ {W : Type 0} where
  unfoldable pub cut_answer : Bool → Result Failure (List Release) × W → Result CliError ℕ × W
  unfolding cut_status
  cut_answer rebuild (err e, w) = (err (cut_failed e), w)
  cut_answer rebuild (ok rs, w) = (ok (cut_status rebuild rs), w)

  unfoldable pub lane_answer : Result LaneError (Unit {0}) × W → Result CliError ℕ × W
  lane_answer (err e, w) = (err (lane_failed e), w)
  lane_answer (ok u, w) = (ok 0, w)

module _ (V : Versions) (G : Git) (dotenv : Text → Text → Option Text)
    (files : Text → Option Text) where
  unfoldable pub cut_release_cmd :
      Text → Option Text → Bool → Bool → Bool → G.W → Result CliError ℕ × G.W
  unfolding asked_products cut_answer
  cut_release_cmd url product every rebuild push w = elim (asked_products product every) [
    | err e ↦ (err e, w)
    | ok names ↦ cut_answer rebuild (cut V G dotenv files url names push rebuild w)
  ]

module _ (G : Git) (C : Calls G) where
  unfoldable pub update_cmd : Text → G.W → Result CliError ℕ × G.W
  unfolding lane_answer
  update_cmd name w = elim (lane_of name) [
    | none ↦ (err (no_lane name), w)
    | some lane ↦ lane_answer (run_lane G C name w)
  ]

-- The statuses of both products' `verify`, of which the second is asked whatever the first is; `none` is
-- an exception.
unfoldable pub verify_pins_cmd : Option ℕ → Option ℕ → Option ℕ
verify_pins_cmd none unifi_os_status = none
verify_pins_cmd (some network_status) none = none
verify_pins_cmd (some network_status) (some unifi_os_status) =
    some (max network_status unifi_os_status)
