-- ===== src/MakeSeed.antt =====
-- make_seed.py: a controller is booted on a scratch volume, its wizard is completed, and the volume is
-- written to seed.tgz. What docker, the wizard and the disk do is a function of the actions so far,
-- the latest first.
pub mod Published
pub mod Steps
pub mod Tests
use unifi_containers.Prelude.{Bool, true, false, List, [], ◌∷◌, if◌then◌else◌}
use unifi_containers.Prelude.Results.{Result, ok, err, after}

-- Calls that end, or raise an exception: the client of docker, the volume, the container with its
-- stop, the directory of seed.tgz, the partial file, its removal, its renaming to seed.tgz, what
-- `discard` tears down, and the size of seed.tgz.
pub data Step : Type 0 where
  connect create_volume run_container stop_container make_directory open_partial remove_partial
        replace_seed remove_container remove_volume read_size :
      Step

-- How `wizard.seed` ends: well, with its own error, or with another exception.
pub data SeedEnd : Type 0 where
  completed wizard_error other_error : SeedEnd

-- How the copy of the volume into the partial file ends: with status 0, with another, or with an
-- exception of `subprocess.run`.
pub data CopyEnd : Type 0 where
  whole broken not_run : CopyEnd

pub data Action : Type 0 where
  tried : Step → Bool → Action
  waited : Bool → Action
  seeded : SeedEnd → Action
  tarred : CopyEnd → Action

pub record Host : Type 0 where
  pub works : Step → List Action → Bool
  -- `docker.wait_healthy`, which takes an error of docker for a container that does not run.
  pub is_healthy : List Action → Bool
  pub wizard : List Action → SeedEnd
  pub tar : List Action → CopyEnd

-- How `build` ends where it does not return 0: with 1, or with an exception.
pub data Fault : Type 0 where
  returned_1 raised : Fault

-- A part of `build`: the state is the list of the actions.
abbrev pub Part : Type 0
Part = List Action → Result Fault (Unit {0}) × List Action

infixl 5 ◌then_do◌
abbrev pub ◌then_do◌ : Part → Part → Part
◌then_do◌ first next t = after (first t) (λ _ t'. next t')

module _ (H : Host) where
  unfoldable pub try : Step → Part
  try step t =
      let done = H.works step t in (if done then ok tt else err raised, tried step done ∷ t)

  unfoldable pub await_healthy : Part
  await_healthy t = let up = H.is_healthy t in (if up then ok tt else err returned_1, waited up ∷ t)

  -- How the `except` clause takes the end of the wizard.
  unfoldable pub seed_answer : SeedEnd → Result Fault (Unit {0})
  seed_answer completed = ok tt
  seed_answer wizard_error = err returned_1
  seed_answer other_error = err raised

  unfoldable pub complete_wizard : Part
  unfolding seed_answer
  complete_wizard t = let end = H.wizard t in (seed_answer end, seeded end ∷ t)

  -- What `snapshot` makes of the end of the copy; a broken one is removed.
  unfoldable pub copy_answer : CopyEnd → Part
  unfolding try
  copy_answer whole t = (ok tt, t)
  copy_answer broken t = (try remove_partial then_do (λ t'. (err raised, t'))) t
  copy_answer not_run t = (err raised, t)

  unfoldable pub copy_volume : Part
  unfolding copy_answer
  copy_volume t = let end = H.tar t in copy_answer end (tarred end ∷ t)

  -- `partial.replace` comes last.
  unfoldable pub snapshot : Part
  unfolding try copy_volume
  snapshot = try open_partial then_do copy_volume then_do try replace_seed

  -- What stands under the `try`.
  unfoldable pub boot_and_seed : Part
  unfolding try await_healthy complete_wizard
  boot_and_seed =
      try run_container
      then_do await_healthy
      then_do complete_wizard
      then_do try stop_container
      then_do try make_directory

  -- `discard`: what it tears down may fail, and it goes on.
  unfoldable pub discard : Step → List Action → List Action
  discard step t = tried step (H.works step t) ∷ t

  -- The `finally`
  unfoldable pub discard_both :
      Result Fault (Unit {0}) × List Action → Result Fault (Unit {0}) × List Action
  unfolding discard
  discard_both (r, t) = (r, discard remove_volume (discard remove_container t))

  -- What follows the creation of the volume.
  unfoldable pub fill_volume : Part
  unfolding boot_and_seed snapshot discard_both
  fill_volume t = discard_both ((boot_and_seed then_do snapshot) t)

  unfoldable pub build : Result Fault (Unit {0}) × List Action
  unfolding try fill_volume
  build = (try connect then_do try create_volume then_do fill_volume then_do try read_size) []
