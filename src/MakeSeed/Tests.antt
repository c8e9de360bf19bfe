-- ===== src/MakeSeed/Tests.antt =====
-- A host where all goes well but for the removal of the volume, and the theorem on the seed at it.
use unifi_containers.Prelude.{◌≡◌, refl, Bool, true, false, inr}
use unifi_containers.Prelude.Results.{Result, ok}
use unifi_containers.MakeSeed.{
  Host, Step, remove_volume, completed, whole, try, await_healthy, seed_answer, complete_wizard,
  copy_answer, copy_volume, snapshot, boot_and_seed, discard, discard_both, fill_volume, build,
  Fault,
}
use unifi_containers.MakeSeed.Published.{published, ending, build_published}

abbrev works : Step → Bool
works remove_volume = false
works _ = true

abbrev kind : Host
kind = record {
  works = λ step t. works step;
  is_healthy = λ t. true;
  wizard = λ t. completed;
  tar = λ t. whole;
}

build_run : build kind ≡ (ok tt, published true false true)
unfolding build fill_volume discard_both discard boot_and_seed try await_healthy complete_wizard
    seed_answer snapshot copy_volume copy_answer
build_run = refl

build_published_example :
    (container : Bool) × (volume : Bool) × (size : Bool) × (published true false true
      ≡ published container volume size)
    × (◌≡◌ {A = Result Fault (Unit {0})} (ok tt) (ending size))
build_published_example =
    build_published kind (ok tt) (published true false true) build_run (inr refl)
