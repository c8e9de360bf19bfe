-- ===== src/Plan/Tests.antt =====
-- Plans for the tests, and the theorems on plans at them.
use unifi_containers.Prelude.{◌≡◌, refl, ◌↔◌, true, false, Option, some, [], ◌∷◌}
use unifi_containers.Prelude.Results.{Result, ok}
use unifi_containers.Failure.{Failure}
use unifi_containers.Packaging.Numbered.{numbered}
use unifi_containers.Text.{Text, codes, text_eq}
use unifi_containers.Release.{image, version_tags, version, global_tags}
use unifi_containers.Release.Tests.{third_build, ten_four_fifty, some_tags}
use unifi_containers.Text.Words.{join}
use unifi_containers.Text.Decimal.{decimal}
use unifi_containers.Slide
use unifi_containers.Slide.{latest_name, sim_name, seeded_name, digest_for}
use unifi_containers.Slide.Tests.{record_name, some_digests}
use unifi_containers.Plan.{Plan, Outputs, plan, emit, if_newest}
use unifi_containers.Plan.Checks.{Agrees, plan_iff}
use unifi_containers.Plan.Emit.{apply-emit}

abbrev pinned : Text → Result Failure (Option Text)
pinned product = ok (some ten_four_fifty)

abbrev top_plan : Plan
top_plan = record {
  release = third_build;
  pinned = some ten_four_fifty;
  newest_build = true;
  top = true;
}

abbrev old_plan : Plan
old_plan = record {
  release = third_build;
  pinned = some ten_four_fifty;
  newest_build = false;
  top = false;
}

abbrev top_outputs : Outputs
top_outputs = record {
  publish = true;
  image_name = codes "ghcr.io/jamesbraid/unifi-network";
  push_base = ten_four_fifty;
  push_sim = codes "10.4.57-sim";
  push_seeded = codes "10.4.57-seeded";
  globals = codes "latest sim seeded";
  build = codes "10.4.57-3";
}

abbrev old_outputs : Outputs
old_outputs = record {
  publish = false;
  image_name = codes "ghcr.io/jamesbraid/unifi-network";
  push_base = [];
  push_sim = [];
  push_seeded = [];
  globals = [];
  build = codes "10.4.57-3";
}

top_plan-emit : emit top_plan ≡ ok top_outputs
unfolding emit image version_tags version global_tags if_newest text_eq join decimal
top_plan-emit = refl

old_plan-emit : emit old_plan ≡ ok old_outputs
unfolding emit image version_tags version global_tags if_newest text_eq join decimal
old_plan-emit = refl

some_digests-digest_for :
    (digest_for some_digests Slide.base ≡ some (codes "sha256:b"))
    × (digest_for some_digests Slide.sim ≡ some (codes "sha256:s"))
    × (digest_for some_digests Slide.seeded ≡ some (codes "sha256:d"))
unfolding digest_for
some_digests-digest_for = (refl, refl, refl)

plan_iff_example :
    (plan numbered pinned (codes "network/10.4.57-3") some_tags ≡ ok top_plan)
    ↔ Agrees numbered pinned (codes "network/10.4.57-3") some_tags top_plan
plan_iff_example = plan_iff numbered pinned (codes "network/10.4.57-3") some_tags top_plan

apply-emit_example :
    Slide.apply record_name
      (codes "ghcr.io/jamesbraid/unifi-network")
      (codes "latest sim seeded")
      some_digests
      []
    ≡ (
      0,
      (seeded_name, codes "sha256:d")
          ∷ (sim_name, codes "sha256:s")
          ∷ (latest_name, codes "sha256:b")
          ∷ [],
    )
apply-emit_example =
    apply-emit record_name top_plan top_outputs some_digests (codes "sha256:b") (codes "sha256:s")
      (codes "sha256:d") [] ((latest_name, codes "sha256:b") ∷ [])
      ((sim_name, codes "sha256:s") ∷ (latest_name, codes "sha256:b") ∷ [])
      ((seeded_name, codes "sha256:d")
        ∷ (sim_name, codes "sha256:s")
        ∷ (latest_name, codes "sha256:b")
        ∷ [])
      refl refl top_plan-emit some_digests-digest_for.0 some_digests-digest_for.1
      some_digests-digest_for.2 refl refl refl
