-- ===== src/Slide/Tests.antt =====
-- A registry for the tests: the list of the names created so far, with their digests.
use unifi_containers.Prelude.{◌≡◌, ◌↔◌, Bool, true, some, List, [], ◌∷◌}
use unifi_containers.Prelude.Results.{ok}
use unifi_containers.Text.{Text, codes}
use unifi_containers.Slide.{Digests, slide, latest_name, sim_name}
use unifi_containers.Slide.Moves.{Moved, slide_iff}

abbrev pub Registry : Type 0
Registry = List (Text × Text)

-- Every command succeeds.
abbrev pub record_name : Text → Text → Text → Registry → Bool × Registry
record_name image name digest s = (true, (name, digest) ∷ s)

abbrev pub some_digests : Digests
some_digests = record {
  base_digest = some (codes "sha256:b");
  sim_digest = some (codes "sha256:s");
  seeded_digest = some (codes "sha256:d");
}

slide_iff_example :
    (slide record_name (codes "image") some_digests (latest_name ∷ sim_name ∷ []) [] ≡ (
      ok (latest_name ∷ sim_name ∷ []),
      (sim_name, codes "sha256:s") ∷ (latest_name, codes "sha256:b") ∷ [],
    ))
    ↔ (((latest_name ∷ sim_name ∷ []) ≡ (latest_name ∷ sim_name ∷ []))
        × Moved record_name
            (codes "image")
            some_digests
            (latest_name ∷ sim_name ∷ [])
            []
            ((sim_name, codes "sha256:s") ∷ (latest_name, codes "sha256:b") ∷ []))
slide_iff_example =
    slide_iff record_name (codes "image") some_digests (latest_name ∷ sim_name ∷ [])
      (latest_name ∷ sim_name ∷ []) []
      ((sim_name, codes "sha256:s") ∷ (latest_name, codes "sha256:b") ∷ [])
