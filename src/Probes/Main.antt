-- ===== src/Probes/Main.antt =====
-- `PROBES` and `main` of healthcheck.py.
use unifi_containers.Prelude.{ℕ, Bool, Option, none, some, List, [], ◌∷◌, if◌then◌else◌}
use unifi_containers.Text.{Text, codes, text_eq}

pub data Probe : Type 0 where
  uos sim seeded network network_sim network_seeded : Probe

abbrev named_probes : List (Text × Probe)
named_probes =
    (codes "uos", uos)
    ∷ (codes "sim", sim)
    ∷ (codes "seeded", seeded)
    ∷ (codes "network", network)
    ∷ (codes "network-sim", network_sim)
    ∷ (codes "network-seeded", network_seeded)
    ∷ []

unfoldable pub probe_in : List (Text × Probe) → Text → Option Probe
probe_in [] name = none
probe_in ((key, p) ∷ rest) name =
    let later = probe_in rest name in if text_eq name key then some p else later

-- The exit status; `passes` runs a probe.
unfoldable pub main : (Probe → Bool) → List Text → ℕ
unfolding probe_in
main passes [] = 2
main passes (name ∷ []) = elim (probe_in named_probes name) [
  | none ↦ 2
  | some p ↦ if passes p then 0 else 1
]
main passes (name ∷ other ∷ argv) = 2
