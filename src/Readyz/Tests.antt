-- ===== src/Readyz/Tests.antt =====
-- Two requests that overlap, and the theorems on the gate at them.
use unifi_containers.Prelude.{◌+◌, ◌*◌, ◌≤◌, refl, true, false, some, [], ◌∷◌, length, arith}
use unifi_containers.Readyz.{
  try_acquire, is_fresh, begin_probe, end_probe, release, found, System, busy, acquired, begun,
  ended, Reach, start, step,
}
use unifi_containers.Readyz.Exclusion.{IsExclusive, Reach-IsExclusive, probing-le}
use unifi_containers.Readyz.Rate.{probe_rate}

-- The probe of the first request runs when the second request gets its answer.
abbrev overlapping : System
overlapping = record {
  gate = record { locked = true; verdict = false; last = some 7 };
  checking = 0;
  probing = 1;
  clock = 7;
  starts = 7 ∷ [];
  verdicts = [];
}

overlapping-Reach : Reach 2 overlapping
unfolding try_acquire is_fresh begin_probe
overlapping-Reach =
    step (step (step start (acquired refl)) (begun 7 refl (omega arith) refl)) (busy refl)

abbrev later : System
later = record {
  gate = record { locked = false; verdict = true; last = some 7 };
  checking = 0;
  probing = 0;
  clock = 7;
  starts = 7 ∷ [];
  verdicts = true ∷ [];
}

later-Reach : Reach 2 later
unfolding end_probe release found
later-Reach = step overlapping-Reach (ended (some true) refl)

Reach-IsExclusive_example : IsExclusive later
Reach-IsExclusive_example = Reach-IsExclusive 2 later-Reach

probing-le_example : overlapping.probing ≤ 1
probing-le_example = probing-le 2 overlapping-Reach

probe_rate_example : length later.starts * 2 ≤ later.clock + 2
probe_rate_example = probe_rate 2 later-Reach
