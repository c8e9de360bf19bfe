-- ===== src/Docker.antt =====
-- docker.py: the wait for a container to become healthy. What a poll sees, and the whole seconds
-- that have passed at it, are functions of the number of the poll. The loop of the source has no
-- bound; here it runs on fuel, and `none` is the end of the fuel. Lines for a reader are left out.
pub mod Ends
pub mod State
pub mod Tests
use unifi_containers.Prelude.{
  ℕ, zero, suc, ◌+◌, Bool, true, false, not, leb, Option, none, some, if◌then◌else◌,
}

pub record Polls : Type 0 where
  -- `health == "healthy"` and `running`
  pub healthy : ℕ → Bool
  pub up : ℕ → Bool
  -- `int(clock() - start)`
  pub elapsed : ℕ → ℕ

module _ (P : Polls) (timeout : ℕ) where
  unfoldable pub wait_from : ℕ → ℕ → Option Bool
  wait_from zero i = none
  wait_from (suc fuel) i =
      let rest = wait_from fuel (i + 1) in
      if P.healthy i
      then some true
      else if not (P.up i)
      then some false
      else if leb timeout (P.elapsed i)
      then some false
      else rest

  unfoldable pub wait_healthy : ℕ → Option Bool
  unfolding wait_from
  wait_healthy fuel = wait_from fuel 0
