-- ===== src/Supervisor/Tests.antt =====
-- A controller that does not stop, and the theorems on the ladder at it.
use unifi_containers.Prelude.{◌+◌, ◌≤◌, Bool, true, none, some, [], Has}
use unifi_containers.Supervisor.{
  sigterm, signalled, Processes, Supervisor, stop, shutdown_budget, kill_grace,
}
use unifi_containers.Supervisor.Run.{run, run_stops}
use unifi_containers.Supervisor.Ladder.{stop_within}

abbrev stubborn : Processes
stubborn = record { alive = λ t. true; exits_after = λ t. none; group = λ sig t. true }

abbrev supervising : Supervisor
supervising = record { has_child = true; has_pgid = true; clock = 0; actions = [] }

stop_within_example :
    ((stop stubborn shutdown_budget supervising).clock ≤ 0 + shutdown_budget + kill_grace)
    × ((stop stubborn shutdown_budget supervising).clock ≤ 0 + 7000)
stop_within_example = stop_within stubborn shutdown_budget supervising

run_stops_example :
    ((run stubborn (λ t. none) shutdown_budget (some 5) supervising).1.clock ≤ 0 + 5 + 7000)
    × ((hit : Bool) × Has
          (signalled sigterm hit)
          (run stubborn (λ t. none) shutdown_budget (some 5) supervising).1.actions)
run_stops_example = run_stops stubborn (λ t. none) shutdown_budget 5 supervising
