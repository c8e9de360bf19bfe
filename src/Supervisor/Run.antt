-- ===== src/Supervisor/Run.antt =====
-- `spawn`, `run` and `request_graceful_stop` of the supervisor. A stop signal arrives before the
-- controller is started or while `run` waits for it.
use unifi_containers.Prelude.{
  ℕ, ◌+◌, ◌≤◌, refl, Bool, true, false, Option, none, some, List, [], ◌∷◌, Has, if◌then◌else◌,
}
use unifi_containers.Supervisor.{
  ℤ, sigterm, signalled, Action, waited, Processes, Supervisor, did, exit_status, stop,
}
use unifi_containers.Supervisor.Ladder.{stop_within, stop_terminates}

-- What `request_graceful_stop` does to the run directory.
pub data StopFile : Type 0 where
  removed_looping wrote_stop : StopFile

-- Whether the request stands; the removal may fail without a word, the stop file may not.
unfoldable pub request_graceful_stop : Bool → Bool → Bool × List StopFile
request_graceful_stop removable writable =
    let first : List StopFile = if removable then removed_looping ∷ [] else [] in
    if writable then (true, wrote_stop ∷ first) else (false, first)

-- The child and its group, which is known also if the child has exited already.
unfoldable pub spawn : Supervisor → Supervisor
spawn s = record { has_child = true; has_pgid = true; clock = s.clock; actions = s.actions }

-- `none` is a stop signal before the start, and else the wait takes so long, until the controller exits
-- or a stop signal arrives.
unfoldable pub run_until_stop : Option ℕ → Supervisor → Supervisor
unfolding spawn did
run_until_stop none s = s
run_until_stop (some d) s = did (waited d) d (spawn s)

module _ (P : Processes) (code : List Action → Option ℤ) where
  unfoldable pub exit_code : Supervisor → Option ℤ
  exit_code s = if s.has_child then code s.actions else none

  unfoldable pub run : ℕ → Option ℕ → Supervisor → ℕ × Supervisor
  unfolding run_until_stop exit_code
  run budget wait s =
      let t = stop P budget (run_until_stop wait s) in (exit_status (exit_code t), t)

  -- A run that has started the controller ends at most seven seconds after the wait for it has ended,
  -- and sends SIGTERM to the group of the controller, however the wait has ended.
  pub run_stops :
      (budget d : ℕ) (s : Supervisor)
      → ((run budget (some d) s).1.clock ≤ s.clock + d + 7000)
        × ((hit : Bool) × Has (signalled sigterm hit) (run budget (some d) s).1.actions)
  unfolding run spawn did
  run_stops budget d s =
      let t : Supervisor = run_until_stop (some d) s in
      ((stop_within P budget t).1, stop_terminates P budget t refl)
