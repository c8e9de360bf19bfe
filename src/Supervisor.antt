-- ===== src/Supervisor.antt =====
-- entrypoint/network.py: the supervisor of the controller and its shutdown ladder.
-- What the processes do is a function of the actions so far, the latest first, so that every
-- behaviour of them is one `Processes`. Times are in milliseconds; only waits and pauses take time.
pub mod Ladder
pub mod Run
pub mod Tests
use unifi_containers.Prelude.{
  ℕ, zero, suc, ◌+◌, ◌-◌, min, Bool, true, false, not, leb, ltb, Option, none, some, List, [], ◌∷◌,
  if◌then◌else◌,
}

-- A return code, which is negative for a signal: `negsuc n` is -(n + 1).
pub data ℤ : Type 0 where
  pos negsuc : ℕ → ℤ

pub data Signal : Type 0 where
  sigterm sigkill : Signal

-- What the supervisor does, with what it learns.
pub data Action : Type 0 where
  ignored_stops : Action
  polled : Bool → Action
  requested_stop : Action
  waited : ℕ → Action
  signalled : Signal → Bool → Action
  paused : ℕ → Action

pub record Processes : Type 0 where
  -- Whether the controller has not exited yet, at a poll.
  pub alive : List Action → Bool
  -- After how long the controller exits, if it does while it is waited for.
  pub exits_after : List Action → Option ℕ
  -- Whether `killpg` finds the group and may signal it.
  pub group : Signal → List Action → Bool

pub record Supervisor : Type 0 where
  pub has_child : Bool
  pub has_pgid : Bool
  pub clock : ℕ
  pub actions : List Action

abbrev pub shutdown_budget : ℕ
shutdown_budget = 8000

abbrev pub graceful_wait : ℕ
graceful_wait = 3000

abbrev pub db_wait : ℕ
db_wait = 3000

abbrev pub kill_grace : ℕ
kill_grace = 1000

-- An action that takes so long.
unfoldable pub did : Action → ℕ → Supervisor → Supervisor
did a d s = record {
  has_child = s.has_child;
  has_pgid = s.has_pgid;
  clock = s.clock + d;
  actions = a ∷ s.actions;
}

-- How long a wait with a timeout takes.
unfoldable pub wait_time : Option ℕ → ℕ → ℕ
wait_time none timeout = timeout
wait_time (some d) timeout = min d timeout

unfoldable pub exit_status : Option ℤ → ℕ
exit_status none = 128 + 15
exit_status (some (pos n)) = n
exit_status (some (negsuc n)) = 128 + (n + 1)

module _ (P : Processes) where
  unfoldable pub running : Supervisor → Bool × Supervisor
  unfolding did
  running s =
      if s.has_child then (let up = P.alive s.actions in (up, did (polled up) 0 s)) else (false, s)

  -- `max(0.0, min(want, deadline - time.monotonic()))`
  unfoldable pub wait_for_exit : ℕ → ℕ → Supervisor → Supervisor
  unfolding did wait_time
  wait_for_exit deadline want s =
      let d = wait_time (P.exits_after s.actions) (min want (deadline - s.clock)) in
      if s.has_child then did (waited d) d s else s

  unfoldable pub signal_group : Signal → Supervisor → Bool × Supervisor
  unfolding did
  signal_group sig s =
      if s.has_pgid
      then (let hit = P.group sig s.actions in (hit, did (signalled sig hit) 0 s))
      else (false, s)

  unfoldable pub pause_until : ℕ → ℕ → Supervisor → Supervisor
  unfolding did
  pause_until deadline want s =
      let remaining = min want (deadline - s.clock) in
      if ltb 0 remaining then did (paused remaining) remaining s else s

  -- The rungs of `stop`, each with the answer of the test before it.
  unfoldable pub graceful_rung : ℕ → Bool × Supervisor → Supervisor
  unfolding did
  graceful_rung deadline (false, s) = s
  graceful_rung deadline (true, s) = wait_for_exit deadline graceful_wait (did requested_stop 0 s)

  unfoldable pub pause_rung : ℕ → Bool × Supervisor → Supervisor
  pause_rung deadline (false, s) = s
  pause_rung deadline (true, s) = pause_until deadline db_wait s

  unfoldable pub kill_rung : Bool × Supervisor → Supervisor
  kill_rung (false, s) = s
  kill_rung (true, s) =
      let m = (signal_group sigkill s).1 in wait_for_exit (m.clock + kill_grace) kill_grace m

  unfoldable pub stop : ℕ → Supervisor → Supervisor
  unfolding did graceful_rung pause_rung kill_rung
  stop budget s =
      let deadline = s.clock + budget in
      let s1 = graceful_rung deadline (running (did ignored_stops 0 s)) in
      let s2 = pause_rung deadline (signal_group sigterm s1) in kill_rung (running s2)
