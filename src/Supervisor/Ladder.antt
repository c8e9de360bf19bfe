-- ===== src/Supervisor/Ladder.antt =====
-- The ladder stays within its budget and always signals the group.
use unifi_containers.Prelude.{
  ℕ, ◌+◌, ◌-◌, ◌≤◌, ◌≡◌, refl, min, Bool, true, false, Option, none, some, Has, inl, inr, ◌∙◌,
  arith, ltb, if◌then◌else◌,
}
use unifi_containers.Supervisor.{
  Signal, sigterm, sigkill, Action, polled, signalled, Processes, Supervisor, did, wait_time,
  running, wait_for_exit, signal_group, pause_until, graceful_rung, pause_rung, kill_rung, stop,
  kill_grace, ignored_stops, requested_stop, waited, paused,
}

min_le_left : (a b : ℕ) → min a b ≤ a
min_le_left a b = omega arith

min_le_right : (a b : ℕ) → min a b ≤ b
min_le_right a b = omega arith

wait_time_le : (o : Option ℕ) (n : ℕ) → wait_time o n ≤ n
unfolding wait_time
wait_time_le none n = omega arith
wait_time_le (some d) n = omega (arith, min_le_right d n)

-- What a rung leaves: it has taken at most so long, and not gone past the deadline.
pub record Within (limit deadline : ℕ) (s t : Supervisor) : Type 0 where
  pub not_before : s.clock ≤ t.clock
  pub limited : t.clock ≤ s.clock + limit
  pub in_time : s.clock ≤ deadline → t.clock ≤ deadline
  pub same_pgid : t.has_pgid ≡ s.has_pgid
  pub keeps : (a : Action) → Has a s.actions → Has a t.actions

module _ (P : Processes) where
  Within-refl : (limit deadline : ℕ) (s : Supervisor) → Within limit deadline s s
  Within-refl limit deadline s = record {
    not_before = omega arith;
    limited = omega arith;
    in_time = λ h. h;
    same_pgid = refl;
    keeps = λ a h. h;
  }

  Within-did :
      (a : Action) (d limit deadline : ℕ) (s : Supervisor)
      → d ≤ limit
      → d ≤ deadline - s.clock
      → Within limit deadline s (did a d s)
  unfolding did
  Within-did a d limit deadline s h k = record {
    not_before = omega arith;
    limited = omega arith;
    in_time = λ l. omega arith;
    same_pgid = refl;
    keeps = λ b m. inr m;
  }

  wait-Within :
      (deadline want : ℕ) (s : Supervisor)
      → Within want deadline s (wait_for_exit P deadline want s)
  unfolding wait_for_exit
  wait-Within deadline want s =
      let room = min want (deadline - s.clock) in
      let d = wait_time (P.exits_after s.actions) room in
      let short = wait_time_le (P.exits_after s.actions) room in
      from s.has_child d (omega (arith, short, min_le_left want (deadline - s.clock)))
        (omega (arith, short, min_le_right want (deadline - s.clock)))
    where
      from :
          (b : Bool) (d : ℕ)
          → d ≤ want
          → d ≤ deadline - s.clock
          → Within want deadline s (if b then did (waited d) d s else s)
      from true d h k = Within-did (waited d) d want deadline s h k
      from false d h k = Within-refl want deadline s

  pause-Within :
      (deadline want : ℕ) (s : Supervisor) → Within want deadline s (pause_until P deadline want s)
  unfolding pause_until
  pause-Within deadline want s =
      let d = min want (deadline - s.clock) in
      from (ltb 0 d) d (min_le_left want (deadline - s.clock))
        (min_le_right want (deadline - s.clock))
    where
      from :
          (b : Bool) (d : ℕ)
          → d ≤ want
          → d ≤ deadline - s.clock
          → Within want deadline s (if b then did (paused d) d s else s)
      from true d h k = Within-did (paused d) d want deadline s h k
      from false d h k = Within-refl want deadline s

  Within-trans :
      (l m deadline : ℕ) {r s t : Supervisor}
      → Within l deadline r s
      → Within m deadline s t
      → Within (l + m) deadline r t
  Within-trans l m deadline h k = record {
    not_before = omega (arith, h.not_before, k.not_before);
    limited = omega (arith, h.limited, k.limited);
    in_time = λ e. k.in_time (h.in_time e);
    same_pgid = k.same_pgid ∙ h.same_pgid;
    keeps = λ a e. k.keeps a (h.keeps a e);
  }

  running-Within : (deadline : ℕ) (s : Supervisor) → Within 0 deadline s (running P s).1
  unfolding running
  running-Within deadline s = from s.has_child
    where
      from :
          (b : Bool)
          → (let p : Bool × Supervisor =
                if b
                then (P.alive s.actions, did (polled (P.alive s.actions)) 0 s)
                else (false, s) in
              Within 0 deadline s p.1)
      from true = Within-did _ 0 0 deadline s (omega arith) (omega arith)
      from false = Within-refl 0 deadline s

  -- The group is signalled if there is one.
  record Signals (sig : Signal) (deadline : ℕ) (s t : Supervisor) : Type 0 where
    within : Within 0 deadline s t
    sent : s.has_pgid ≡ true → (hit : Bool) × Has (signalled sig hit) t.actions

  signal-Signals :
      (sig : Signal) (deadline : ℕ) (s : Supervisor)
      → Signals sig deadline s (signal_group P sig s).1
  unfolding signal_group did
  signal-Signals sig deadline s = from s.has_pgid refl
    where
      hit : Bool
      hit = P.group sig s.actions

      from :
          (b : Bool)
          → s.has_pgid ≡ b
          → (let p : Bool × Supervisor =
                if b then (hit, did (signalled sig hit) 0 s) else (false, s) in
              Signals sig deadline s p.1)
      from true e = record {
        within = Within-did (signalled sig hit) 0 0 deadline s (omega arith) (omega arith);
        sent = λ h. (hit, inl refl);
      }
      from false e = record { within = Within-refl 0 deadline s; sent = λ h. cc }

  graceful-Within :
      (deadline : ℕ) (p : Bool × Supervisor) → Within 3000 deadline p.1 (graceful_rung P deadline p)
  unfolding graceful_rung
  graceful-Within deadline (false, s) = Within-refl 3000 deadline s
  graceful-Within deadline (true, s) =
      Within-trans 0 3000 deadline
        (Within-did requested_stop 0 0 deadline s (omega arith) (omega arith))
        (wait-Within deadline 3000 (did requested_stop 0 s))

  pause_rung-Within :
      (deadline : ℕ) (p : Bool × Supervisor) → Within 3000 deadline p.1 (pause_rung P deadline p)
  unfolding pause_rung
  pause_rung-Within deadline (false, s) = Within-refl 3000 deadline s
  pause_rung-Within deadline (true, s) = pause-Within deadline 3000 s

  -- The last rung has a deadline of its own.
  record LastRung (s t : Supervisor) : Type 0 where
    last_limited : t.clock ≤ s.clock + 1000
    last_keeps : (a : Action) → Has a s.actions → Has a t.actions

  kill-LastRung : (p : Bool × Supervisor) → LastRung p.1 (kill_rung P p)
  unfolding kill_rung
  kill-LastRung (false, s) = record { last_limited = omega arith; last_keeps = λ a h. h }
  kill-LastRung (true, s) =
      let m = (signal_group P sigkill s).1 in
      let first = (signal-Signals sigkill (m.clock + 1000) s).within in
      let second = wait-Within (m.clock + 1000) 1000 m in
      record {
        last_limited = omega (arith, first.limited, second.limited);
        last_keeps = λ a h. second.keeps a (first.keeps a h);
      }

  -- What the whole ladder has done: its time, and its signal to the group.
  pub record Laddered (budget : ℕ) (s t : Supervisor) : Type 0 where
    pub by_budget : t.clock ≤ s.clock + budget + kill_grace
    pub by_rungs : t.clock ≤ s.clock + 7000
    pub terminated : s.has_pgid ≡ true → (hit : Bool) × Has (signalled sigterm hit) t.actions

  stop-Laddered : (budget : ℕ) (s : Supervisor) → Laddered budget s (stop P budget s)
  unfolding stop did
  stop-Laddered budget s =
      let deadline = s.clock + budget in
      let s0 = did ignored_stops 0 s in
      let polled_once = running P s0 in
      let s1 = graceful_rung P deadline polled_once in
      let term = signal_group P sigterm s1 in
      let s2 = pause_rung P deadline term in
      let a =
        Within-trans 0 0 deadline
          (Within-did ignored_stops 0 0 deadline s (omega arith) (omega arith))
          (running-Within deadline s0) in
      let b = Within-trans 0 3000 deadline a (graceful-Within deadline polled_once) in
      let c = signal-Signals sigterm deadline s1 in
      let pause = pause_rung-Within deadline term in
      let last = kill-LastRung (running P s2) in
      let polled_twice =
        Within-trans 6000 0 deadline
          (Within-trans 3000 3000 deadline b (Within-trans 0 3000 deadline c.within pause))
          (running-Within deadline s2) in
      let on_time = polled_twice.in_time (omega arith) in
      record {
        by_budget = omega (arith, last.last_limited, on_time);
        by_rungs = omega (arith, last.last_limited, polled_twice.limited);
        terminated = λ h.
            let (hit, m) = c.sent (b.same_pgid ∙ h) in
            (hit, last.last_keeps _ ((running-Within deadline s2).keeps _ (pause.keeps _ m)));
      }

  -- The ladder takes at most its budget and the grace after SIGKILL, and never more than seven
  -- seconds, whatever the processes do.
  pub stop_within :
      (budget : ℕ) (s : Supervisor)
      → ((stop P budget s).clock ≤ s.clock + budget + kill_grace)
        × ((stop P budget s).clock ≤ s.clock + 7000)
  stop_within budget s = let l = stop-Laddered budget s in (l.by_budget, l.by_rungs)

  -- If there is a process group, SIGTERM is sent to it, whether or not the controller has already
  -- exited.
  pub stop_terminates :
      (budget : ℕ) (s : Supervisor)
      → s.has_pgid ≡ true
      → (hit : Bool) × Has (signalled sigterm hit) (stop P budget s).actions
  stop_terminates budget s = (stop-Laddered budget s).terminated
