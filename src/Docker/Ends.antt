-- ===== src/Docker/Ends.antt =====
-- The wait ends, and says yes only of a container that was seen healthy.
use unifi_containers.Prelude.{
  ℕ, zero, suc, ◌+◌, ◌≤◌, ◌<◌, ◌≡◌, refl, Bool, true, false, leb, Option, some, arith, Bool-cases,
  inl, inr,
}
use unifi_containers.Docker.{Polls, wait_from, wait_healthy}

module _ (P : Polls) (timeout : ℕ) where
  -- A poll saw the container healthy, and each poll before saw it run and was in time.
  pub record SeenHealthy (first : ℕ) : Type 0 where
    pub round : ℕ
    pub from_first : first ≤ round
    pub was_healthy : P.healthy round ≡ true
    pub ran : (j : ℕ) → first ≤ j → j < round → P.up j ≡ true
    pub in_time : (j : ℕ) → first ≤ j → j < round → P.elapsed j < timeout

  -- The answer of the wait from a poll on.
  pub record Answered (first : ℕ) (answer : Option Bool) : Type 0 where
    pub verdict : Bool
    pub given : answer ≡ some verdict
    pub proven : verdict ≡ true → SeenHealthy first

  later_j : (i j : ℕ) → i ≤ j → ¬ (i ≡ j) → (i + 1) ≤ j
  later_j i j h n = omega arith

  SeenHealthy-later :
      (i : ℕ) → P.up i ≡ true → P.elapsed i < timeout → SeenHealthy (i + 1) → SeenHealthy i
  SeenHealthy-later i up early s = record {
    round = s.round;
    from_first = omega (arith, s.from_first);
    was_healthy = s.was_healthy;
    ran = λ j h k. elim (Bool-cases (leb (i + 1) j)) [
      | inl e ↦ s.ran j (ground arith) k
      | inr e ↦ let same : i ≡ j = ground arith in rw (← same) up
    ];
    in_time = λ j h k. elim (Bool-cases (leb (i + 1) j)) [
      | inl e ↦ s.in_time j (ground arith) k
      | inr e ↦ let same : i ≡ j = ground arith in rw (← same) early
    ];
  }

  wait_from-Answered :
      (fuel i : ℕ)
      → ((j : ℕ) → j ≤ P.elapsed j)
      → timeout < i + fuel
      → 0 < fuel
      → Answered i (wait_from P timeout fuel i)
  unfolding wait_from
  wait_from-Answered zero i passes enough some_fuel = absurd (omega arith)
  wait_from-Answered (suc fuel) i passes enough some_fuel = elim (Bool-cases (P.healthy i)) [
    | inl e ↦ rw e (record {
      verdict = true;
      given = refl;
      proven = λ h. record {
        round = i;
        from_first = omega arith;
        was_healthy = e;
        ran = λ j h k. absurd (omega arith);
        in_time = λ j h k. absurd (omega arith);
      };
    })
    | inr e ↦ elim (Bool-cases (P.up i)) [
      | inr down ↦ rw (e, down) (record { verdict = false; given = refl; proven = λ h. cc })
      | inl up ↦ elim (Bool-cases (leb timeout (P.elapsed i))) [
        | inl late ↦ rw (e, up, late) (record { verdict = false; given = refl; proven = λ h. cc })
        | inr early ↦
            let soon : P.elapsed i < timeout = ground arith in
            let below = passes i in
            let rest = wait_from-Answered fuel (i + 1) passes (omega arith) (omega arith) in
            rw (e, up, early)
              (record {
                verdict = rest.verdict;
                given = rest.given;
                proven = λ h. SeenHealthy-later i up soon (rest.proven h);
              })
      ]
    ]
  ]

  -- If a second at least passes between two polls, the wait ends after at most one poll more than
  -- the timeout has seconds, and it says yes only if a poll saw the container healthy while each poll
  -- before it saw it run and was in time.
  pub wait_healthy-Answered :
      ((j : ℕ) → j ≤ P.elapsed j) → Answered 0 (wait_healthy P timeout (timeout + 1))
  unfolding wait_healthy
  wait_healthy-Answered passes =
      wait_from-Answered (timeout + 1) 0 passes (omega arith) (omega arith)
