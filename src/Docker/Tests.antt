-- ===== src/Docker/Tests.antt =====
-- A container that is healthy at the third poll, and the theorem on the wait at it.
use unifi_containers.Prelude.{◌+◌, ◌*◌, true, ltb, arith}
use unifi_containers.Docker.{Polls, wait_healthy}
use unifi_containers.Docker.Ends.{Answered, wait_healthy-Answered}

abbrev third : Polls
third = record { healthy = λ i. ltb 1 i; up = λ i. true; elapsed = λ i. i * 5 }

wait_healthy-Answered_example : Answered third 60 0 (wait_healthy third 60 (60 + 1))
wait_healthy-Answered_example = wait_healthy-Answered third 60 (λ j. omega arith)
