-- ===== src/Health/Tests.antt =====
-- A controller that comes up slowly, and the theorems on health checks at it.
use unifi_containers.Prelude.{
  ◌+◌, ◌≤◌, ◌≡◌, refl, true, false, none, some, ltb, length, if◌then◌else◌,
}
use unifi_containers.Health.{
  Site, tick, ticks, booted, v2_settled, is_expired, present, with_marker, fleet_stage, ask_login,
  ask_v2, ask_fleet, fleet_probe,
}
use unifi_containers.Health.Proof.{Evidence, tick_sound}
use unifi_containers.Health.Logins.{logins, expiries, login_once}
use unifi_containers.Health.Passes.{AnswersWell, tick_passes}

-- The second login succeeds; the v2 surface answers 500 until five answers have been given, and
-- the fleet is complete after six.
abbrev slow : Site
slow = record {
  login_ok = λ t. ltb 0 (length t);
  v2_status = λ t. if ltb (length t) 5 then 500 else 200;
  fleet_ready = some (λ t. ltb 5 (length t));
  writable = λ t. true;
  removable = λ t. true;
}

slow_passes : (tick slow (ticks slow 5 booted)).0 ≡ true
unfolding tick ticks present ask_login is_expired ask_v2 with_marker v2_settled fleet_stage
    fleet_probe ask_fleet
slow_passes = refl

tick_sound_example : Evidence slow (tick slow (ticks slow 5 booted)).1.trace
tick_sound_example = tick_sound slow 5 slow_passes

login_once_example : logins (ticks slow 5 booted).trace ≤ expiries (ticks slow 5 booted).trace + 1
login_once_example = login_once slow (λ t. refl) 5

-- A controller without the v2 surface and without a fleet.
abbrev old : Site
old = record {
  login_ok = λ t. true;
  v2_status = λ t. 404;
  fleet_ready = none;
  writable = λ t. false;
  removable = λ t. false;
}

old-AnswersWell : AnswersWell old
unfolding v2_settled is_expired
old-AnswersWell = record {
  login_well = λ t. refl;
  v2_well = λ t. refl;
  session_well = λ t. refl;
  fleet_well = λ f t e. cc;
}

tick_passes_example : (tick old booted).0 ≡ true
tick_passes_example = tick_passes old old-AnswersWell booted
