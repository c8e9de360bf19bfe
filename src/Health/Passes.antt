-- ===== src/Health/Passes.antt =====
-- A health check passes as soon as the controller answers well.
use unifi_containers.Prelude.{◌≡◌, refl, Bool, true, false, Option, none, some, List, if◌then◌else◌}
use unifi_containers.Health.{
  Event, World, Site, ready_marker, login_marker, present, v2_settled, is_expired, settle,
  marker_gate, fleet_stage, after_status, after_login, staged, ask_login, ask_v2, ask_fleet,
  fleet_probe, tick,
}

-- The controller lets the admin in, its v2 surface has settled, and its fleet is complete.
pub record AnswersWell (S : Site) : Type 0 where
  pub login_well : (t : List Event) → S.login_ok t ≡ true
  pub v2_well : (t : List Event) → v2_settled (S.v2_status t) ≡ true
  pub session_well : (t : List Event) → is_expired (S.v2_status t) ≡ false
  pub fleet_well : (f : List Event → Bool) (t : List Event) → S.fleet_ready ≡ some f → f t ≡ true

module _ (S : Site) (A : AnswersWell S) where
  fleet_stage_passes :
      (o : Option (List Event → Bool)) (w : World)
      → S.fleet_ready ≡ o
      → (fleet_stage S (fleet_probe S o) w).0 ≡ true
  unfolding fleet_stage fleet_probe ask_fleet
  fleet_stage_passes none w e = refl
  fleet_stage_passes (some f) w e = A.fleet_well f w.trace e

  after_login_passes :
      (p : Bool × World)
      → p.0 ≡ true
      → (after_login S (ask_v2 S) (fleet_probe S S.fleet_ready) p).0 ≡ true
  unfolding after_login after_status ask_v2
  after_login_passes (false, w) h = cc
  after_login_passes (true, w) h =
      rw (A.session_well w.trace, A.v2_well w.trace) (fleet_stage_passes S.fleet_ready _ refl)

  login_passes :
      (b : Bool) (w : World)
      → (if b then (true, w) else settle S login_marker (ask_login S w)).0 ≡ true
  unfolding ask_login settle
  login_passes true w = refl
  login_passes false w = rw (A.login_well w.trace) refl

  settle_passes :
      (b : Bool) (w : World) (p : Bool × World)
      → p.0 ≡ true
      → (if b then (true, w) else settle S ready_marker p).0 ≡ true
  unfolding settle
  settle_passes true w p h = refl
  settle_passes false w (false, m) h = h
  settle_passes false w (true, m) h = refl

  -- If the controller answers well, the check passes, whatever markers an earlier check has left
  -- and whether or not they can be written.
  pub tick_passes : (w : World) → (tick S w).0 ≡ true
  unfolding tick marker_gate present staged
  tick_passes w = settle_passes w.ready w _ (after_login_passes _ (login_passes w.login w))
