-- ===== src/Health.antt =====
-- healthcheck.py: the marker gate and the stages behind it, over any number of health checks.
-- A world holds the markers on disk and the answers that the probes have had so far, the latest
-- first. What a probe answers, and whether a file can be written or removed, is a function of
-- these answers, so that every behaviour of the controller and of the disk is one `Site`.
pub mod Proof
pub mod Logins
pub mod Passes
pub mod Tests
use unifi_containers.Prelude.{
  ℕ, zero, suc, Bool, true, false, ◌||◌, ◌&&◌, not, ◌==◌, leb, ltb, Option, none, some, List, [],
  ◌∷◌, if◌then◌else◌,
}

-- What a probe answered.
pub data Event : Type 0 where
  logged_in : Bool → Event
  v2_answered : ℕ → Event
  fleet_counted : Bool → Event

-- MARKER and LOGIN_MARKER
pub data Marker : Type 0 where
  ready_marker login_marker : Marker

pub record World : Type 0 where
  pub ready : Bool
  pub login : Bool
  pub trace : List Event

-- `os.path.exists(marker)`
unfoldable pub present : Marker → World → Bool
present ready_marker w = w.ready
present login_marker w = w.login

unfoldable pub with_marker : Bool → Marker → World → World
with_marker b ready_marker w = record { ready = b; login = w.login; trace = w.trace }
with_marker b login_marker w = record { ready = w.ready; login = b; trace = w.trace }

pub record Site : Type 0 where
  pub login_ok : List Event → Bool
  pub v2_status : List Event → ℕ
  -- The fleet stage, where the variant has one.
  pub fleet_ready : Option (List Event → Bool)
  pub writable : List Event → Bool
  pub removable : List Event → Bool

unfoldable pub v2_settled : ℕ → Bool
v2_settled status = leb 200 status && ltb status 500

-- `status in (401, 403)`
unfoldable pub is_expired : ℕ → Bool
is_expired status = status == 401 || status == 403

module _ (S : Site) where
  -- What `marker_gate` does with the answer of the probe.
  unfoldable pub settle : Marker → Bool × World → Bool × World
  settle m (false, w) = (false, w)
  settle m (true, w) = (true, if S.writable w.trace then with_marker true m w else w)

  unfoldable pub marker_gate : (World → Bool × World) → Marker → World → Bool × World
  marker_gate probe m w = if present m w then (true, w) else settle m (probe w)

  unfoldable pub forget : Marker → World → World
  forget m w = if S.removable w.trace then with_marker false m w else w

  unfoldable pub fleet_stage : Option (World → Bool × World) → World → Bool × World
  fleet_stage none w = (true, w)
  fleet_stage (some fleet) w = fleet w

  -- The tests of `staged` on the status.
  unfoldable pub after_status : Option (World → Bool × World) → ℕ × World → Bool × World
  after_status fleet (status, w) =
      if is_expired status
      then (false, forget login_marker w)
      else if not (v2_settled status)
      then (false, w)
      else fleet_stage fleet w

  unfoldable pub after_login :
      (World → ℕ × World) → Option (World → Bool × World) → Bool × World → Bool × World
  after_login v2 fleet (false, w) = (false, w)
  after_login v2 fleet (true, w) = after_status fleet (v2 w)

  unfoldable pub staged :
      (World → Bool × World)
      → (World → ℕ × World)
      → Option (World → Bool × World)
      → World
      → Bool × World
  unfolding after_login after_status
  staged login v2 fleet w = after_login v2 fleet (marker_gate login login_marker w)

  -- The probes, each of which leaves its answer in the trace.
  unfoldable pub ask_login : World → Bool × World
  ask_login w =
      let b = S.login_ok w.trace in
      (b, record { ready = w.ready; login = w.login; trace = logged_in b ∷ w.trace })

  unfoldable pub ask_v2 : World → ℕ × World
  ask_v2 w =
      let s = S.v2_status w.trace in
      (s, record { ready = w.ready; login = w.login; trace = v2_answered s ∷ w.trace })

  unfoldable pub ask_fleet : (List Event → Bool) → World → Bool × World
  ask_fleet f w =
      let b = f w.trace in
      (b, record { ready = w.ready; login = w.login; trace = fleet_counted b ∷ w.trace })

  unfoldable pub fleet_probe : Option (List Event → Bool) → Option (World → Bool × World)
  fleet_probe none = none
  fleet_probe (some f) = some (ask_fleet f)

  -- One health check of a variant with an admin.
  unfoldable pub tick : World → Bool × World
  unfolding marker_gate settle staged
  tick = marker_gate (staged ask_login ask_v2 (fleet_probe S.fleet_ready)) ready_marker

  -- The world after so many health checks.
  unfoldable pub ticks : ℕ → World → World
  ticks zero w = w
  ticks (suc n) w = ticks n (tick w).1

-- A boot: `clear_readiness_state` has removed the markers, and nothing has been asked.
abbrev pub booted : World
booted = record { ready = false; login = false; trace = [] }
