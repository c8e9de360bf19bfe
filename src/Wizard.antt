-- ===== src/Wizard.antt =====
-- seed/network_wizard.py: the first-run wizard of a Network controller. `sleep` is what a pause
-- does to what lies behind the network; log lines are left out.
pub mod Asked
pub mod Tests
use unifi_containers.Prelude.{
  ℕ, zero, suc, Bool, true, false, List, [], ◌∷◌, Option, none, some, if◌then◌else◌,
}
use unifi_containers.Prelude.Results.{Result, ok, err}
use unifi_containers.Text.{Text, codes}
use unifi_containers.Json.{is_text}
use unifi_containers.Http.{Request, Response, Outcome, Cookies, Wire, is_ok, json}
use unifi_containers.Clients.Network.{
  NetworkApp, network_app, is_up, rc_of, add_default_admin, set_super_identity, set_installed,
  login,
}

-- The step that was refused.
pub data WizardError : Type 0 where
  no_admin not_installed no_login : ℕ → WizardError

abbrev pub seed_identity : Text
seed_identity = codes "unifi-containers-seeded"

abbrev pub wait_attempts : ℕ
wait_attempts = 60

module _ {N : Type 0} (send : Request → Cookies → N → Outcome × Cookies × N) (sleep : N → N) where
  unfoldable pub slept : Wire N → Wire N
  slept w = record { net = sleep w.net; jar = w.jar; writable = w.writable }

  unfoldable pub wait_up : NetworkApp → ℕ → Wire N → Bool × Wire N
  unfolding slept
  wait_up app zero w = (false, w)
  wait_up app (suc n) w =
      let (up, w1) = is_up send app w in
      let rest = wait_up app n (slept w1) in if up then (true, w1) else rest

  -- `seed` from the login on.
  unfoldable pub verify_login :
      NetworkApp → Text → Text → Wire N → Result WizardError (Unit {0}) × Wire N
  verify_login app username password w =
      let (r, w1) = login send app username password w in
      (if is_text (codes "ok") (rc_of (json r)) then ok tt else err (no_login r.status), w1)

  -- From the end of the set-up on.
  unfoldable pub mark_installed :
      NetworkApp → Text → Text → Wire N → Result WizardError (Unit {0}) × Wire N
  unfolding verify_login
  mark_installed app username password w =
      let (r, w1) = set_installed send app w in
      let rest = verify_login app username password w1 in
      if is_ok r then rest else (err (not_installed r.status), w1)

  unfoldable pub seed_steps :
      NetworkApp → Text → Text → Text → Wire N → Result WizardError (Unit {0}) × Wire N
  unfolding mark_installed
  seed_steps app username password identity w =
      let (r, w1) = add_default_admin send app username password w in
      let (_, w2) = set_super_identity send app identity w1 in
      let rest = mark_installed app username password w2 in
      if is_ok r then rest else (err (no_admin r.status), w1)

  -- Whether the controller came up is only printed.
  unfoldable pub seed : Text → Text → Text → Text → Wire N → Result WizardError (Unit {0}) × Wire N
  unfolding seed_steps wait_up
  seed base_url username password identity w =
      let app = network_app base_url false in
      seed_steps app username password identity (wait_up app wait_attempts w).1
