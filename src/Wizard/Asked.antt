-- ===== src/Wizard/Asked.antt =====
-- What a wizard that ends well has asked of the controller, in which order, and what was answered.
use unifi_containers.Prelude.{
  sym, subst, append_assoc, length-append, All-append, ℕ, zero, suc, ◌≤◌, ◌≡◌, refl, ap, ◌∙◌, Bool,
  true, false, List, [], ◌∷◌, ◌++◌, if◌then◌else◌, arith, length, All, Bool-cases, inl, inr,
}
use unifi_containers.Prelude.Results.{Result, ok, err}
use unifi_containers.Text.{Text, codes}
use unifi_containers.Json.{is_text, field, string, end}
use unifi_containers.Http.{Request, Outcome, respond, Cookies, Wire, is_ok, json, json_request}
use unifi_containers.Clients.Network.{
  NetworkApp, network_app, is_up, up_of, rc_of, add_default_admin, set_super_identity,
  set_installed, login, get_request, post_request,
}
use unifi_containers.Wizard.{WizardError, wait_attempts, wait_up, seed_steps, seed}

-- The requests with their outcomes, the latest first, and a controller that answers by them.
abbrev pub Log : Type 0
Log = List (Request × Outcome)

abbrev pub Controller : Type 0
Controller = Request → Cookies → Log → Outcome × Cookies

unfoldable pub logged : Controller → Request → Cookies → Log → Outcome × Cookies × Log
logged c q cookies t = let (outcome, given) = c q cookies t in (outcome, given, (q, outcome) ∷ t)

abbrev pub awake : Log → Log
awake t = t

all_done :
    (b1 b3 b4 : Bool) (e1 e3 e4 : WizardError) (w1 w3 w4 t : Wire Log)
    → ◌≡◌ {A = Result WizardError (Unit {0}) × Wire Log}
        (if b1
          then (if b3 then (if b4 then ok tt else err e4, w4) else (err e3, w3))
          else (err e1, w1))
        (ok tt, t)
    → (b1 ≡ true) × (b3 ≡ true) × (b4 ≡ true) × (w4 ≡ t)
all_done true true true e1 e3 e4 w1 w3 w4 t h = (refl, refl, refl, ap (λ p. p.1) h)
all_done true true false e1 e3 e4 w1 w3 w4 t h = absurd (cc (ap (λ p. p.0) h))
all_done true false b4 e1 e3 e4 w1 w3 w4 t h = absurd (cc (ap (λ p. p.0) h))
all_done false b3 b4 e1 e3 e4 w1 w3 w4 t h = absurd (cc (ap (λ p. p.0) h))

module _ (c : Controller) (url : Text) where
  abbrev pub app : NetworkApp
  app = network_app url false

  abbrev pub status_request : Request
  status_request = get_request app (codes "/status")

  abbrev pub login_request : Text → Text → Request
  login_request username password =
      post_request app (codes "/api/login") (
        field (codes "username") (string username) (field (codes "password") (string password) end))

  abbrev pub installed_request : Request
  installed_request =
      post_request app (codes "/api/cmd/system")
        (field (codes "cmd") (string (codes "set-installed")) end)

  abbrev pub identity_request : Text → Request
  identity_request name =
      post_request app (codes "/api/set/setting/super_identity")
        (field (codes "name") (string name) end)

  abbrev pub admin_request : Text → Text → Request
  admin_request name password = post_request app (codes "/api/cmd/sitemgr") (
      field (codes "cmd") (string (codes "add-default-admin")) (
        field (codes "name") (string name) (
          field (codes "email") (string (codes "admin@example.invalid"))
            (field (codes "x_password") (string password) end))))

  -- The answer to a request without cookies.
  abbrev pub answer : Request → Log → Outcome
  answer q t = (c q [] t).0

  abbrev pub after_request : Request → Log → Log
  after_request q t = (q, answer q t) ∷ t

  -- The controller was asked for its status at most so often, and for nothing else.
  wait_up_asked :
      (n : ℕ) (w : Wire Log)
      → (asked : Log) × ((wait_up (logged c) awake app n w).1.net ≡ asked ++ w.net)
        × (length asked ≤ n)
        × All (λ e. e.0 ≡ status_request) asked
        × ((wait_up (logged c) awake app n w).1.jar ≡ w.jar)
  unfolding wait_up is_up json_request logged network_app
  wait_up_asked zero w = ([], refl, omega arith, tt, refl)
  wait_up_asked (suc n) w =
      let first : Request × Outcome = (status_request, answer status_request w.net) in
      let w1 : Wire Log = record { net = first ∷ w.net; jar = w.jar; writable = w.writable } in
      let (asked, now, short, all, jar) = wait_up_asked n w1 in
      elim (Bool-cases (up_of (json (respond (answer status_request w.net))))) [
        | inl up ↦ rw (up, wait_up) (first ∷ [], refl, omega arith, (refl, tt), refl)
        | inr down ↦
            rw (down, wait_up)
              (
                asked ++ first ∷ [],
                now ∙ sym (append_assoc asked (first ∷ []) w.net),
                omega (arith, short, length-append {0} asked (first ∷ [])),
                All-append (λ (e : Request × Outcome). e.0 ≡ status_request) asked (first ∷ []) all
                    (refl, tt),
                jar,
              )
      ]

  -- From the log `n` on: the admin is created, the installation named and marked, and the admin
  -- logged in, in this order and once each; creating and marking are answered by a success, and the
  -- login by a body with the code "ok".
  abbrev pub SetUp : Text → Text → Text → Log → Log → Type 0
  SetUp username password identity n t =
      let t1 : Log = after_request (admin_request username password) n in
      let t2 : Log = after_request (identity_request identity) t1 in
      let t3 : Log = after_request installed_request t2 in
      (t ≡ after_request (login_request username password) t3)
      × (is_ok (respond (answer (admin_request username password) n)) ≡ true)
      × (is_ok (respond (answer installed_request t2)) ≡ true)
      × (is_text (codes "ok") (rc_of (json (respond (answer (login_request username password) t3))))
          ≡ true)

  steps_asked :
      (username password identity : Text) (w t : Wire Log)
      → seed_steps (logged c) awake app username password identity w ≡ (ok tt, t)
      → SetUp username password identity w.net t.net × (t.jar ≡ w.jar)
  unfolding seed_steps add_default_admin set_super_identity set_installed login json_request logged
      network_app
  steps_asked username password identity w t h =
      let (admin, installed, logged_in, same) = all_done _ _ _ _ _ _ _ _ _ t h in
      (
        (ap (λ (x : Wire Log). x.net) (sym same), admin, installed, logged_in),
        ap (λ (x : Wire Log). x.jar) (sym same),
      )

  -- A wizard that ends well has asked for the status at most `wait_attempts` times, then created the
  -- admin, named and marked the installation and logged in, in this order and once each, and nothing
  -- else; creating and marking were answered by a success, the login by the code "ok". The cookie
  -- jar is left alone.
  pub seed_asked :
      (username password identity : Text) (w t : Wire Log)
      → seed (logged c) awake url username password identity w ≡ (ok tt, t)
      → (asked : Log) × (length asked ≤ wait_attempts)
        × All (λ e. e.0 ≡ status_request) asked
        × SetUp username password identity (asked ++ w.net) t.net
        × (t.jar ≡ w.jar)
  unfolding seed
  seed_asked username password identity w t h =
      let (asked, now, short, all, jar) = wait_up_asked wait_attempts w in
      let (set_up, jar') =
        steps_asked username password identity (wait_up (logged c) awake app wait_attempts w).1 t
          h in
      (
        asked,
        short,
        all,
        subst (λ n. SetUp username password identity n t.net) now set_up,
        jar' ∙ jar,
      )
