-- ===== src/Wizard/Tests.antt =====
-- A controller that comes up and accepts the wizard, and the theorem at it.
use unifi_containers.Prelude.{◌≡◌, ◌≤◌, refl, true, none, some, [], ◌∷◌, ◌++◌, All, length}
use unifi_containers.Text.{Text, codes, text_eq}
use unifi_containers.Json.{get, truth, is_text, object, string, field, end}
use unifi_containers.Http.{is_ok, json_request, json, respond, answered, failed, Wire, Body}
use unifi_containers.Clients.Network.{
  add_default_admin, network_app, is_up, up_of, set_installed, set_super_identity, rc_of, login,
}
use unifi_containers.Wizard.{seed, wait_attempts}
use unifi_containers.Wizard.Asked.{
  Log, Controller, logged, awake, status_request, SetUp, seed_asked,
}

abbrev said_ok : Body
said_ok = record {
  decoded = some (
      object (
        field (codes "meta")
          (object (
            field (codes "rc") (string (codes "ok"))
              (field (codes "up") (string (codes "yes")) end)))
          end));
  text = [];
}

-- It answers nothing at first.
abbrev controller : Controller
controller q cookies [] = (failed, cookies)
controller q cookies (e ∷ t) = (answered 200 said_ok, cookies)

abbrev fresh : Wire Log
fresh = record { net = []; jar = none; writable = true }

abbrev user : Text
user = codes "admin"

abbrev url : Text
url = codes "https://127.0.0.1:8443/"

abbrev ended : Wire Log
ended = (seed (logged controller) awake url user user user fresh).1

seed_asked_example :
    (asked : Log) × (length asked ≤ wait_attempts)
    × All (λ e. e.0 ≡ status_request controller url) asked
    × SetUp controller url user user user (asked ++ []) ended.net
    × (ended.jar ≡ none)
unfolding seed is_ok add_default_admin json_request network_app respond logged is_up up_of json get
    truth text_eq set_installed set_super_identity is_text rc_of login
seed_asked_example = seed_asked controller url user user user fresh ended refl
