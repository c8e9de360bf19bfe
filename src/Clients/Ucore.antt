-- ===== src/Clients/Ucore.antt =====
-- unifi/ucore.py: the API of unifi-core.
use unifi_containers.Prelude.{ℕ, Bool, false, Option, none, some, List, [], ◌∷◌, ◌++◌}
use unifi_containers.Text.{Text, codes}
use unifi_containers.Json.{Json, object, string, boolean, end, field, is_inside}
use unifi_containers.Clients.Network.{rstrip_slash}
use unifi_containers.Http.{Request, Response, Outcome, Cookies, Wire, json_request, json}

pub record Ucore : Type 0 where
  pub base_url : Text
  pub cookie_jar : Bool

unfoldable pub ucore : Text → Bool → Ucore
ucore url jar = record { base_url = rstrip_slash url; cookie_jar = jar }

abbrev pub classic_proxy : Text
classic_proxy = codes "/proxy/network/api/s/default/stat/device"

abbrev pub v2_proxy : Text
v2_proxy = codes "/proxy/network/v2/api/site/default/firewall-policies"

unfoldable pub plain_get : Text → Text → List (Text × Text) → Request
plain_get base path headers = record {
  method = codes "GET";
  url = base ++ path;
  payload = none;
  headers = headers;
}

unfoldable pub plain_post : Text → Text → Json → Request
plain_post base path payload = record {
  method = codes "POST";
  url = base ++ path;
  payload = some payload;
  headers = [];
}

module _ {N : Type 0} (send : Request → Cookies → N → Outcome × Cookies × N) (core : Ucore) where
  unfoldable pub system : Wire N → Response × Wire N
  unfolding plain_get
  system = json_request send false (plain_get core.base_url (codes "/api/system") [])

  -- `"isSetup" in self.system().json()`; `none` is the exception TypeError.
  unfoldable pub is_api_answering : Wire N → Option Bool × Wire N
  unfolding system
  is_api_answering w = let (r, w') = system w in (is_inside (codes "isSetup") (json r), w')

  unfoldable pub setup : Text → Text → Text → Json → Text → Wire N → Response × Wire N
  unfolding plain_post
  setup name username password country timezone = json_request send false (
      plain_post core.base_url (codes "/api/setup") (
        object (
          field (codes "name") (string name) (
            field (codes "username") (string username) (
              field (codes "password") (string password) (
                field (codes "country") country (
                  field (codes "timezone") (string timezone) (
                    field (codes "updateFirmware") (boolean false)
                      (field (codes "sendDiagnostics") (boolean false) end)))))))))

  unfoldable pub login_status : Text → Text → Wire N → ℕ × Wire N
  unfolding plain_post
  login_status username password w =
      let (r, w') =
        json_request send core.cookie_jar
          (plain_post core.base_url (codes "/api/auth/login") (
            object (
              field (codes "username") (string username)
                (field (codes "password") (string password) end))))
          w in
      (r.status, w')

  unfoldable pub v2_status : Wire N → ℕ × Wire N
  unfolding plain_get
  v2_status w =
      let (r, w') = json_request send core.cookie_jar (plain_get core.base_url v2_proxy []) w in
      (r.status, w')

  unfoldable pub api_key_status : Text → Wire N → ℕ × Wire N
  unfolding plain_get
  api_key_status key w =
      let (r, w') =
        json_request send false
          (plain_get core.base_url classic_proxy ((codes "X-API-KEY", key) ∷ [])) w in
      (r.status, w')
