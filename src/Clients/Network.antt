-- ===== src/Clients/Network.antt =====
-- unifi/network.py: the classic API of the Network Application.
use unifi_containers.Prelude.{
  ℕ, Bool, false, ◌==◌, Option, none, some, [], ◌∷◌, ◌++◌, if◌then◌else◌,
}
use unifi_containers.Text.{Text, codes}
use unifi_containers.Json.{
  Json, Items, Fields, object, array, string, null, boolean, number, end, field, lookup, get, truth,
  is_text, nil,
}
use unifi_containers.Http.{Request, Response, Outcome, Cookies, Wire, json_request, json}

-- `text.rstrip("/")`
unfoldable pub rstrip_slash : Text → Text
rstrip_slash [] = []
rstrip_slash (c ∷ s) =
    let rest = rstrip_slash s in
    elim rest [ d ∷ r ↦ c ∷ d ∷ r | [] ↦ if c == b'/' then [] else c ∷ [] ]

-- `rc_of` where there is no `meta` with an `rc`: the top level.
unfoldable pub rc_of_fields : Fields → Json → Json
rc_of_fields fs (object meta) = elim (lookup (codes "rc") meta) [
  | some rc ↦ rc
  | none ↦ get (codes "rc") fs
]
rc_of_fields fs null = get (codes "rc") fs
rc_of_fields fs (boolean b) = get (codes "rc") fs
rc_of_fields fs (number n) = get (codes "rc") fs
rc_of_fields fs (string s) = get (codes "rc") fs
rc_of_fields fs (array xs) = get (codes "rc") fs

unfoldable pub rc_of : Json → Json
unfolding rc_of_fields
rc_of (object fs) = rc_of_fields fs (get (codes "meta") fs)
rc_of null = null
rc_of (boolean b) = null
rc_of (number n) = null
rc_of (string s) = null
rc_of (array xs) = null

unfoldable pub up_of_fields : Fields → Json → Bool
up_of_fields fs (object meta) = elim (lookup (codes "up") meta) [
  | some up ↦ truth up
  | none ↦ truth (get (codes "up") fs)
]
up_of_fields fs null = truth (get (codes "up") fs)
up_of_fields fs (boolean b) = truth (get (codes "up") fs)
up_of_fields fs (number n) = truth (get (codes "up") fs)
up_of_fields fs (string s) = truth (get (codes "up") fs)
up_of_fields fs (array xs) = truth (get (codes "up") fs)

-- The answer of `is_up` for the body of `/status`.
unfoldable pub up_of : Json → Bool
unfolding up_of_fields
up_of (object fs) = up_of_fields fs (get (codes "meta") fs)
up_of null = false
up_of (boolean b) = false
up_of (number n) = false
up_of (string s) = false
up_of (array xs) = false

-- `data if isinstance(data, list) else []`
unfoldable pub items_or_none : Json → Items
items_or_none (array xs) = xs
items_or_none null = nil
items_or_none (boolean b) = nil
items_or_none (number n) = nil
items_or_none (string s) = nil
items_or_none (object fs) = nil

-- The devices in a body; `none` is the exception AttributeError, for a body that is no dictionary.
unfoldable pub devices_of : Json → Option Items
unfolding items_or_none
devices_of (object fs) = some (items_or_none (get (codes "data") fs))
devices_of null = none
devices_of (boolean b) = none
devices_of (number n) = none
devices_of (string s) = none
devices_of (array xs) = none

pub record NetworkApp : Type 0 where
  pub base_url : Text
  pub cookie_jar : Bool

unfoldable pub network_app : Text → Bool → NetworkApp
unfolding rstrip_slash
network_app url jar = record { base_url = rstrip_slash url; cookie_jar = jar }

unfoldable pub get_request : NetworkApp → Text → Request
get_request app path = record {
  method = codes "GET";
  url = app.base_url ++ path;
  payload = none;
  headers = [];
}

unfoldable pub post_request : NetworkApp → Text → Fields → Request
post_request app path payload = record {
  method = codes "POST";
  url = app.base_url ++ path;
  payload = some (object payload);
  headers = [];
}

abbrev pub firewall_policies : Text
firewall_policies = codes "/v2/api/site/default/firewall-policies"

abbrev pub stat_device : Text
stat_device = codes "/api/s/default/stat/device"

module _ {N : Type 0} (send : Request → Cookies → N → Outcome × Cookies × N)
    (app : NetworkApp) where
  unfoldable pub get_path : Text → Wire N → Response × Wire N
  unfolding get_request
  get_path path = json_request send app.cookie_jar (get_request app path)

  unfoldable pub post_path : Text → Fields → Wire N → Response × Wire N
  unfolding post_request
  post_path path payload = json_request send app.cookie_jar (post_request app path payload)

  unfoldable pub is_up : Wire N → Bool × Wire N
  unfolding get_path
  is_up w = let (r, w') = get_path (codes "/status") w in (up_of (json r), w')

  unfoldable pub login : Text → Text → Wire N → Response × Wire N
  unfolding post_path
  login username password =
      post_path (codes "/api/login") (
        field (codes "username") (string username) (field (codes "password") (string password) end))

  unfoldable pub login_ok : Text → Text → Wire N → Bool × Wire N
  unfolding login
  login_ok username password w =
      let (r, w') = login username password w in (is_text (codes "ok") (rc_of (json r)), w')

  -- The site is `default`, as in every call.
  unfoldable pub v2_status : Wire N → ℕ × Wire N
  unfolding get_path
  v2_status w = let (r, w') = get_path firewall_policies w in (r.status, w')

  unfoldable pub devices : Wire N → Option Items × Wire N
  unfolding get_path
  devices w = let (r, w') = get_path stat_device w in (devices_of (json r), w')

  unfoldable pub add_default_admin : Text → Text → Wire N → Response × Wire N
  unfolding post_path
  add_default_admin name password = post_path (codes "/api/cmd/sitemgr") (
      field (codes "cmd") (string (codes "add-default-admin")) (
        field (codes "name") (string name) (
          field (codes "email") (string (codes "admin@example.invalid"))
            (field (codes "x_password") (string password) end))))

  unfoldable pub set_super_identity : Text → Wire N → Response × Wire N
  unfolding post_path
  set_super_identity name =
      post_path (codes "/api/set/setting/super_identity") (field (codes "name") (string name) end)

  unfoldable pub set_installed : Wire N → Response × Wire N
  unfolding post_path
  set_installed =
      post_path (codes "/api/cmd/system") (field (codes "cmd") (string (codes "set-installed")) end)
