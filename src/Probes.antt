-- ===== src/Probes.antt =====
-- The probes of healthcheck.py over the HTTP client, and the settings of entrypoint/demo.py that the
-- size of the fleet comes from. The marker gate around them is the subject of Health. Python's `int`
-- and the properties of system.properties are parameters.
pub mod Agreement
pub mod Main
pub mod Tests
use unifi_containers.Prelude.{
  ℕ, Bool, true, false, ◌==◌, ◌&&◌, leb, ltb, Option, none, some, List, [], ◌∷◌, ◌++◌,
  if◌then◌else◌,
}
use unifi_containers.Text.{Text, codes}
use unifi_containers.Text.Words.{trim}
use unifi_containers.Json.{Items, count}
use unifi_containers.Http.{Request, Outcome, Cookies, Wire, json_request}
use unifi_containers.Pins.{truthy}
use unifi_containers.Settings.{
  Env, setting, is_enabled, key_of, admin_user, admin_pass, api_key_file, seed_api_key,
}
use unifi_containers.Clients.Network.{NetworkApp, network_app, login_ok, devices, get_request}
use unifi_containers.Clients.Ucore.{Ucore, ucore, is_api_answering, login_status, api_key_status}

-- `int`, with the sum and the order that are used of it.
pub record Ints : Type 1 where
  pub Int : Type 0
  pub read : Text → Option Int
  pub zero : Int
  pub add : Int → Int → Int
  -- Whether so many are at least the number.
  pub reached : ℕ → Int → Bool

-- `env.get(key) or default`
unfoldable pub env_or : Env → Text → Text → Text
env_or env key default = elim (truthy (env key)) [ none ↦ default | some value ↦ value ]

-- The keys of `demo_settings`, in order.
unfoldable pub demo_settings : Env → List (Text × Text)
unfolding env_or
demo_settings env =
    (codes "is_simulation", codes "true")
    ∷ (codes "demo.num_uap", env_or env (codes "DEMO_NUM_UAP") (codes "3"))
    ∷ (codes "demo.num_ugw", env_or env (codes "DEMO_NUM_UGW") (codes "1"))
    ∷ (codes "demo.num_usw", env_or env (codes "DEMO_NUM_USW") (codes "5"))
    ∷ []

module _ (Z : Ints) where
  -- The sum over the settings behind the first, without those that are no number.
  unfoldable pub fleet_sum : List (Text × Text) → Z.Int → Z.Int
  fleet_sum [] total = total
  fleet_sum ((key, value) ∷ rest) total =
      fleet_sum rest (elim (Z.read value) [ none ↦ total | some n ↦ Z.add total n ])

  unfoldable pub fleet_of : List (Text × Text) → Z.Int
  unfolding fleet_sum
  fleet_of [] = Z.zero
  fleet_of (simulation ∷ counts) = fleet_sum counts Z.zero

  unfoldable pub expected_fleet : Env → Z.Int
  unfolding fleet_of demo_settings
  expected_fleet env =
      let derived = fleet_of (demo_settings env) in
      elim (truthy (env (codes "SIM_EXPECT_DEVICES"))) [
        | none ↦ derived
        | some override ↦ elim (Z.read override) [ some n ↦ n | none ↦ derived ]
      ]

-- `network_url`; the first argument is `unifi.https.port` of system.properties, if that can be read.
unfoldable pub network_url : Option Text → Text
network_url port =
    codes "https://localhost:"
    ++ (elim (truthy port) as (λ _. Text) [ none ↦ codes "8443" | some p ↦ p ])

abbrev pub uos_network_url : Text
uos_network_url = codes "http://127.0.0.1:8081"

-- `_read`: an unreadable file is the empty text.
unfoldable pub read_file : (Text → Option Text) → Text → Text
read_file files path = elim (files path) [ none ↦ [] | some text ↦ trim text ]

-- What the seeded probe is asked: the file of the key, if there is one to prove, and the account.
pub record SeededArgs : Type 0 where
  pub key_file : Option Text
  pub username : Text
  pub password : Text

-- The arguments that `_seeded` gives it.
unfoldable pub seeded_args : Env → SeededArgs
seeded_args env = record {
  key_file =
      if is_enabled (env (key_of seed_api_key)) then some (setting api_key_file env) else none;
  username = setting admin_user env;
  password = setting admin_pass env;
}

module _ {N : Type 0} (send : Request → Cookies → N → Outcome × Cookies × N) where
  -- `none` is the TypeError of a body that is no container.
  unfoldable pub uos_ready : Wire N → Option Bool × Wire N
  uos_ready = is_api_answering send (ucore (codes "https://localhost") false)

  unfoldable pub sim_ready : Wire N → Bool × Wire N
  sim_ready = login_ok send (network_app uos_network_url true) (codes "admin") (codes "admin")

  unfoldable pub network_login_ready : Option Text → Text → Text → Wire N → Bool × Wire N
  unfolding network_url
  network_login_ready port username password =
      login_ok send (network_app (network_url port) true) username password

  unfoldable pub network_answering : Option Text → Wire N → Bool × Wire N
  unfolding network_url
  network_answering port w =
      let (r, w') =
        json_request send false
          (record { method = codes "GET"; url = network_url port; payload = none; headers = [] })
          w in
      (leb 200 r.status && ltb r.status 400, w')

  -- `_fleet_ready`; `none` is the exception of `devices`.
  unfoldable pub fleet_ready : (Z : Ints) → Env → NetworkApp → Wire N → Option Bool × Wire N
  fleet_ready Z env app w =
      let (items, w') = devices send app w in
      (
        elim items [ none ↦ none | some xs ↦ some (Z.reached (count xs) (expected_fleet Z env)) ],
        w',
      )

  abbrev pub console : Ucore
  console = ucore (codes "https://127.0.0.1") true

  -- The end of `seeded_ready`.
  unfoldable pub owner_ready : SeededArgs → Wire N → Bool × Wire N
  owner_ready a w =
      let (status, w') = login_status send console a.username a.password w in (status == 200, w')

  -- `seeded_ready` with the key that was read.
  unfoldable pub key_ready : SeededArgs → Text → Wire N → Bool × Wire N
  unfolding owner_ready
  key_ready a [] w = (false, w)
  key_ready a (c ∷ key) w =
      let (status, w') = api_key_status send console (c ∷ key) w in
      let rest = owner_ready a w' in if status == 200 then rest else (false, w')

  unfoldable pub seeded_ready : (Text → Option Text) → SeededArgs → Wire N → Bool × Wire N
  unfolding read_file key_ready
  seeded_ready files a w = elim (truthy a.key_file) [
    | none ↦ owner_ready a w
    | some path ↦ key_ready a (read_file files path) w
  ]
