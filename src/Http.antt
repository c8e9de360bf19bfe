-- ===== src/Http.antt =====
-- http.py: one HTTP call, one Response. `urllib` is the parameter `send`, over the state `N` of what
-- lies behind the network. A body is what the program reads of it: its text, and the JSON it decodes to.
pub mod Session
pub mod Tests
use unifi_containers.Prelude.{
  ℕ, Bool, true, false, ◌&&◌, not, leb, ltb, ◌==◌, Option, none, some, List, [], ◌∷◌, if◌then◌else◌,
}
use unifi_containers.Text.{Text, codes}
use unifi_containers.Json.{Json, object, end}

pub record Body : Type 0 where
  -- `none` where `json.loads` raises.
  pub decoded : Option Json
  pub text : Text

abbrev pub no_body : Body
no_body = record { decoded = none; text = [] }

-- What `open` does: a response, an HTTPError, or an exception of the transport.
pub data Outcome : Type 0 where
  answered http_error : ℕ → Body → Outcome
  failed : Outcome

pub record Response : Type 0 where
  pub status : ℕ
  pub body : Body

abbrev pub no_verdict : ℕ
no_verdict = 0

unfoldable pub respond : Outcome → Response
respond (answered status body) = record { status = status; body = body }
respond (http_error status body) = record { status = status; body = body }
respond failed = record { status = no_verdict; body = no_body }

unfoldable pub is_ok : Response → Bool
is_ok r = leb 200 r.status && ltb r.status 300

unfoldable pub is_answered : Response → Bool
is_answered r = not (r.status == no_verdict)

-- `{}` if the body is not JSON.
unfoldable pub json : Response → Json
json r = elim r.body.decoded [ none ↦ object end | some j ↦ j ]

pub record Request : Type 0 where
  pub method : Text
  pub url : Text
  pub payload : Option Json
  pub headers : List (Text × Text)

abbrev pub Cookies : Type 0
Cookies = List (Text × Text)

-- The network, and the file of the cookie jar: `none` where it is missing or unreadable.
pub record Wire (N : Type 0) : Type 0 where
  pub net : N
  pub jar : Option Cookies
  pub writable : Bool

-- `_load_jar`
unfoldable pub load_jar : Option Cookies → Cookies
load_jar none = []
load_jar (some cookies) = cookies

-- `_save_jar`: an unwritable file is left as it is.
unfoldable pub save_jar : Bool → Cookies → Option Cookies → Option Cookies
save_jar writable cookies jar = if writable then some cookies else jar

module _ {N : Type 0} (send : Request → Cookies → N → Outcome × Cookies × N) where
  -- `json_request`; the first argument tells whether it is given the path of the cookie jar.
  unfoldable pub json_request : Bool → Request → Wire N → Response × Wire N
  json_request false q w =
      let (outcome, cookies, n) = send q [] w.net in
      (respond outcome, record { net = n; jar = w.jar; writable = w.writable })
  json_request true q w =
      let (outcome, cookies, n) = send q (load_jar w.jar) w.net in
      (
        respond outcome,
        record { net = n; jar = save_jar w.writable cookies w.jar; writable = w.writable },
      )
