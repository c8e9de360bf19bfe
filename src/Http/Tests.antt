-- ===== src/Http/Tests.antt =====
-- A server that gives a cookie and says whether it was given one back.
use unifi_containers.Prelude.{ℕ, ◌≡◌, refl, true, none, [], ◌∷◌}
use unifi_containers.Text.{codes}
use unifi_containers.Http.{
  Request, Outcome, answered, Cookies, Wire, no_body, json_request, respond, load_jar, save_jar,
}

abbrev server : Request → Cookies → ℕ → Outcome × Cookies × ℕ
server q [] n = (answered 401 no_body, (codes "unifises", codes "1") ∷ [], 1)
server q (cookie ∷ cookies) n = (answered 200 no_body, cookie ∷ cookies, 2)

abbrev wire : Wire ℕ
wire = record { net = 0; jar = none; writable = true }

abbrev status : Request
status = record { method = codes "GET"; url = codes "/status"; payload = none; headers = [] }

-- The cookie of the first answer goes with the second request.
second_status :
    (json_request server true status (json_request server true status wire).1).0.status ≡ 200
unfolding json_request respond load_jar save_jar
second_status = refl
