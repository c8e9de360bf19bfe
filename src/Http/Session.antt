-- ===== src/Http/Session.antt =====
-- What a cookie jar carries from one request to the next.
use unifi_containers.Prelude.{if◌then◌else◌, ◌≡◌, ap, Bool, Option, [], refl, true, false}
use unifi_containers.Http.{
  Request, Outcome, Cookies, Wire, respond, load_jar, save_jar, json_request,
}

load-save :
    (writable : Bool) (given : Cookies) (jar : Option Cookies)
    → load_jar (save_jar writable given jar) ≡ (if writable then given else load_jar jar)
unfolding load_jar save_jar
load-save true given jar = refl
load-save false given jar = refl

module _ {N : Type 0} (send : Request → Cookies → N → Outcome × Cookies × N) where
  -- The answer to the second request, where it carries these cookies.
  abbrev pub answer_with : Request → Cookies → N → Outcome
  answer_with q cookies n = (send q cookies n).0

  -- Of two requests with the jar, the second carries the cookies that the first was given, and
  -- those of the jar where the jar cannot be written. A request without the jar carries none, and
  -- leaves the jar as it is.
  json_request-json_request :
      (q q' : Request) (w : Wire N)
      → let (_, given, n) = send q (load_jar w.jar) w.net in
        ((json_request send true q' (json_request send true q w).1).0
          ≡ respond (answer_with q' (if w.writable then given else load_jar w.jar) n))
        × ((json_request send false q' w).0 ≡ respond (answer_with q' [] w.net))
        × ((json_request send false q' w).1.jar ≡ w.jar)
  unfolding json_request
  json_request-json_request q q' w =
      let given : Cookies = (send q (load_jar w.jar) w.net).1 in
      let n : N = (send q (load_jar w.jar) w.net).2 in
      (ap (λ jar. respond (answer_with q' jar n)) (load-save w.writable given w.jar), refl, refl)
