-- ===== src/Health/Logins.antt =====
-- How often a health check logs in: the login is proven once for each session that dies.
use unifi_containers.Prelude.{
  ℕ, zero, suc, ◌+◌, ◌≤◌, ◌≡◌, refl, inl, inr, Bool, true, false, Option, none, some, List, [], ◌∷◌,
  Bool-cases, if◌then◌else◌, arith,
}
use unifi_containers.Health.{
  Event, logged_in, v2_answered, fleet_counted, World, Site, ready_marker, login_marker, present,
  with_marker, v2_settled, is_expired, settle, marker_gate, forget, fleet_stage, after_status,
  after_login, staged, ask_login, ask_v2, ask_fleet, fleet_probe, tick, ticks, booted,
}

-- The successful logins of a trace, and the answers that tell that the session has died.
pub logins : List Event → ℕ
logins [] = 0
logins (logged_in true ∷ t) = logins t + 1
logins (logged_in false ∷ t) = logins t
logins (v2_answered s ∷ t) = logins t
logins (fleet_counted b ∷ t) = logins t

pub expiries : List Event → ℕ
expiries [] = 0
expiries (logged_in b ∷ t) = expiries t
expiries (v2_answered s ∷ t) = let rest = expiries t in if is_expired s then rest + 1 else rest
expiries (fleet_counted b ∷ t) = expiries t

module _ (S : Site) (all : (t : List Event) → S.writable t ≡ true) where
  -- Every login but the one of the living session is made up for by a session that died.
  record Frugal (w : World) : Type 0 where
    within : logins w.trace ≤ expiries w.trace + 1
    unmarked : w.login ≡ false → logins w.trace ≤ expiries w.trace

  Frugal-forget : (w : World) → logins w.trace ≤ expiries w.trace → Frugal (forget S login_marker w)
  unfolding forget with_marker
  Frugal-forget w h = elim (Bool-cases (S.removable w.trace)) [
    | inl e ↦ rw e (record { within = omega arith; unmarked = λ l. h })
    | inr e ↦ rw e (record { within = omega arith; unmarked = λ l. h })
  ]

  Frugal-fleet_stage :
      (o : Option (List Event → Bool)) (w : World)
      → Frugal w
      → Frugal (fleet_stage S (fleet_probe S o) w).1
  unfolding fleet_stage fleet_probe ask_fleet logins expiries
  Frugal-fleet_stage none w h = h
  Frugal-fleet_stage (some f) w h = record { within = h.within; unmarked = λ l. h.unmarked l }

  Frugal-after_status :
      (s : ℕ) (w : World)
      → Frugal w
      → Frugal
          (after_status S
            (fleet_probe S S.fleet_ready)
            (s, record { ready = w.ready; login = w.login; trace = v2_answered s ∷ w.trace })).1
  unfolding after_status logins expiries
  Frugal-after_status s w h =
      let m : World = record {
        ready = w.ready;
        login = w.login;
        trace = v2_answered s ∷ w.trace;
      } in
      elim (Bool-cases (is_expired s)) [
        | inl e ↦ rw e (Frugal-forget m (rw e (h.within)))
        | inr e ↦
            let asked : Frugal m = record {
              within = rw e h.within;
              unmarked = λ l. rw e (h.unmarked l);
            } in
            elim (Bool-cases (v2_settled s)) [
              | inl e' ↦ rw (e, e') (Frugal-fleet_stage S.fleet_ready m asked)
              | inr e' ↦ rw (e, e') asked
            ]
      ]

  Frugal-after_login :
      (p : Bool × World)
      → Frugal p.1
      → Frugal (after_login S (ask_v2 S) (fleet_probe S S.fleet_ready) p).1
  unfolding after_login ask_v2
  Frugal-after_login (false, w) h = h
  Frugal-after_login (true, w) h = Frugal-after_status (S.v2_status w.trace) w h

  Frugal-login :
      (b : Bool) (w : World)
      → w.login ≡ false
      → Frugal w
      → Frugal
          (settle S login_marker
            (b, record { ready = w.ready; login = w.login; trace = logged_in b ∷ w.trace })).1
  unfolding settle with_marker logins expiries
  Frugal-login false w e h = record { within = h.within; unmarked = λ l. h.unmarked l }
  Frugal-login true w e h =
      let below = h.unmarked e in
      rw (all (logged_in true ∷ w.trace)) (record { within = omega arith; unmarked = λ l. cc })

  Frugal-login_gate :
      (b : Bool) (w : World)
      → w.login ≡ b
      → Frugal w
      → Frugal (if b then (true, w) else settle S login_marker (ask_login S w)).1
  unfolding ask_login
  Frugal-login_gate true w e h = h
  Frugal-login_gate false w e h = Frugal-login (S.login_ok w.trace) w e h

  Frugal-settle : (p : Bool × World) → Frugal p.1 → Frugal (settle S ready_marker p).1
  unfolding settle with_marker
  Frugal-settle (false, w) h = h
  Frugal-settle (true, w) h =
      rw (all w.trace) (record { within = h.within; unmarked = λ l. h.unmarked l })

  Frugal-tick_from :
      (b : Bool) (w : World) (p : Bool × World)
      → Frugal w
      → Frugal p.1
      → Frugal (if b then (true, w) else settle S ready_marker p).1
  Frugal-tick_from true w p h k = h
  Frugal-tick_from false w p h k = Frugal-settle p k

  Frugal-tick : (w : World) → Frugal w → Frugal (tick S w).1
  unfolding tick marker_gate present staged
  Frugal-tick w h =
      Frugal-tick_from w.ready w _ h (Frugal-after_login _ (Frugal-login_gate w.login w refl h))

  Frugal-ticks : (n : ℕ) (w : World) → Frugal w → Frugal (ticks S n w)
  unfolding ticks
  Frugal-ticks zero w h = h
  Frugal-ticks (suc n) w h = Frugal-ticks n (tick S w).1 (Frugal-tick w h)

  -- If the markers can be written, the logins that succeed in any number of health checks since the
  -- boot are at most one more than the answers 401 and 403, by which a session is known to be dead.
  pub login_once : (n : ℕ) → logins (ticks S n booted).trace ≤ expiries (ticks S n booted).trace + 1
  unfolding logins expiries
  login_once n =
      (Frugal-ticks n booted (record { within = omega arith; unmarked = λ l. omega arith })).within
