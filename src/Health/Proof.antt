-- ===== src/Health/Proof.antt =====
-- A health check that passes rests on answers that the probes have given.
use unifi_containers.Prelude.{
  ℕ, suc, ◌≡◌, refl, sym, ap, inl, inr, Bool, true, false, Option, none, some, List, ◌∷◌, Has,
  Bool-cases, ◌∙◌, if◌then◌else◌, zero,
}
use unifi_containers.Health.{
  Event, logged_in, v2_answered, fleet_counted, World, Site, ready_marker, login_marker, present,
  with_marker, v2_settled, is_expired, settle, marker_gate, forget, fleet_stage, after_status,
  after_login, staged, ask_login, ask_v2, ask_fleet, fleet_probe, tick, ticks, booted,
}

module _ (S : Site) where
  -- Somebody logged in, the v2 surface answered as settled with a living session, and the fleet
  -- was complete where the variant has one.
  pub record Evidence (t : List Event) : Type 0 where
    pub login_seen : Has (logged_in true) t
    pub status : ℕ
    pub status_seen : Has (v2_answered status) t
    pub settled : v2_settled status ≡ true
    pub alive : is_expired status ≡ false
    pub fleet_seen : (f : List Event → Bool) → S.fleet_ready ≡ some f → Has (fleet_counted true) t

  -- The markers on disk are earned.
  pub record Earned (w : World) : Type 0 where
    pub ready_earned : w.ready ≡ true → Evidence w.trace
    pub login_earned : w.login ≡ true → Has (logged_in true) w.trace

  -- A stage leaves the markers earned, and where it passes, all has been seen.
  abbrev Stage : Bool × World → Type 0
  Stage p = Earned p.1 × (p.0 ≡ true → Evidence p.1.trace)

  Evidence-cons : (e : Event) (t : List Event) → Evidence t → Evidence (e ∷ t)
  Evidence-cons e t v = record {
    login_seen = inr v.login_seen;
    status = v.status;
    status_seen = inr v.status_seen;
    settled = v.settled;
    alive = v.alive;
    fleet_seen = λ f h. inr (v.fleet_seen f h);
  }

  Earned-cons :
      (w : World) (e : Event)
      → Earned w
      → Earned (record { ready = w.ready; login = w.login; trace = e ∷ w.trace })
  Earned-cons w e h = record {
    ready_earned = λ r. Evidence-cons e w.trace (h.ready_earned r);
    login_earned = λ l. inr (h.login_earned l);
  }

  Earned-forget : (w : World) → Earned w → Earned (forget S login_marker w)
  unfolding forget with_marker
  Earned-forget w h = elim (Bool-cases (S.removable w.trace)) [
    | inl e ↦ rw e (record { ready_earned = λ r. h.ready_earned r; login_earned = λ l. cc })
    | inr e ↦ rw e h
  ]

  fleet_stage-Stage :
      (o : Option (List Event → Bool)) (s : ℕ) (w : World)
      → S.fleet_ready ≡ o
      → Earned w
      → Has (logged_in true) w.trace
      → Has (v2_answered s) w.trace
      → v2_settled s ≡ true
      → is_expired s ≡ false
      → Stage (fleet_stage S (fleet_probe S o) w)
  unfolding fleet_stage fleet_probe ask_fleet
  fleet_stage-Stage none s w eo h l v es ex = (
    h,
    λ _. record {
      login_seen = l;
      status = s;
      status_seen = v;
      settled = es;
      alive = ex;
      fleet_seen = λ f e. cc;
    },
  )
  fleet_stage-Stage (some f) s w eo h l v es ex = (
    Earned-cons w (fleet_counted (f w.trace)) h,
    λ passed. record {
      login_seen = inr l;
      status = s;
      status_seen = inr v;
      settled = es;
      alive = ex;
      fleet_seen = λ g e. inl (ap fleet_counted (sym passed));
    },
  )

  after_status-Stage :
      (s : ℕ) (w : World)
      → Earned w
      → Has (logged_in true) w.trace
      → Has (v2_answered s) w.trace
      → Stage (after_status S (fleet_probe S S.fleet_ready) (s, w))
  unfolding after_status
  after_status-Stage s w h l v = elim (Bool-cases (is_expired s)) [
    | inl e ↦ rw e (Earned-forget w h, λ p. cc)
    | inr e ↦ elim (Bool-cases (v2_settled s)) [
      | inl e' ↦ rw (e, e') (fleet_stage-Stage S.fleet_ready s w refl h l v e' e)
      | inr e' ↦ rw (e, e') (h, λ p. cc)
    ]
  ]

  after_login-Stage :
      (p : Bool × World)
      → Earned p.1
      → (p.0 ≡ true → Has (logged_in true) p.1.trace)
      → Stage (after_login S (ask_v2 S) (fleet_probe S S.fleet_ready) p)
  unfolding after_login ask_v2
  after_login-Stage (false, w) h l = (h, λ p. cc)
  after_login-Stage (true, w) h l =
      let s = S.v2_status w.trace in
      after_status-Stage s _ (Earned-cons w (v2_answered s) h) (inr (l refl)) (inl refl)

  login_settled :
      (b : Bool) (w : World)
      → b ≡ S.login_ok w.trace
      → Earned w
      → (let p =
            settle S login_marker
              (b, record { ready = w.ready; login = w.login; trace = logged_in b ∷ w.trace }) in
          Earned p.1 × (p.0 ≡ true → Has (logged_in true) p.1.trace))
  unfolding settle with_marker
  login_settled false w e h = (Earned-cons w (logged_in false) h, λ p. cc)
  login_settled true w e h = elim (Bool-cases (S.writable (logged_in true ∷ w.trace))) [
    | inl ew ↦ rw ew (
      record {
        ready_earned = λ r. Evidence-cons (logged_in true) w.trace (h.ready_earned r);
        login_earned = λ l. inl refl;
      },
      λ _. inl refl,
    )
    | inr ew ↦ rw ew (Earned-cons w (logged_in true) h, λ _. inl refl)
  ]

  login_gate_from :
      (b : Bool) (w : World)
      → w.login ≡ b
      → Earned w
      → (let p = if b then (true, w) else settle S login_marker (ask_login S w) in
          Earned p.1 × (p.0 ≡ true → Has (logged_in true) p.1.trace))
  unfolding ask_login
  login_gate_from true w e h = (h, λ _. h.login_earned e)
  login_gate_from false w e h = login_settled (S.login_ok w.trace) w refl h

  staged-Stage :
      (w : World)
      → Earned w
      → Stage (staged S (ask_login S) (ask_v2 S) (fleet_probe S S.fleet_ready) w)
  unfolding staged marker_gate present
  staged-Stage w h =
      let (earned, seen) = login_gate_from w.login w refl h in
      after_login-Stage (marker_gate S (ask_login S) login_marker w) earned seen

  ready_settled : (p : Bool × World) → Stage p → Stage (settle S ready_marker p)
  unfolding settle with_marker
  ready_settled (false, w) h = h
  ready_settled (true, w) (h, seen) = elim (Bool-cases (S.writable w.trace)) [
    | inl e ↦ rw e (
      record { ready_earned = λ r. seen refl; login_earned = λ l. h.login_earned l },
      λ _. seen refl,
    )
    | inr e ↦ rw e (h, seen)
  ]

  tick_from :
      (b : Bool) (w : World)
      → w.ready ≡ b
      → Earned w
      → Stage (
          if b
          then (true, w)
          else settle S ready_marker
              (staged S (ask_login S) (ask_v2 S) (fleet_probe S S.fleet_ready) w))
  tick_from true w e h = (h, λ _. h.ready_earned e)
  tick_from false w e h = ready_settled _ (staged-Stage w h)

  tick-Stage : (w : World) → Earned w → Stage (tick S w)
  unfolding tick marker_gate present
  tick-Stage w h = tick_from w.ready w refl h

  ticks-Earned : (n : ℕ) (w : World) → Earned w → Earned (ticks S n w)
  unfolding ticks
  ticks-Earned zero w h = h
  ticks-Earned (suc n) w h = ticks-Earned n (tick S w).1 (tick-Stage w h).0

  booted-Earned : Earned booted
  booted-Earned = record { ready_earned = λ r. cc; login_earned = λ l. cc }

  -- After any number of health checks since the boot, a check that passes has evidence: a login
  -- succeeded, the v2 surface answered as settled and not with 401 or 403, and where the variant
  -- has a fleet stage, it passed.
  pub tick_sound :
      (n : ℕ) → (tick S (ticks S n booted)).0 ≡ true → Evidence (tick S (ticks S n booted)).1.trace
  tick_sound n h = (tick-Stage _ (ticks-Earned n booted booted-Earned)).1 h

  tick_ready_from :
      (b : Bool) (w : World) (rest : Bool × World)
      → b ≡ true
      → ◌≡◌ {A = Bool × World} (if b then (true, w) else rest) (true, w)
  tick_ready_from true w rest h = refl
  tick_ready_from false w rest h = cc

  tick_ready : (w : World) → w.ready ≡ true → tick S w ≡ (true, w)
  unfolding tick marker_gate present
  tick_ready w h = tick_ready_from w.ready w _ h

  ticks_ready : (n : ℕ) (w : World) → w.ready ≡ true → ticks S n w ≡ w
  unfolding ticks
  ticks_ready zero w h = refl
  ticks_ready (suc n) w h =
      ap (λ (p : Bool × World). ticks S n p.1) (tick_ready w h) ∙ ticks_ready n w h

  ready_from :
      (b : Bool) (w : World) (p : Bool × World)
      → ((t : List Event) → S.writable t ≡ true)
      → w.ready ≡ b
      → (if b then (true, w) else settle S ready_marker p).0 ≡ true
      → (if b then (true, w) else settle S ready_marker p).1.ready ≡ true
  unfolding settle with_marker
  ready_from true w p all e h = e
  ready_from false w (false, m) all e h = cc
  ready_from false w (true, m) all e h = rw (all m.trace) refl

  passed_ready :
      (w : World)
      → ((t : List Event) → S.writable t ≡ true)
      → (tick S w).0 ≡ true
      → (tick S w).1.ready ≡ true
  unfolding tick marker_gate present
  passed_ready w all h = ready_from w.ready w _ all refl h

  -- If the markers can be written, every check after one that passes passes too, and asks nothing:
  -- it leaves the world, with the answers of the probes, as it is.
  pub tick_latched :
      (n : ℕ) (w : World)
      → ((t : List Event) → S.writable t ≡ true)
      → (tick S w).0 ≡ true
      → tick S (ticks S n (tick S w).1) ≡ (true, (tick S w).1)
  tick_latched n w all h =
      let r = passed_ready w all h in
      ap (tick S) (ticks_ready n (tick S w).1 r) ∙ tick_ready (tick S w).1 r
