-- ===== src/Seed/Owner.antt =====
-- What `ensure_owner` rests on, and how often it posts a setup.
use unifi_containers.Prelude.{
  ℕ, zero, suc, ◌+◌, ◌≤◌, ◌≡◌, refl, sym, ap, ◌⊎◌, inl, inr, Bool, true, false, ◌&&◌, ◌==◌, ==_iff,
  Option, List, [], ◌∷◌, Has, arith, if◌then◌else◌,
}
use unifi_containers.Text.{Text}
use unifi_containers.Seed.{
  Call, system_asked, login_asked, setup_asked, setup_posted, key_asked, owner_asked, key_minted,
  Console, State, noted, is_already_setup, setup_attempts, setup_loop, ensure_owner,
}

-- A setup that the console answered with a text that says it is already set up.
pub record AlreadySetup (t : List Call) : Type 0 where
  pub status : ℕ
  pub text : Text
  pub posted : Has (setup_posted status text) t
  pub says : is_already_setup text ≡ true

-- A login succeeded, or ULP reports the setup complete, or the console says so.
abbrev pub OwnerSeen : List Call → Type 0
OwnerSeen t = Has (login_asked 200) t ⊎ Has (setup_asked true) t ⊎ AlreadySetup t

pub posts : List Call → ℕ
posts [] = 0
posts (system_asked b ∷ t) = posts t
posts (login_asked n ∷ t) = posts t
posts (setup_asked b ∷ t) = posts t
posts (setup_posted n x ∷ t) = posts t + 1
posts (key_asked k n ∷ t) = posts t
posts (owner_asked o ∷ t) = posts t
posts (key_minted o ∷ t) = posts t

login_head :
    (code : ℕ) (t : List Call) → (code == 200) ≡ true → Has (login_asked 200) (login_asked code ∷ t)
login_head code t e = inl (ap login_asked (sym ((==_iff code 200).0 e)))

module _ (C : Console) where
  -- One more round of the loop, by what it was answered.
  round_sound :
      (ok200 done said : Bool) (status code : ℕ) (text : Text) (t : List Call) (file : Option Text)
      (rest : Bool × State)
      → (status == 200) ≡ ok200
      → (code == 200) ≡ done
      → is_already_setup text ≡ said
      → (rest.0 ≡ true → OwnerSeen rest.1.calls)
      → (let s1 : State = record { calls = setup_posted status text ∷ t; key_file = file } in
          let s2 = if ok200 then noted (login_asked code) s1 else s1 in
          let p : Bool × State =
            if ok200 && done then (true, s2) else if said then (true, s2) else rest in
          p.0 ≡ true → OwnerSeen p.1.calls)
  unfolding noted
  round_sound true true said status code text t file rest e1 e2 e3 ih h =
      inl (login_head code (setup_posted status text ∷ t) e2)
  round_sound true false true status code text t file rest e1 e2 e3 ih h =
      inr (inr (record { status = status; text = text; posted = inr (inl refl); says = e3 }))
  round_sound true false false status code text t file rest e1 e2 e3 ih h = ih h
  round_sound false done true status code text t file rest e1 e2 e3 ih h =
      inr (inr (record { status = status; text = text; posted = inl refl; says = e3 }))
  round_sound false done false status code text t file rest e1 e2 e3 ih h = ih h

  setup_loop_sound :
      (n : ℕ) (s : State) → (setup_loop C n s).0 ≡ true → OwnerSeen (setup_loop C n s).1.calls
  unfolding setup_loop noted
  setup_loop_sound zero s h = cc
  setup_loop_sound (suc n) s h =
      let r = C.setup s.calls in
      let code = C.login_status (setup_posted r.0 r.1 ∷ s.calls) in
      round_sound (r.0 == 200) (code == 200) (is_already_setup r.1) r.0 code r.1 s.calls s.key_file
        _ refl refl refl (setup_loop_sound n _) h

  -- If `ensure_owner` says yes, a login succeeded, or ULP reports the setup complete, or the
  -- console has answered a setup by saying that it is already set up.
  pub ensure_owner_sound :
      (s : State) → (ensure_owner C s).0 ≡ true → OwnerSeen (ensure_owner C s).1.calls
  unfolding ensure_owner noted
  ensure_owner_sound s h = from (code == 200) done refl refl h
    where
      code : ℕ
      code = C.login_status s.calls

      done : Bool
      done = C.is_setup (login_asked code ∷ s.calls)

      s1 : State
      s1 = record { calls = login_asked code ∷ s.calls; key_file = s.key_file }

      s2 : State
      s2 = record { calls = setup_asked done ∷ s1.calls; key_file = s.key_file }

      from :
          (a b : Bool)
          → (code == 200) ≡ a
          → done ≡ b
          → (let p : Bool × State =
                if a
                then (true, s1)
                else if b
                then (true, s2)
                else setup_loop C setup_attempts s2 in
              p.0 ≡ true → OwnerSeen p.1.calls)
      from true b e1 e2 h = inl (login_head code s.calls e1)
      from false true e1 e2 h = inr (inl (inl (ap setup_asked (sym e2))))
      from false false e1 e2 h = setup_loop_sound setup_attempts s2 h

  round_posts :
      (ok200 done said : Bool) (code n : ℕ) (s : State) (rest : Bool × State)
      → posts rest.1.calls ≤ posts s.calls + n
      → (let s2 = if ok200 then noted (login_asked code) s else s in
          let p : Bool × State =
            if ok200 && done then (true, s2) else if said then (true, s2) else rest in
          posts p.1.calls ≤ posts s.calls + n)
  unfolding noted posts
  round_posts true true said code n s rest ih = omega arith
  round_posts true false true code n s rest ih = omega arith
  round_posts true false false code n s rest ih = ih
  round_posts false done true code n s rest ih = omega arith
  round_posts false done false code n s rest ih = ih

  posts_login :
      (b : Bool) (code : ℕ) (s : State)
      → posts (if b then noted (login_asked code) s else s).calls ≡ posts s.calls
  unfolding noted posts
  posts_login true code s = refl
  posts_login false code s = refl

  posts-setup_loop : (n : ℕ) (s : State) → posts (setup_loop C n s).1.calls ≤ posts s.calls + n
  unfolding setup_loop noted posts
  posts-setup_loop zero s = omega arith
  posts-setup_loop (suc n) s =
      let r = C.setup s.calls in
      let s1 = noted (setup_posted r.0 r.1) s in
      let code = C.login_status s1.calls in
      let s2 = if r.0 == 200 then noted (login_asked code) s1 else s1 in
      let ih = posts-setup_loop n s2 in
      let same = posts_login (r.0 == 200) code s1 in
      let bound =
        round_posts (r.0 == 200) (code == 200) (is_already_setup r.1) code n s1 (setup_loop C n s2)
          (omega arith) in
      omega arith

  -- `ensure_owner` posts a setup five times at most.
  pub posts-ensure_owner : (s : State) → posts (ensure_owner C s).1.calls ≤ posts s.calls + 5
  unfolding ensure_owner noted posts
  posts-ensure_owner s = bound (C.login_status s.calls == 200) done
    where
      done : Bool
      done = C.is_setup (login_asked (C.login_status s.calls) ∷ s.calls)

      s1 : State
      s1 = record { calls = login_asked (C.login_status s.calls) ∷ s.calls; key_file = s.key_file }

      s2 : State
      s2 = record { calls = setup_asked done ∷ s1.calls; key_file = s.key_file }

      bound :
          (a b : Bool)
          → (let p : Bool × State =
                if a
                then (true, s1)
                else if b
                then (true, s2)
                else setup_loop C setup_attempts s2 in
              posts p.1.calls ≤ posts s.calls + 5)
      bound true b = omega arith
      bound false true = omega arith
      bound false false = posts-setup_loop setup_attempts s2

  -- If the login succeeds, or ULP reports the setup complete, `ensure_owner` says yes without a
  -- post.
  pub ensure_owner_idle :
      (s : State)
      → (C.login_status s.calls ≡ 200)
        ⊎ (C.is_setup (login_asked (C.login_status s.calls) ∷ s.calls) ≡ true)
      → ((ensure_owner C s).0 ≡ true) × (posts (ensure_owner C s).1.calls ≡ posts s.calls)
  unfolding ensure_owner noted posts
  ensure_owner_idle s = idle (C.login_status s.calls == 200) done refl refl
    where
      done : Bool
      done = C.is_setup (login_asked (C.login_status s.calls) ∷ s.calls)

      s1 : State
      s1 = record { calls = login_asked (C.login_status s.calls) ∷ s.calls; key_file = s.key_file }

      s2 : State
      s2 = record { calls = setup_asked done ∷ s1.calls; key_file = s.key_file }

      idle :
          (a b : Bool)
          → (C.login_status s.calls == 200) ≡ a
          → done ≡ b
          → (C.login_status s.calls ≡ 200) ⊎ (done ≡ true)
          → (let p : Bool × State =
                if a
                then (true, s1)
                else if b
                then (true, s2)
                else setup_loop C setup_attempts s2 in
              (p.0 ≡ true) × (posts p.1.calls ≡ posts s.calls))
      idle true b e1 e2 h = (refl, refl)
      idle false true e1 e2 h = (refl, refl)
      idle false false e1 e2 (inl h) = cc ((==_iff (C.login_status s.calls) 200).1 h)
      idle false false e1 e2 (inr h) = cc
