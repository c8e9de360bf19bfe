-- ===== src/Seed/Run.antt =====
-- What the exit status of the seed tells, and that it is 0 where the console plays along.
use unifi_containers.Prelude.{
  ℕ, suc, ◌≡◌, refl, Bool, true, false, some, List, [], ◌∷◌, arith, if◌then◌else◌,
}
use unifi_containers.Text.{Text}
use unifi_containers.Pins.{truthy}
use unifi_containers.Seed.{
  Call, login_asked, setup_asked, setup_posted, Console, State, Verdict, key_ok, key_rejected,
  key_no_verdict, noted, read_key, setup_attempts, api_wait_attempts, setup_loop, ensure_owner,
  key_check, publish_key, publish_checked, prove_key, mint, wait_for_owner_id, after_existing,
  ensure_key_from, ensure_api_key, status_of_key, run_key, run, wait_for_api,
}
use unifi_containers.Seed.Owner.{OwnerSeen, ensure_owner_sound}

-- The owner was seen; and where a key is seeded, `ensure_api_key` said yes and left this state.
pub record Seeded (C : Console) (seeding : Bool) (s t : State) : Type 0 where
  pub owned : State
  pub owner_ensured : ensure_owner C (wait_for_api C api_wait_attempts s).1 ≡ (true, owned)
  pub owner_seen : OwnerSeen owned.calls
  pub key_ensured : seeding ≡ true → ensure_api_key C owned ≡ (true, t)
  pub unkeyed : seeding ≡ false → t ≡ owned

module _ (C : Console) where
  key_status_sound : (p : Bool × State) (t : State) → status_of_key C p ≡ (0, t) → p ≡ (true, t)
  unfolding status_of_key
  key_status_sound (true, s) t h = ground arith
  key_status_sound (false, s) t h = ground arith

  run_key_sound :
      (seeding : Bool) (s t : State) (p : Bool × State)
      → ensure_owner C (wait_for_api C api_wait_attempts s).1 ≡ p
      → (p.0 ≡ true → OwnerSeen p.1.calls)
      → run_key C seeding p ≡ (0, t)
      → Seeded C seeding s t
  unfolding run_key
  run_key_sound seeding s t (false, m) e seen h = ground arith
  run_key_sound false s t (true, m) e seen h = record {
    owned = m;
    owner_ensured = e;
    owner_seen = seen refl;
    key_ensured = λ k. cc;
    unkeyed = λ k. ground arith;
  }
  run_key_sound true s t (true, m) e seen h = record {
    owned = m;
    owner_ensured = e;
    owner_seen = seen refl;
    key_ensured = λ k. key_status_sound (ensure_api_key C m) t h;
    unkeyed = λ k. cc;
  }

  -- If the seed exits with 0, there is evidence of the owner, and if a key was to be seeded,
  -- `ensure_api_key` said yes.
  pub run-Seeded : (seeding : Bool) (s t : State) → run C seeding s ≡ (0, t) → Seeded C seeding s t
  unfolding run
  run-Seeded seeding s t h =
      let m = (wait_for_api C api_wait_attempts s).1 in
      run_key_sound seeding s t (ensure_owner C m) refl (ensure_owner_sound C m) h

-- A console that takes a setup, lets the owner in after it, knows the owner, and mints a key that
-- authenticates, on a disk that can be written.
pub record PlaysAlong (C : Console) : Type 0 where
  pub setup_taken : (t : List Call) → (C.setup t).0 ≡ 200
  pub login_after :
      (n : ℕ) (text : Text) (t : List Call) → C.login_status (setup_posted n text ∷ t) ≡ 200
  pub owner : Text
  pub owner_known : (t : List Call) → truthy (C.owner_id t) ≡ some owner
  pub new_key : Text
  pub key_minted_well : (t : List Call) → truthy (C.mint_key owner t) ≡ some new_key
  pub key_works : (key : Text) (t : List Call) → C.key_status key t ≡ 200
  pub disk_works : (t : List Call) → C.can_publish t ≡ true

module _ (C : Console) (A : PlaysAlong C) where
  setup_passes : (n : ℕ) (s : State) → (setup_loop C (suc n) s).0 ≡ true
  unfolding setup_loop noted
  setup_passes n s =
      rw (A.setup_taken s.calls) (rw (A.login_after 200 (C.setup s.calls).1 s.calls) refl)

  owner_passes : (s : State) → (ensure_owner C s).0 ≡ true
  unfolding ensure_owner noted
  owner_passes s = from _ _
    where
      from :
          (a b : Bool)
          → (let s1 : State = record {
            calls = login_asked (C.login_status s.calls) ∷ s.calls;
            key_file = s.key_file;
          } in
              let s2 : State = record {
                calls = setup_asked (C.is_setup s1.calls) ∷ s1.calls;
                key_file = s.key_file;
              } in
              let p : Bool × State =
                if a
                then (true, s1)
                else if b
                then (true, s2)
                else setup_loop C setup_attempts s2 in
              p.0 ≡ true)
      from true b = refl
      from false true = refl
      from false false = setup_passes 4 _

  check_passes : (n : ℕ) (key : Text) (s : State) → (key_check C (suc n) key s).0 ≡ key_ok
  unfolding key_check noted
  check_passes n key s = rw (A.key_works key s.calls) refl

  publish_passes :
      (key : Text) (p : Verdict × State) → p.0 ≡ key_ok → (publish_checked C key p).0 ≡ true
  unfolding publish_checked publish_key
  publish_passes key (key_ok, s) h = rw (A.disk_works s.calls) refl
  publish_passes key (key_rejected, s) h = cc
  publish_passes key (key_no_verdict, s) h = cc

  mint_passes : (n : ℕ) (s : State) → (mint C (wait_for_owner_id C (suc n) s)).0 ≡ true
  unfolding mint wait_for_owner_id noted prove_key
  mint_passes n s =
      rw (A.owner_known s.calls, mint)
        (rw (A.key_minted_well _, prove_key)
          (publish_passes A.new_key _ (check_passes 35 A.new_key _)))

  existing_passes : (p : Verdict × State) → p.0 ≡ key_ok → (after_existing C p).0 ≡ true
  unfolding after_existing
  existing_passes (key_ok, s) h = refl
  existing_passes (key_rejected, s) h = cc
  existing_passes (key_no_verdict, s) h = cc

  key_passes : (key : Text) (s : State) → (ensure_key_from C key s).0 ≡ true
  unfolding ensure_key_from
  key_passes [] s = mint_passes 59 s
  key_passes (c ∷ key) s = existing_passes _ (check_passes 35 (c ∷ key) s)

  status_passes : (p : Bool × State) → p.0 ≡ true → (status_of_key C p).0 ≡ 0
  unfolding status_of_key
  status_passes (true, s) h = refl
  status_passes (false, s) h = cc

  run_key_passes : (seeding : Bool) (p : Bool × State) → p.0 ≡ true → (run_key C seeding p).0 ≡ 0
  unfolding run_key ensure_api_key
  run_key_passes seeding (false, s) h = cc
  run_key_passes false (true, s) h = refl
  run_key_passes true (true, s) h = status_passes _ (key_passes (read_key s) s)

  -- With a console that plays along the seed exits with 0, from whatever state it starts.
  pub run_passes : (seeding : Bool) (s : State) → (run C seeding s).0 ≡ 0
  unfolding run
  run_passes seeding s =
      run_key_passes seeding _ (owner_passes (wait_for_api C api_wait_attempts s).1)
