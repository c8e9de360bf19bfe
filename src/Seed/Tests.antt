-- ===== src/Seed/Tests.antt =====
-- A console that is set up with the first post, and the theorems on the seed at it.
use unifi_containers.Prelude.{
  ℕ, ◌∷◌, List, ap, ◌≡◌, refl, true, false, none, some, [], if◌then◌else◌, length, ltb,
}
use unifi_containers.Text.{codes}
use unifi_containers.Pins.{truthy}
use unifi_containers.Seed.Run.{Seeded, PlaysAlong, run-Seeded, run_passes}
use unifi_containers.Seed.{
  Call, setup_posted, run, Console, State, ensure_owner, ensure_api_key, setup_loop, noted,
  is_already_setup,
}
use unifi_containers.Seed.Owner.{OwnerSeen, ensure_owner_sound}
use unifi_containers.Seed.Key.{Ensured, ensure_api_key-Ensured}

abbrev console : Console
console = record {
  system = λ t. true;
  login_status = λ t. if ltb 2 (length t) then 200 else 401;
  is_setup = λ t. false;
  setup = λ t. (200, []);
  key_status = λ key t. 200;
  owner_id = λ t. some (codes "owner");
  mint_key = λ owner t. some (codes "key");
  can_publish = λ t. true;
}

abbrev untouched : State
untouched = record { calls = []; key_file = none }

seeded_run : (ensure_owner console untouched).0 ≡ true
unfolding ensure_owner setup_loop noted is_already_setup
seeded_run = refl

ensure_owner_sound_example : OwnerSeen (ensure_owner console untouched).1.calls
ensure_owner_sound_example = ensure_owner_sound console untouched seeded_run

-- The same console, once ULP reports the setup complete.
abbrev complete : Console
complete = record console { is_setup = λ t. true }

ensure_api_key-Ensured_example : Ensured console untouched (ensure_api_key console untouched)
ensure_api_key-Ensured_example = ensure_api_key-Ensured console untouched

-- A fresh console: the login fails until a setup has been posted.
abbrev fresh_login : List Call → ℕ
fresh_login [] = 401
fresh_login (setup_posted n text ∷ t) = 200
fresh_login (c ∷ t) = fresh_login t

abbrev fresh : Console
fresh = record {
  system = λ t. true;
  login_status = fresh_login;
  is_setup = λ t. false;
  setup = λ t. (200, []);
  key_status = λ key t. 200;
  owner_id = λ t. some (codes "owner");
  mint_key = λ owner t. some (codes "key");
  can_publish = λ t. true;
}

fresh-PlaysAlong : PlaysAlong fresh
unfolding truthy
fresh-PlaysAlong = record {
  setup_taken = λ t. refl;
  login_after = λ n text t. refl;
  owner = codes "owner";
  owner_known = λ t. refl;
  new_key = codes "key";
  key_minted_well = λ t. refl;
  key_works = λ key t. refl;
  disk_works = λ t. refl;
}

run_passes_example : (run fresh true untouched).0 ≡ 0
run_passes_example = run_passes fresh fresh-PlaysAlong true untouched

fresh-run : run fresh true untouched ≡ (0, (run fresh true untouched).1)
fresh-run =
    ap (λ n. (n, (run fresh true untouched).1)) (run_passes fresh fresh-PlaysAlong true untouched)

run-Seeded_example : Seeded fresh true untouched (run fresh true untouched).1
run-Seeded_example = run-Seeded fresh true untouched (run fresh true untouched).1 fresh-run
