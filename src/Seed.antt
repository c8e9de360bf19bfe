-- ===== src/Seed.antt =====
-- seed/uos_owner.py: the headless first-run setup of a console, and its API key.
-- The console is a function from the calls that it has answered, the latest first, so that every
-- behaviour of it, and of the disk, is one `Console`. Log lines and sleeps are left out.
pub mod Owner
pub mod Check
pub mod Key
pub mod Run
pub mod Tests
use unifi_containers.Prelude.{
  ℕ, zero, suc, ◌+◌, ◌-◌, Bool, true, false, ◌||◌, ◌&&◌, ◌==◌, leb, Option, none, some, List, [],
  ◌∷◌, ◌++◌, if◌then◌else◌,
}
use unifi_containers.Text.{Text, codes, text_eq, strip}
use unifi_containers.Text.Find.{lower, contains}
use unifi_containers.Text.Words.{trim}
use unifi_containers.Pins.{truthy}
use unifi_containers.Settings.{Env, setting, is_enabled, key_of, seed_api_key}

pub data Verdict : Type 0 where
  key_ok key_rejected key_no_verdict : Verdict

-- A request with what was answered.
pub data Call : Type 0 where
  system_asked : Bool → Call
  login_asked : ℕ → Call
  setup_asked : Bool → Call
  setup_posted : ℕ → Text → Call
  key_asked : Text → ℕ → Call
  owner_asked : Option Text → Call
  key_minted : Option Text → Call

pub record Console : Type 0 where
  -- `ucore.system().answered`, `ucore.login_status(…)`, `ulp.is_setup()`
  pub system : List Call → Bool
  pub login_status : List Call → ℕ
  pub is_setup : List Call → Bool
  -- `ucore.setup(…)`: the status and the text.
  pub setup : List Call → ℕ × Text
  pub key_status : Text → List Call → ℕ
  -- `ulp.owner_id()` and `ulp.mint_key(…)`
  pub owner_id : List Call → Option Text
  pub mint_key : Text → List Call → Option Text
  -- Whether the key file can be written, and put in place.
  pub can_publish : List Call → Bool

-- The calls so far, and the text of the key file, if it can be read.
pub record State : Type 0 where
  pub calls : List Call
  pub key_file : Option Text

unfoldable pub noted : Call → State → State
noted c s = record { calls = c ∷ s.calls; key_file = s.key_file }

-- `"already setup" in response.text.lower()`
unfoldable pub is_already_setup : Text → Bool
unfolding contains lower
is_already_setup text = contains (codes "already setup") (lower text)

abbrev pub setup_attempts : ℕ
setup_attempts = 5

abbrev pub key_check_attempts : ℕ
key_check_attempts = 36

abbrev pub owner_wait_attempts : ℕ
owner_wait_attempts = 60

abbrev pub api_wait_attempts : ℕ
api_wait_attempts = 120

-- `code in (401, 403)`
unfoldable pub is_rejection : ℕ → Bool
is_rejection code = code == 401 || code == 403

-- `_read_key`: an unreadable file is the empty text.
unfoldable pub read_key : State → Text
read_key s = elim s.key_file [ none ↦ [] | some t ↦ trim t ]

module _ (C : Console) where
  unfoldable pub wait_for_api : ℕ → State → Bool × State
  unfolding noted
  wait_for_api zero s = (false, s)
  wait_for_api (suc n) s =
      let answered = C.system s.calls in
      let s1 = noted (system_asked answered) s in
      let rest = wait_for_api n s1 in if answered then (true, s1) else rest

  -- The loop of `ensure_owner`; the login is asked only after a status of 200.
  unfoldable pub setup_loop : ℕ → State → Bool × State
  unfolding noted
  setup_loop zero s = (false, s)
  setup_loop (suc n) s =
      let (status, text) = C.setup s.calls in
      let s1 = noted (setup_posted status text) s in
      let code = C.login_status s1.calls in
      let s2 = if status == 200 then noted (login_asked code) s1 else s1 in
      let rest = setup_loop n s2 in
      if status == 200 && code == 200
      then (true, s2)
      else if is_already_setup text
      then (true, s2)
      else rest

  unfoldable pub ensure_owner : State → Bool × State
  unfolding noted setup_loop
  ensure_owner s =
      let code = C.login_status s.calls in
      let s1 = noted (login_asked code) s in
      let done = C.is_setup s1.calls in
      let s2 = noted (setup_asked done) s1 in
      let rest = setup_loop setup_attempts s2 in
      if code == 200 then (true, s1) else if done then (true, s2) else rest

  unfoldable pub key_check : ℕ → Text → State → Verdict × State
  unfolding noted
  key_check zero key s = (key_no_verdict, s)
  key_check (suc n) key s =
      let code = C.key_status key s.calls in
      let s1 = noted (key_asked key code) s in
      let rest = key_check n key s1 in
      if code == 200 then (key_ok, s1) else if is_rejection code then (key_rejected, s1) else rest

  -- Write beside the file and replace it, or leave it as it is.
  unfoldable pub publish_key : Text → State → Bool × State
  publish_key key s =
      if C.can_publish s.calls
      then (true, record { calls = s.calls; key_file = some (key ++ (b'\n' ∷ [])) })
      else (false, s)

  unfoldable pub wait_for_owner_id : ℕ → State → Option Text × State
  unfolding noted
  wait_for_owner_id zero s = (none, s)
  wait_for_owner_id (suc n) s =
      let owner = truthy (C.owner_id s.calls) in
      let s1 = noted (owner_asked owner) s in
      let rest = wait_for_owner_id n s1 in elim owner [ some o ↦ (some o, s1) | none ↦ rest ]

  -- `ensure_api_key` from the check of the minted key on.
  unfoldable pub publish_checked : Text → Verdict × State → Bool × State
  publish_checked key (key_ok, s) = publish_key key s
  publish_checked key (key_rejected, s) = (false, s)
  publish_checked key (key_no_verdict, s) = (false, s)

  unfoldable pub prove_key : Option Text → State → Bool × State
  prove_key none s = (false, s)
  prove_key (some key) s = publish_checked key (key_check key_check_attempts key s)

  unfoldable pub mint : Option Text × State → Bool × State
  unfolding noted prove_key
  mint (none, s) = (false, s)
  mint (some owner, s) =
      let key = truthy (C.mint_key owner s.calls) in prove_key key (noted (key_minted key) s)

  -- What follows the check of the key that the file has.
  unfoldable pub after_existing : Verdict × State → Bool × State
  unfolding mint
  after_existing (key_ok, s) = (true, s)
  after_existing (key_no_verdict, s) = (false, s)
  after_existing (key_rejected, s) = mint (wait_for_owner_id owner_wait_attempts s)

  unfoldable pub ensure_key_from : Text → State → Bool × State
  unfolding mint after_existing
  ensure_key_from [] s = mint (wait_for_owner_id owner_wait_attempts s)
  ensure_key_from (c ∷ key) s = after_existing (key_check key_check_attempts (c ∷ key) s)

  unfoldable pub ensure_api_key : State → Bool × State
  unfolding ensure_key_from
  ensure_api_key s = ensure_key_from (read_key s) s

  -- The exit status, once `ensure_api_key` has been called.
  unfoldable pub status_of_key : Bool × State → ℕ × State
  status_of_key (true, s) = (0, s)
  status_of_key (false, s) = (1, s)

  -- `run` behind `ensure_owner`: with a key, if one is to be seeded.
  unfoldable pub run_key : Bool → Bool × State → ℕ × State
  unfolding status_of_key
  run_key seeding (false, s) = (1, s)
  run_key false (true, s) = (0, s)
  run_key true (true, s) = status_of_key (ensure_api_key s)

  unfoldable pub run : Bool → State → ℕ × State
  unfolding run_key
  run seeding s = run_key seeding (ensure_owner (wait_for_api api_wait_attempts s).1)

  -- `main`: whether a key is seeded is the environment's to say.
  unfoldable pub main : Env → State → ℕ × State
  unfolding run
  main env = run (is_enabled (env (key_of seed_api_key)))
