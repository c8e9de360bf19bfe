-- ===== src/NetworkBoot.antt =====
-- entrypoint/network.py up to the supervisor: the java command line, the init hooks and `main`.
-- `shlex.split`, the vendor's helper and the properties library are parameters. What a boot does is
-- kept in order, the latest first.
pub mod Java
pub mod Sequence
pub mod Hooks
pub mod Cleared
pub mod Tests
use unifi_containers.Prelude.{
  ℕ, Bool, true, false, ◌==◌, ◌||◌, ◌&&◌, leb, not, Option, none, some, List, [], ◌∷◌, ◌++◌,
  if◌then◌else◌,
}
use unifi_containers.Prelude.Results.{Result, ok, err, after}
use unifi_containers.Text.{Text, codes, text_eq, is_in}
use unifi_containers.Settings.{Env}
use unifi_containers.Readyz.Configured.{Endpoint, off, bad_port, unknown_probe, serving, configured}

pub data Action : Type 0 where
  handed_over : List Text → Action
  umask : ℕ → Action
  -- The endpoint starts serving; `on` lists the paths of `BOOT_STATE` that exist then.
  endpoint : (on : List Text) → Action
  env_set : Text → Text → Action
  -- A command, and the exit status that it had.
  called : List Text → ℕ → Action
  wrote : Text → Text → Action
  supervised : List Text → Action

pub data BootFailure : Type 0 where
  -- ValueErrors of `readyz.configured` and of `shlex.split`, and the RuntimeError of a hook.
  bad_endpoint : BootFailure
  bad_jvm_opts : BootFailure
  hook_failed : Text → ℕ → BootFailure

-- The paths of `BOOT_STATE` that exist, and what has been done.
pub record Container : Type 0 where
  pub markers : List Text
  pub trace : List Action

unfoldable pub did : Action → Container → Container
did a c = record { markers = c.markers; trace = a ∷ c.trace }

abbrev pub BootStep : Type 0
BootStep = Container → Result BootFailure (Unit {0}) × Container

-- BOOT_STATE of healthcheck.py
abbrev pub boot_state : List Text
boot_state =
    codes "/tmp/unifi-ready" ∷ codes "/tmp/unifi-login-ready" ∷ codes "/tmp/unifi-cookies" ∷ []

-- The list without a path.
unfoldable pub without : Text → List Text → List Text
without path [] = []
without path (p ∷ ps) = let rest = without path ps in if text_eq p path then rest else p ∷ rest

-- `clear_readiness_state`; `removable` tells of which path `os.remove` succeeds.
unfoldable pub clear_readiness_state : (Text → Bool) → List Text → Container → Container
unfolding without
clear_readiness_state removable [] c = c
clear_readiness_state removable (path ∷ paths) c = clear_readiness_state removable paths (record {
  markers = if removable path then without path c.markers else c.markers;
  trace = c.trace;
})

-- The characters of `_HOOK_NAME_CHARS`.
unfoldable pub is_hook_char : ℕ → Bool
is_hook_char c =
    (leb b'a' c && leb c b'z')
    || (leb b'A' c && leb c b'Z')
    || (leb b'0' c && leb c b'9')
    || c == b'_'
    || c == b'-'

unfoldable pub is_hook_name : Text → Bool
is_hook_name [] = true
is_hook_name (c ∷ s) = let rest = is_hook_name s in if is_hook_char c then rest else false

-- What the container finds: the hook directory's names, if it can be read, which of the paths are
-- executable files, and the status of each command by what has been done before.
pub record Host : Type 0 where
  pub hook_names : Option (List Text)
  pub is_executable : Text → Bool
  pub status : List Text → List Action → ℕ
  pub removable : Text → Bool
  pub has_helper : Bool
  pub properties : Option Text
  pub system_env : Option Text

-- `a <= b` on texts, and `sorted`.
unfoldable pub text_le : Text → Text → Bool
text_le [] t = true
text_le (c ∷ s) [] = false
text_le (c ∷ s) (d ∷ t) = let rest = text_le s t in if c == d then rest else leb c d

unfoldable pub insert : Text → List Text → List Text
insert t [] = t ∷ []
insert t (u ∷ us) = let rest = insert t us in if text_le t u then t ∷ u ∷ us else u ∷ rest

unfoldable pub sorted : List Text → List Text
unfolding insert
sorted [] = []
sorted (t ∷ ts) = insert t (sorted ts)

abbrev pub init_hooks : Text
init_hooks = codes "/usr/local/unifi/init.d"

unfoldable pub hook_path : Text → Text
hook_path name = init_hooks ++ (b'/' ∷ name)

module _ (H : Host) where
  unfoldable pub is_hook : Text → Bool
  unfolding hook_path
  is_hook name = is_hook_name name && H.is_executable (hook_path name)

  -- `run_hooks` over the sorted names, up to the first hook that fails.
  unfoldable pub run_each : List Text → BootStep
  unfolding did hook_path
  run_each [] c = (ok tt, c)
  run_each (name ∷ names) c =
      let status = H.status (hook_path name ∷ []) c.trace in
      let c' = did (called (hook_path name ∷ []) status) c in
      let skipped = run_each names c in
      let rest = run_each names c' in
      if is_hook name
      then (if status == 0 then rest else (err (hook_failed name status), c'))
      else skipped

  unfoldable pub run_hooks : BootStep
  unfolding run_each sorted
  run_hooks c = elim H.hook_names [ none ↦ (ok tt, c) | some names ↦ run_each (sorted names) c ]
