-- ===== src/Selfcheck.antt =====
-- selfcheck.py: whether each shipped module can be imported. The interpreter's version and the imports
-- are arguments.
use unifi_containers.Prelude.{ℕ, ◌==◌, ◌||◌, ◌&&◌, ltb, Bool, List, [], ◌∷◌, ◌++◌, if◌then◌else◌}
use unifi_containers.Text.{Text, codes}

pub data Problem : Type 0 where
  old_interpreter : ℕ → ℕ → Problem
  no_import : Text → Problem

-- `MODULES`
abbrev pub modules : List Text
modules =
    codes "unifi_runtime.env"
    ∷ codes "unifi_runtime.http"
    ∷ codes "unifi_runtime._vendor.javaproperties"
    ∷ codes "unifi_runtime.sysprops"
    ∷ codes "unifi_runtime.unifi.network"
    ∷ codes "unifi_runtime.unifi.ucore"
    ∷ codes "unifi_runtime.unifi.ulp"
    ∷ codes "unifi_runtime.healthcheck"
    ∷ codes "unifi_runtime.readyz"
    ∷ codes "unifi_runtime.entrypoint.uos"
    ∷ codes "unifi_runtime.entrypoint.demo"
    ∷ codes "unifi_runtime.seed.uos_owner"
    ∷ codes "unifi_runtime.seed.network_wizard"
    ∷ codes "unifi_runtime.entrypoint.network"
    ∷ codes "unifi_runtime.vendorcheck"
    ∷ []

-- `sys.version_info < MINIMUM`
unfoldable pub is_too_old : ℕ → ℕ → Bool
is_too_old major minor = ltb major 3 || (major == 3 && ltb minor 9)

unfoldable pub failed_imports : (Text → Bool) → List Text → List Problem
failed_imports imports [] = []
failed_imports imports (name ∷ names) =
    let rest = failed_imports imports names in if imports name then rest else no_import name ∷ rest

unfoldable pub check_modules : ℕ → ℕ → (Text → Bool) → List Problem
unfolding is_too_old failed_imports
check_modules major minor imports =
    (if is_too_old major minor then old_interpreter major minor ∷ [] else [])
    ++ failed_imports imports modules

-- The exit status of `main` for the problems.
unfoldable pub main_status : List Problem → ℕ
main_status [] = 0
main_status (p ∷ problems) = 1
