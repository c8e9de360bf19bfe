-- ===== src/NetworkBoot/Java.antt =====
-- The java command line of entrypoint/network.py.
use unifi_containers.Prelude.{
  ℕ, Bool, true, ◌==◌, ◌||◌, ◌&&◌, leb, Option, none, some, List, [], ◌∷◌, ◌++◌, if◌then◌else◌,
}
use unifi_containers.Text.{Text, codes, text_eq}
use unifi_containers.Text.Words.{trim, join}
use unifi_containers.Pins.{truthy}
use unifi_containers.Settings.{Env}

abbrev pub default_jvm_opts : Text
default_jvm_opts = codes "-Xmx1024M -XX:+UseParallelGC"

abbrev pub add_opens : List Text
add_opens =
    codes "java.base/java.lang"
    ∷ codes "java.base/java.time"
    ∷ codes "java.base/sun.security.util"
    ∷ codes "java.base/java.io"
    ∷ codes "java.rmi/sun.rmi.transport"
    ∷ []

-- The loop over `ADD_OPENS`.
unfoldable pub open_flags : List Text → List Text
open_flags [] = []
open_flags (name ∷ names) = codes "--add-opens" ∷ (name ++ codes "=ALL-UNNAMED") ∷ open_flags names

-- The characters that `str.splitlines` splits at.
unfoldable pub is_line_end : ℕ → Bool
is_line_end c =
    (leb 0x0a c && leb c 0x0d)
    || (leb 0x1c c && leb c 0x1e)
    || c == 0x85
    || c == 0x2028
    || c == 0x2029

-- `text.splitlines()`, but for empty lines, which the caller skips: here "\r\n" ends two lines.
unfoldable pub split_lines : Text → List Text
split_lines [] = [] ∷ []
split_lines (c ∷ s) =
    let rest = split_lines s in
    if is_line_end c then [] ∷ rest else (elim rest [ [] ↦ (c ∷ []) ∷ [] | l ∷ ls ↦ (c ∷ l) ∷ ls ])

-- `line.partition("=")`, where there is one.
unfoldable pub partition_eq : Text → Option (Text × Text)
partition_eq [] = none
partition_eq (c ∷ s) =
    let rest = partition_eq s in
    if c == b'='
    then some ([], s)
    else (elim rest [ none ↦ none | some (key, value) ↦ some (c ∷ key, value) ])

unfoldable pub is_comment : Text → Bool
is_comment [] = true
is_comment (c ∷ s) = c == b'#'

module _ (split : Text → Option (List Text)) where
  -- What one line assigns, if it does: blank lines, comments, lines without `=` and values that
  -- `shlex.split` refuses do not.
  unfoldable pub assigned : Text → Option (Text × Text)
  unfolding partition_eq
  assigned line =
      let inside : Option (Text × Text) = elim (partition_eq (trim line)) [
        | none ↦ none
        | some (key, value) ↦ elim (split value) [
          | none ↦ none
          | some words ↦ some (trim key, join (b' ' ∷ []) words)
        ]
      ] in
      if is_comment (trim line) then none else inside

  -- `_read_shell_assignments(…).get(name)`: a later line wins.
  unfoldable pub assignment_in : Text → List Text → Option Text
  unfolding assigned
  assignment_in name [] = none
  assignment_in name (l ∷ ls) = elim (assignment_in name ls) [
    | some later ↦ some later
    | none ↦ elim (assigned l) [
      | none ↦ none
      | some (key, value) ↦ if text_eq key name then some value else none
    ]
  ]

  -- The first argument is the text of system_env, if it can be read.
  unfoldable pub jvm_opts : Option Text → Env → Text
  unfolding assignment_in split_lines
  jvm_opts system_env env =
      let from_file : Option Text = elim system_env [
        | none ↦ none
        | some text ↦ assignment_in (codes "UNIFI_JVM_OPTS") (split_lines text)
      ] in
      elim (truthy from_file) [
        | some opts ↦ opts
        | none ↦ elim (truthy (env (codes "UNIFI_JVM_OPTS"))) [
          | some opts ↦ opts
          | none ↦ default_jvm_opts
        ]
      ]

  -- `jvm_opts or DEFAULT_JVM_OPTS`, split; `none` is the ValueError.
  unfoldable pub java_argv : Text → Option (List Text)
  unfolding open_flags
  java_argv opts =
      let given : Text = elim (truthy (some opts)) [ some o ↦ o | none ↦ default_jvm_opts ] in
      elim (split given) [
        | none ↦ none
        | some words ↦ some (
            codes "/usr/bin/java"
            ∷ codes "-Dfile.encoding=UTF-8"
            ∷ codes "-Djava.awt.headless=true"
            ∷ codes "-Dapple.awt.UIElement=true"
            ∷ codes "-Dunifi.core.enabled=false"
            ∷ (words
                ++ (codes "-XX:+ExitOnOutOfMemoryError"
                    ∷ codes "-XX:+CrashOnOutOfMemoryError"
                    ∷ codes "-XX:ErrorFile=/usr/lib/unifi/logs/hs_err_pid%p.log"
                    ∷ codes "-Dunifi.datadir=/unifi/data"
                    ∷ codes "-Dunifi.logdir=/unifi/log"
                    ∷ codes "-Dunifi.rundir=/unifi/run"
                    ∷ (open_flags add_opens
                        ++ (codes "-jar"
                            ∷ codes "/usr/lib/unifi/lib/ace.jar"
                            ∷ codes "start"
                            ∷ [])))))
      ]
