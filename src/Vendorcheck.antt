-- ===== src/Vendorcheck.antt =====
-- vendorcheck.py: whether the vendor's own script can read what the entrypoint stamps. The files are
-- those behind the stamp pass, which is Boot's; the script's run is what it prints and its status.
pub mod Complete
pub mod LastWord
pub mod Passed
pub mod Reads
pub mod Reported
pub mod Scanned
pub mod Tests
use unifi_containers.Prelude.{
  ℕ, zero, suc, ◌-◌, ◌==◌, ◌&&◌, ◌||◌, leb, length, Bool, true, false, Option, none, some, List, [],
  ◌∷◌, ◌++◌, if◌then◌else◌,
}
use unifi_containers.Text.{Text, codes, text_eq, strip}
use unifi_containers.Text.Words.{is_space, trim}
use unifi_containers.Text.Lines.{lines}
use unifi_containers.Pins.{truthy}
use unifi_containers.Simkeys.{sorted_set}

-- `[A-Za-z0-9_./-]`
unfoldable pub is_path_char : ℕ → Bool
is_path_char c =
    (leb b'a' c && leb c b'z')
    || (leb b'A' c && leb c b'Z')
    || (leb b'0' c && leb c b'9')
    || c == b'_'
    || c == b'.'
    || c == b'/'
    || c == b'-'

-- The longest run of such characters, and what is behind it.
unfoldable pub span_path : Text → Text × Text
unfolding is_path_char
span_path [] = ([], [])
span_path (c ∷ t) =
    let (path, rest) = span_path t in if is_path_char c then (c ∷ path, rest) else ([], c ∷ t)

-- `\s*\)`
unfoldable pub closed : Text → Option Text
closed [] = none
closed (c ∷ t) =
    let later = closed t in if c == b')' then some t else (if is_space c then later else none)

abbrev pub usr_lib : Text
usr_lib = codes "/usr/lib/"

-- The path of STAMP_READ_RE at the start, with what is behind the parenthesis. A shorter path would be
-- followed by one of its characters, which closes nothing.
unfoldable pub path_here : Text → Option (Text × Text)
unfolding span_path closed
path_here t = elim (strip usr_lib t) [
  | none ↦ none
  | some s ↦ elim (span_path s).0 [
    | [] ↦ none
    | c ∷ path ↦ elim (closed (span_path s).1) [
      | none ↦ none
      | some rest ↦ some (usr_lib ++ (c ∷ path), rest)
    ]
  ]
]

-- `[^)]*?\s` and the path, from the first white space on that one follows.
unfoldable pub path_in : Text → Option (Text × Text)
unfolding path_here
path_in [] = none
path_in (c ∷ t) =
    let later : Option (Text × Text) = elim (c == b')') [ true ↦ none | false ↦ path_in t ] in
    if is_space c then (elim (path_here t) [ none ↦ later | some found ↦ some found ]) else later

unfoldable pub read_at : Text → Option (Text × Text)
unfolding path_in
read_at t = elim (strip (codes "$(") t) [ none ↦ none | some s ↦ path_in s ]

-- `findall`, from a place on; the number is that of the characters that still belong to the last match.
unfoldable pub reads_from : ℕ → Text → List Text
unfolding read_at
reads_from n [] = []
reads_from (suc n) (c ∷ t) = reads_from n t
reads_from zero (c ∷ t) = elim (read_at (c ∷ t)) [
  | none ↦ reads_from 0 t
  | some (path, rest) ↦ path ∷ reads_from (length t - length rest) t
]

unfoldable pub stamp_reads : Text → List Text
unfolding reads_from
stamp_reads script = sorted_set (reads_from 0 script)

-- Whether a file is there and holds more than white space.
unfoldable pub is_stamped : Option Text → Bool
is_stamped none = false
is_stamped (some text) = elim (trim text) [ [] ↦ false | c ∷ t ↦ true ]

unfoldable pub missing_stamps : (Text → Option Text) → List Text → List Text
unfolding is_stamped
missing_stamps files [] = []
missing_stamps files (path ∷ paths) =
    let rest = missing_stamps files paths in if is_stamped (files path) then rest else path ∷ rest

unfoldable pub shortname_in : List Text → Option Text
shortname_in [] = none
shortname_in (l ∷ ls) =
    let later = shortname_in ls in
    elim (strip (codes "board.shortname=") l) [ none ↦ later | some name ↦ some (trim name) ]

unfoldable pub reported_shortname : Text → Option Text
unfolding shortname_in
reported_shortname output = shortname_in (lines output)

pub record Image : Type 0 where
  pub app_model : Option Text
  pub files : Text → Option Text
  -- The text of /sbin/ubnt-tools, if it can be read, and its run for `id`.
  pub script : Option Text
  pub id_status : ℕ
  pub id_output : Text

unfoldable pub is_model : Text → Option Text → Bool
is_model model none = false
is_model model (some shortname) = text_eq shortname model

-- The exit status for the paths that are missing.
unfoldable pub verdict_of : Image → Text → List Text → ℕ
unfolding is_model
verdict_of image model (path ∷ paths) = 1
verdict_of image model [] =
    if image.id_status == 0 && is_model model (reported_shortname image.id_output) then 0 else 1

unfoldable pub check_script : Image → Text → Option Text → ℕ
unfolding verdict_of missing_stamps stamp_reads
check_script image model none = 1
check_script image model (some script) =
    verdict_of image model (missing_stamps image.files (stamp_reads script))

unfoldable pub check : Image → ℕ
unfolding check_script
check image = elim (truthy image.app_model) [
  | none ↦ 1
  | some model ↦ check_script image model image.script
]
