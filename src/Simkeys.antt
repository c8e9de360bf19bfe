-- ===== src/Simkeys.antt =====
-- simkeys.py: the keys of the simulation that stand in the jars of a release. The archives are what
-- python-debian, tarfile and zipfile read out of them; downloads and warnings are left out.
pub mod Found
pub mod Order
pub mod Tests
use unifi_containers.Prelude.{
  ℕ, zero, suc, ◌-◌, ◌==◌, ◌&&◌, ◌||◌, leb, length, Bool, true, false, Option, none, some, List, [],
  ◌∷◌, ◌++◌, if◌then◌else◌,
}
use unifi_containers.Prelude.Results.{Result, ok, err}
use unifi_containers.Text.{Text, codes, text_eq, strip}
use unifi_containers.Text.Words.{ends_with}
use unifi_containers.NetworkBoot.{text_le}

-- `ExtractionError`, by what it says.
pub data ScanError : Type 0 where
  unreadable_deb no_jars no_keys : ScanError

-- An entry of a jar. Reading one may raise the RuntimeError that ends the jar.
pub data Entry : Type 0 where
  directory : Entry
  unreadable : Entry
  readable : Text → Entry

-- A jar; `none` is a BadZipFile.
abbrev pub Jar : Type 0
Jar = Option (List Entry)

-- A member of the data archive; `jar` is `none` if `extractfile` gives none.
pub record Member : Type 0 where
  pub name : Text
  pub is_file : Bool
  pub jar : Option Jar

-- `[a-z0-9_]`
unfoldable pub is_key_char : ℕ → Bool
is_key_char c = (leb b'a' c && leb c b'z') || (leb b'0' c && leb c b'9') || c == b'_'

unfoldable pub key_chars : Text → Text
unfolding is_key_char
key_chars [] = []
key_chars (c ∷ t) = let rest = key_chars t in if is_key_char c then c ∷ rest else []

abbrev pub is_simulation : Text
is_simulation = codes "is_simulation"

abbrev pub demo : Text
demo = codes "demo."

-- The second alternative of `KEY_RE`.
unfoldable pub demo_key : Text → Option Text
unfolding key_chars
demo_key t = elim (strip demo t) [
  | none ↦ none
  | some rest ↦ elim (key_chars rest) [ [] ↦ none | c ∷ cs ↦ some (demo ++ (c ∷ cs)) ]
]

-- What `KEY_RE` matches at the start.
unfoldable pub key_at : Text → Option Text
unfolding demo_key
key_at t = elim (strip is_simulation t) [ some rest ↦ some is_simulation | none ↦ demo_key t ]

-- `finditer`, from a place on; the number is that of the bytes that still belong to the last match.
unfoldable pub scan_from : ℕ → Text → List Text
unfolding key_at
scan_from n [] = []
scan_from (suc n) (c ∷ t) = scan_from n t
scan_from zero (c ∷ t) = elim (key_at (c ∷ t)) [
  | none ↦ scan_from 0 t
  | some key ↦ key ∷ scan_from (length key - 1) t
]

unfoldable pub scan : Text → List Text
unfolding scan_from
scan blob = scan_from 0 blob

unfoldable pub keys_in_entries : List Entry → List Text
unfolding scan
keys_in_entries [] = []
keys_in_entries (directory ∷ entries) = keys_in_entries entries
keys_in_entries (unreadable ∷ entries) = []
keys_in_entries (readable blob ∷ entries) = scan blob ++ keys_in_entries entries

unfoldable pub keys_in_jar : Jar → List Text
unfolding keys_in_entries
keys_in_jar none = []
keys_in_jar (some entries) = keys_in_entries entries

abbrev pub lib_dir : Text
lib_dir = codes "usr/lib/unifi/lib/"

-- `name.removeprefix("./")`
unfoldable pub plain_name : Text → Text
plain_name name = elim (strip (codes "./") name) [ none ↦ name | some rest ↦ rest ]

unfoldable pub is_in_lib : Text → Bool
is_in_lib name = elim (strip lib_dir name) [ none ↦ false | some rest ↦ true ]

unfoldable pub is_jar : Member → Bool
unfolding plain_name is_in_lib
is_jar m =
    m.is_file && ends_with (codes ".jar") (plain_name m.name) && is_in_lib (plain_name m.name)

unfoldable pub keys_in_member : Option Jar → List Text
unfolding keys_in_jar
keys_in_member none = []
keys_in_member (some jar) = keys_in_jar jar

-- The loop of `keys_in_data_tar`: whether there is a jar, and the keys.
unfoldable pub keys_in_members : List Member → Bool × List Text
unfolding keys_in_member
keys_in_members [] = (false, [])
keys_in_members (m ∷ members) =
    let (any, keys) = keys_in_members members in
    if is_jar m then (true, keys_in_member m.jar ++ keys) else (any, keys)

-- `sorted` of a set: no key stands in it twice.
unfoldable pub insert_key : Text → List Text → List Text
insert_key t [] = t ∷ []
insert_key t (u ∷ us) =
    let rest = insert_key t us in
    if text_eq t u then u ∷ us else (if text_le t u then t ∷ u ∷ us else u ∷ rest)

unfoldable pub sorted_set : List Text → List Text
unfolding insert_key
sorted_set [] = []
sorted_set (t ∷ ts) = insert_key t (sorted_set ts)

unfoldable pub keys_in_data_tar : List Member → Result ScanError (List Text)
unfolding keys_in_members
keys_in_data_tar members =
    let (any, keys) = keys_in_members members in if any then ok keys else err no_jars

-- `none` is a file that is no readable .deb.
unfoldable pub keys_in_deb : Option (List Member) → Result ScanError (List Text)
unfolding keys_in_data_tar
keys_in_deb none = err unreadable_deb
keys_in_deb (some members) = keys_in_data_tar members

unfoldable pub listed_keys : List Text → Result ScanError (List Text)
unfolding sorted_set
listed_keys [] = err no_keys
listed_keys (k ∷ keys) = ok (sorted_set (k ∷ keys))

unfoldable pub collect : Option (List Member) → Result ScanError (List Text)
unfolding keys_in_deb listed_keys
collect deb = elim (keys_in_deb deb) [ err e ↦ err e | ok keys ↦ listed_keys keys ]
