-- ===== src/Sysprops.antt =====
-- sysprops.py: reading and updating `system.properties`. The copy of javaproperties that it calls is a
-- parameter, the record `Library`; `IsLibrary` states what that library documents of it.
pub mod Demo
pub mod Merged
pub mod Tests
use unifi_containers.Prelude.{
  ◌≡◌, Bool, true, false, ◌&&◌, Option, none, some, List, [], ◌∷◌, ◌>>=◌, if◌then◌else◌,
}
use unifi_containers.Text.{Text, text_eq}

-- A mapping from keys to values, as `dict` has it.
abbrev pub Values : Type 0
Values = Text → Option Text

pub record Library : Type 1 where
  -- `PropertiesFile`
  pub File : Type 0
  -- `PropertiesFile.loads`; `none` is an exception, for an escape that is malformed.
  pub load : Text → Option File
  -- `key in props` and `props[key]`
  pub get : Text → File → Option Text
  -- `props[key] = value`
  pub set : Text → Text → File → File
  pub dumps : File → Text
  -- `dict(loads(text))`
  pub read : Text → Option Values

pub record IsLibrary (L : Library) : Type 0 where
  pub get-set : (key value : Text) (f : L.File) → L.get key (L.set key value f) ≡ some value
  pub get-set_other :
      (key value other : Text) (f : L.File)
      → text_eq other key ≡ false
      → L.get other (L.set key value f) ≡ L.get other f
  -- A file that is loaded and not changed keeps its text.
  pub dumps-load : (t : Text) (f : L.File) → L.load t ≡ some f → L.dumps f ≡ t
  -- What a file dumps can be loaded again, with the values of the file.
  pub load-dumps :
      (f : L.File)
      → (g : L.File) × (L.load (L.dumps f) ≡ some g) × ((k : Text) → L.get k g ≡ L.get k f)
  -- `loads` reads the values of the file that `PropertiesFile.loads` gives.
  pub read-load :
      (t : Text) (f : L.File)
      → L.load t ≡ some f
      → (v : Values) × (L.read t ≡ some v) × ((k : Text) → v k ≡ L.get k f)

unfoldable pub has : Option Text → Bool
has none = false
has (some value) = true

module _ (L : Library) where
  -- `text or ""`, of a text that may be missing.
  unfoldable pub parse : Option Text → Option Values
  parse none = L.read []
  parse (some text) = L.read text

  -- The loop of `merge`.
  unfoldable pub update : Bool → List (Text × Text) → L.File → L.File
  unfolding has
  update only_if_absent [] props = props
  update only_if_absent ((key, value) ∷ updates) props =
      update only_if_absent updates
        (if only_if_absent && has (L.get key props) then props else L.set key value props)

  unfoldable pub merge : Text → List (Text × Text) → Bool → Option Text
  unfolding update
  merge existing updates only_if_absent = do
    props ← L.load existing
    some (L.dumps (update only_if_absent updates props))
