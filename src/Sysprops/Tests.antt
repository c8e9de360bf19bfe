-- ===== src/Sysprops/Tests.antt =====
-- A library for files that are lists of keys and values, and the theorems on merges at it. A text is
-- the codes of each key and value, raised by one, with a zero behind each.
use unifi_containers.Prelude.{
  ◌≡◌, refl, sym, ap, ◌∙◌, zero, suc, Bool-cases, inl, inr, true, Option, none, some, List, [], ◌∷◌,
  if◌then◌else◌,
}
use unifi_containers.Text.{Text, codes, text_eq, text_eq_sound, text_eq_refl}
use unifi_containers.Settings.{Env}
use unifi_containers.Pins.{truthy}
use unifi_containers.Probes.{demo_settings}
use unifi_containers.Sysprops.{Values, Library, IsLibrary, merge, parse}
use unifi_containers.Sysprops.Merged.{first_some, value_at, first_value, merged, parse-merge}
use unifi_containers.Sysprops.Demo.{apply, text_or_empty, apply_settled}

abbrev Entries : Type 0
Entries = List (Text × Text)

unfoldable put : Text → Text → Text
put [] rest = 0 ∷ rest
put (c ∷ t) rest = suc c ∷ put t rest

unfoldable dumped : Entries → Text
unfolding put
dumped [] = []
dumped ((k, v) ∷ f) = put k (put v (dumped f))

-- The field that a text starts with, and those behind it.
unfoldable fields : Text → Text × List Text
fields [] = ([], [])
fields (zero ∷ t) = ([], (fields t).0 ∷ (fields t).1)
fields (suc c ∷ t) = (c ∷ (fields t).0, (fields t).1)

unfoldable pairs : List Text → Entries
pairs [] = []
pairs (k ∷ []) = []
pairs (k ∷ v ∷ fs) = (k, v) ∷ pairs fs

unfoldable entries : Text → Entries
unfolding fields pairs
entries t = pairs ((fields t).0 ∷ (fields t).1)

fields-put : (t rest : Text) → fields (put t rest) ≡ (t, (fields rest).0 ∷ (fields rest).1)
unfolding fields put
fields-put [] rest = refl
fields-put (c ∷ t) rest = ap (λ p. (c ∷ p.0, p.1)) (fields-put t rest)

entries-dumped : (f : Entries) → entries (dumped f) ≡ f
unfolding entries dumped pairs fields
entries-dumped [] = refl
entries-dumped ((k, v) ∷ f) =
    rw (fields-put k (put v (dumped f)), fields-put v (dumped f))
      (ap (λ x. (k, v) ∷ x) (entries-dumped f))

unfoldable loaded : Text → Option Entries
unfolding entries dumped
loaded t = if text_eq (dumped (entries t)) t then some (entries t) else none

unfoldable values_of : Option Entries → Option Values
values_of none = none
values_of (some f) = some (λ k. first_value k f)

abbrev listed : Library
listed = record {
  File = Entries;
  load = loaded;
  get = first_value;
  set = λ k v f. (k, v) ∷ f;
  dumps = dumped;
  read = λ t. values_of (loaded t);
}

loaded_sound : (t : Text) (f : Entries) → loaded t ≡ some f → dumped f ≡ t
unfolding loaded
loaded_sound t f h = elim (Bool-cases (text_eq (dumped (entries t)) t)) [
  | inl e ↦
      let same : entries t ≡ f = cc (rw (e, loaded) at h) in
      ap dumped (sym same) ∙ text_eq_sound (dumped (entries t)) t e
  | inr e ↦ absurd (cc (rw (e, loaded) at h))
]

listed-IsLibrary : IsLibrary listed
unfolding loaded values_of first_value value_at first_some
listed-IsLibrary = record {
  get-set = λ k v f. rw (text_eq_refl k) refl;
  get-set_other = λ k v other f h. rw h refl;
  dumps-load = loaded_sound;
  load-dumps = λ f. (f, rw (entries-dumped f, text_eq_refl (dumped f)) refl, λ k. refl);
  read-load = λ t f h. ((λ k. first_value k f), ap values_of h, λ k. refl);
}

abbrev unset : Env
unset name = none

-- An environment that asks for two access points.
abbrev asked : Env
asked name = if text_eq name (codes "DEMO_NUM_UAP") then some (codes "2") else none

abbrev old_file : Text
old_file = dumped ((codes "demo.num_uap", codes "7") ∷ [])

abbrev new_file : Text
new_file = dumped (
    (codes "demo.num_usw", codes "5")
    ∷ (codes "demo.num_ugw", codes "1")
    ∷ (codes "is_simulation", codes "true")
    ∷ (codes "demo.num_uap", codes "7")
    ∷ [])

merge_run : merge listed old_file (demo_settings unset) true ≡ some new_file
unfolding merge loaded text_eq demo_settings first_value truthy
merge_run = refl

apply_run : apply listed unset (some old_file) ≡ (true, new_file)
unfolding apply text_or_empty
apply_run = rw (merge_run, apply) refl

parse-merge_example :
    (before after : Values) × (parse listed (some old_file) ≡ some before)
    × (parse listed (some new_file) ≡ some after)
    × (after (codes "demo.num_uap")
        ≡ merged true (demo_settings unset) (codes "demo.num_uap") (before (codes "demo.num_uap")))
parse-merge_example =
    parse-merge listed listed-IsLibrary old_file new_file (demo_settings unset) true
      (codes "demo.num_uap") merge_run

apply_settled_example : apply listed asked (some new_file) ≡ (true, new_file)
apply_settled_example =
    apply_settled listed listed-IsLibrary unset asked (some old_file) new_file apply_run
