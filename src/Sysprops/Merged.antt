-- ===== src/Sysprops/Merged.antt =====
-- What a merge leaves in the file, and that a second one changes nothing.
use unifi_containers.Prelude.{
  ◌≡◌, refl, ◌∙◌, sym, ap, Bool-cases, inl, inr, Bool, true, false, Option, none, some, List, [],
  ◌∷◌, Has, if◌then◌else◌,
}
use unifi_containers.Text.{Text, text_eq, text_eq_sound, text_eq_refl}
use unifi_containers.Sysprops.{Values, Library, IsLibrary, has, update, merge, parse}

-- The first of two optional values, and the first and the last value for a key.
unfoldable pub first_some : Option Text → Option Text → Option Text
first_some none b = b
first_some (some a) b = some a

-- The update of one key, as the value that it gives another.
unfoldable pub value_at : Text → Text → Text → Option Text
value_at key k v = if text_eq key k then some v else none

unfoldable pub first_value : Text → List (Text × Text) → Option Text
unfolding first_some value_at
first_value key [] = none
first_value key ((k, v) ∷ updates) = first_some (value_at key k v) (first_value key updates)

unfoldable pub last_value : Text → List (Text × Text) → Option Text
unfolding first_some value_at
last_value key [] = none
last_value key ((k, v) ∷ updates) = first_some (last_value key updates) (value_at key k v)

-- The value of a key behind a merge of updates over the value before it.
unfoldable pub merged : Bool → List (Text × Text) → Text → Option Text → Option Text
unfolding first_some first_value last_value
merged true updates key before = first_some before (first_value key updates)
merged false updates key before = first_some (last_value key updates) before

first_some_assoc :
    (a b c : Option Text) → first_some (first_some a b) c ≡ first_some a (first_some b c)
unfolding first_some
first_some_assoc none b c = refl
first_some_assoc (some x) b c = refl

first_some-none : (a : Option Text) → first_some a none ≡ a
unfolding first_some
first_some-none none = refl
first_some-none (some x) = refl

has-first_some : (a b : Option Text) → has b ≡ true → has (first_some a b) ≡ true
unfolding first_some has
has-first_some none b h = h
has-first_some (some x) b h = refl

written : (v : Text) (b : Option Text) → has (first_some (some v) b) ≡ true
unfolding first_some has
written v b = refl

pub has-first_value :
    (k v : Text) (updates : List (Text × Text))
    → Has (k, v) updates
    → has (first_value k updates) ≡ true
unfolding first_value value_at
has-first_value k v [] m = absurd m
has-first_value k v ((j, w) ∷ updates) (inl here) =
    let same : k ≡ j = ap (λ p. p.0) here in
    rw (ap (text_eq k) (sym same) ∙ text_eq_refl k) (written w (first_value k updates))
has-first_value k v ((j, w) ∷ updates) (inr there) =
    has-first_some (value_at k j w) (first_value k updates) (has-first_value k v updates there)

module _ (L : Library) (laws : IsLibrary L) where
  get-set_at :
      (k v key : Text) (f : L.File)
      → L.get key (L.set k v f) ≡ first_some (value_at key k v) (L.get key f)
  unfolding value_at first_some
  get-set_at k v key f = elim (Bool-cases (text_eq key k)) [
    | inl e ↦ rw e (ap (λ x. L.get x (L.set k v f)) (text_eq_sound key k e) ∙ laws.get-set k v f)
    | inr e ↦ rw e (laws.get-set_other k v key f e)
  ]

  get-kept :
      (k v key : Text) (f : L.File) (before : Option Text)
      → L.get k f ≡ before
      → L.get key (if has before then f else L.set k v f)
        ≡ first_some (L.get key f) (value_at key k v)
  unfolding has value_at first_some
  get-kept k v key f (some x) e = elim (Bool-cases (text_eq key k)) [
    | inl h ↦
        let there : L.get key f ≡ some x = ap (λ y. L.get y f) (text_eq_sound key k h) ∙ e in
        rw there refl
    | inr h ↦ rw h (sym (first_some-none (L.get key f)))
  ]
  get-kept k v key f none e = elim (Bool-cases (text_eq key k)) [
    | inl h ↦
        let there : L.get key f ≡ none = ap (λ y. L.get y f) (text_eq_sound key k h) ∙ e in
        rw (there, h) (ap (λ x. L.get x (L.set k v f)) (text_eq_sound key k h) ∙ laws.get-set k v f)
    | inr h ↦ rw h (laws.get-set_other k v key f h ∙ sym (first_some-none (L.get key f)))
  ]

  get-update :
      (flag : Bool) (updates : List (Text × Text)) (key : Text) (f : L.File)
      → L.get key (update L flag updates f) ≡ merged flag updates key (L.get key f)
  unfolding update merged first_value last_value
  get-update true [] key f = sym (first_some-none (L.get key f))
  get-update false [] key f = refl
  get-update true ((k, v) ∷ updates) key f =
      get-update true updates key (if has (L.get k f) then f else L.set k v f)
      ∙ ap (λ x. first_some x (first_value key updates)) (get-kept k v key f (L.get k f) refl)
      ∙ first_some_assoc (L.get key f) (value_at key k v) (first_value key updates)
  get-update false ((k, v) ∷ updates) key f =
      get-update false updates key (L.set k v f)
      ∙ ap (first_some (last_value key updates)) (get-set_at k v key f)
      ∙ sym (first_some_assoc (last_value key updates) (value_at key k v) (L.get key f))

  -- The update of keys that the file has.
  update_same :
      (updates : List (Text × Text)) (g : L.File)
      → ((k v : Text) → Has (k, v) updates → has (L.get k g) ≡ true)
      → update L true updates g ≡ g
  unfolding update
  update_same [] g h = refl
  update_same ((k, v) ∷ updates) g h =
      rw (h k v (inl refl), update) (update_same updates g (λ k' v' m. h k' v' (inr m)))

  -- What a merge loads, changes and dumps.
  merge_sound :
      (existing new : Text) (updates : List (Text × Text)) (flag : Bool)
      → merge L existing updates flag ≡ some new
      → (f : L.File) × (L.load existing ≡ some f) × (L.dumps (update L flag updates f) ≡ new)
  unfolding merge
  merge_sound existing new updates flag h = from (L.load existing) refl
    where
      from :
          (r : Option L.File)
          → L.load existing ≡ r
          → (f : L.File) × (L.load existing ≡ some f) × (L.dumps (update L flag updates f) ≡ new)
      from none e = absurd (cc (rw (e, merge) at h))
      from (some f) e =
          let k : ◌≡◌ {A = Option Text} (some (L.dumps (update L flag updates f))) (some new) =
            rw (e, merge) at h in
          (f, e, cc k)

  -- After a merge the file can be parsed, if it could be before, and a key has the first value among
  -- the updates if only absent keys are added and the file did not have it, the last value among the
  -- updates if all are written, and otherwise the value that it had.
  pub parse-merge :
      (existing new : Text) (updates : List (Text × Text)) (flag : Bool) (key : Text)
      → merge L existing updates flag ≡ some new
      → (before after : Values) × (parse L (some existing) ≡ some before)
        × (parse L (some new) ≡ some after)
        × (after key ≡ merged flag updates key (before key))
  unfolding parse
  parse-merge existing new updates flag key h =
      let (f, loaded, dumped) = merge_sound existing new updates flag h in
      let (before, read, seen) = laws.read-load existing f loaded in
      let (g, again, same) = laws.load-dumps (update L flag updates f) in
      let (after, read', seen') = laws.read-load new g (ap L.load (sym dumped) ∙ again) in
      (
        before,
        after,
        read,
        read',
        seen' key
            ∙ same key
            ∙ get-update flag updates key f
            ∙ ap (merged flag updates key) (sym (seen key)),
      )

  -- A merge that only adds absent keys changes nothing in what another such merge has written, if that
  -- one had all of its keys.
  pub merge_settled :
      (existing new : Text) (updates later : List (Text × Text))
      → ((k v : Text) → Has (k, v) later → has (first_value k updates) ≡ true)
      → merge L existing updates true ≡ some new
      → merge L new later true ≡ some new
  unfolding merge merged
  merge_settled existing new updates later covers h =
      let (f, loaded, dumped) = merge_sound existing new updates true h in
      let (g, again, same) = laws.load-dumps (update L true updates f) in
      let loads : L.load new ≡ some g = ap L.load (sym dumped) ∙ again in
      let stays : update L true later g ≡ g = update_same later g (λ k v m.
        ap has (same k ∙ get-update true updates k f)
        ∙ has-first_some (L.get k f) (first_value k updates) (covers k v m)) in
      rw (loads, stays, laws.dumps-load new g loads) refl
