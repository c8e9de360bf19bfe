-- ===== src/Boot/Links/Merge.antt =====
-- `_copy_no_clobber` as a union of maps from names to trees, in which the volume wins.
use unifi_containers.Prelude.{
  ◌≡◌, refl, ap, ◌∙◌, sym, true, Option, none, some, [], ◌∷◌, Bool-cases, Option-cases, inl, inr,
}
use unifi_containers.Text.{Text, text_eq, text_eq_sound}
use unifi_containers.Boot.Links.{
  Node, Entries, nothing, entry, FilePath, find, copied, mirror, Kernel, with_partial,
  copy_no_clobber,
}
use unifi_containers.Boot.Links.Mirror.{IsTree, IsForest, mirror-copied}

-- What the two directories have of that name, the first before the second.
abbrev pub first_of : Option Node → Option Node → Option Node
first_of (some x) other = some x
first_of none other = other

first_of-none : (o : Option Node) → o ≡ first_of o none
first_of-none none = refl
first_of-none (some x) = refl

-- An entry of a name that is not there hides no other.
find-fresh :
    (name n : Text) (x y : Node) (ts : Entries)
    → find n ts ≡ none
    → find name ts ≡ some x
    → find name (entry n y ts) ≡ some x
unfolding find
find-fresh name n x y ts fresh had = elim (Bool-cases (text_eq n name)) [
  | inl same ↦ cc (fresh, had, text_eq_sound n name same)
  | inr other ↦ rw other had
]

-- Putting in an entry whose name is not there is the union with that entry.
find-entry :
    (name n : Text) (x : Node) (xs ts : Entries)
    → find n ts ≡ none
    → first_of (find name (entry n x ts)) (find name xs)
      ≡ first_of (find name ts) (find name (entry n x xs))
unfolding find
find-entry name n x xs ts fresh = elim (Bool-cases (text_eq n name)) [
  | inl same ↦ rw same (rw (ap (λ m. find m ts) (sym (text_eq_sound n name same)) ∙ fresh) refl)
  | inr other ↦ rw other refl
]

-- So is leaving out an entry whose name is there.
find-present :
    (name n : Text) (x y : Node) (xs ts : Entries)
    → find n ts ≡ some y
    → first_of (find name ts) (find name xs) ≡ first_of (find name ts) (find name (entry n x xs))
unfolding find
find-present name n x y xs ts there = elim (Bool-cases (text_eq n name)) [
  | inl same ↦ rw same (rw (ap (λ m. find m ts) (sym (text_eq_sound n name same)) ∙ there) refl)
  | inr other ↦ rw other refl
]

-- Neither does what a copy that fails leaves of its entry.
faulty :
    (name n : Text) (x : Node) (ts : Entries) (fault : Option (Option Node)) (done : Entries)
    → find n ts ≡ none
    → find name ts ≡ some x
    → find name done ≡ some x
    → find name (elim fault as (λ _. Entries) [ some rest ↦ with_partial n rest ts | none ↦ done ])
      ≡ some x
unfolding with_partial
faulty name n x ts none done fresh had going_on = going_on
faulty name n x ts (some none) done fresh had going_on = had
faulty name n x ts (some (some y)) done fresh had going_on = find-fresh name n x y ts fresh had

module _ (k : Kernel) where
  -- If no copy fails and every owner can be given, the volume has, of each name, what it had, and
  -- else the very tree that the image has, its owners included.
  pub find-copy_no_clobber :
      (name : Text) (xs ts : Entries)
      → ((p : FilePath) → k.may p ≡ true)
      → ((n : Text) → k.fault n ≡ none)
      → IsForest xs
      → find name (copy_no_clobber k xs ts) ≡ first_of (find name ts) (find name xs)
  unfolding copy_no_clobber IsTree
  find-copy_no_clobber name nothing ts allowed sound forest = first_of-none (find name ts)
  find-copy_no_clobber name (entry n x xs) ts allowed sound (tree, _, forest) =
      elim (Option-cases (find n ts)) [
        | inl fresh ↦
            rw (fresh, copy_no_clobber, sound n)
              (rw (mirror-copied k.may allowed (n ∷ []) x tree) (
                find-copy_no_clobber name xs (entry n x ts) allowed sound forest
                ∙ find-entry name n x xs ts fresh))
        | inr (y, there) ↦
            rw (there, copy_no_clobber)
              (find-copy_no_clobber name xs ts allowed sound forest
                ∙ find-present name n x y xs ts there)
      ]

  -- Whatever fails, the volume keeps what it had.
  pub copy_no_clobber_keeps :
      (name : Text) (xs ts : Entries) (x : Node)
      → find name ts ≡ some x
      → find name (copy_no_clobber k xs ts) ≡ some x
  unfolding copy_no_clobber
  copy_no_clobber_keeps name nothing ts x had = had
  copy_no_clobber_keeps name (entry n s xs) ts x had = elim (Option-cases (find n ts)) [
    | inr (y, there) ↦ rw (there, copy_no_clobber) (copy_no_clobber_keeps name xs ts x had)
    | inl fresh ↦
        rw (fresh, copy_no_clobber)
          (faulty name n x ts (k.fault n) _ fresh had (
            copy_no_clobber_keeps name xs (entry n (mirror k.may (n ∷ []) s (copied s)) ts) x
              (find-fresh name n x (mirror k.may (n ∷ []) s (copied s)) ts fresh had)))
  ]
