-- ===== src/Boot/Links/Mirror.antt =====
-- `_mirror_ownership` behind `shutil.copytree`.
use unifi_containers.Prelude.{◌≡◌, refl, ap, ◌∙◌, Bool, true, false, ◌∷◌}
use unifi_containers.Text.{Text, text_eq, text_eq_refl}
use unifi_containers.Boot.Links.{
  Node, Entries, file, link, directory, nothing, entry, FilePath, own, at, below, copied,
  copied_entries, mirror, mirror_entries,
}

-- No entry has that name.
abbrev pub Fresh : Text → Entries → Type 0
Fresh name nothing = Unit
Fresh name (entry n x xs) = (text_eq name n ≡ false) × Fresh name xs

-- No directory has two entries of one name.
unfoldable mutual
  pub IsTree : Node → Type 0
  IsTree (file o c) = Unit
  IsTree (link o l) = Unit
  IsTree (directory o xs) = IsForest xs

  pub IsForest : Entries → Type 0
  IsForest nothing = Unit
  IsForest (entry n x xs) = IsTree x × Fresh n xs × IsForest xs

module _ (may : FilePath → Bool) where
  at_head :
      (n : Text) (f : Node → Node) (x : Node) (xs : Entries)
      → at n f (entry n x xs) ≡ entry n (f x) xs
  unfolding at
  at_head n f x xs = rw (text_eq_refl n) refl

  at_other :
      (m n : Text) (f : Node → Node) (x : Node) (xs : Entries)
      → text_eq n m ≡ false
      → at m f (entry n x xs) ≡ entry n x (at m f xs)
  unfolding at
  at_other m n f x xs other = rw other refl

  mirror_entries-entry :
      (p : FilePath) (xs : Entries) (n : Text) (t : Node) (ts : Entries)
      → Fresh n xs
      → mirror_entries may p xs (entry n t ts) ≡ entry n t (mirror_entries may p xs ts)
  unfolding mirror
  mirror_entries-entry p nothing n t ts fresh = refl
  mirror_entries-entry p (entry m x xs) n t ts (other, fresh) =
      ap (mirror_entries may p xs) (at_other m n (mirror may (m ∷ p) x) t ts other)
      ∙ mirror_entries-entry p xs n t (at m (mirror may (m ∷ p) x) ts) fresh

  module _ (allowed : (p : FilePath) → may p ≡ true) where
    mutual
      unfolding mirror copied own below IsTree

      -- A copied tree gets back the owner of every path in it.
      pub mirror-copied : (p : FilePath) (s : Node) → IsTree s → mirror may p s (copied s) ≡ s
      mirror-copied p (file o c) tree = rw (allowed p) refl
      mirror-copied p (link o l) tree = rw (allowed p) refl
      mirror-copied p (directory o xs) tree =
          rw (allowed p) (ap (directory o) (mirror_entries-copied p xs tree))

      mirror_entries-copied :
          (p : FilePath) (xs : Entries)
          → IsForest xs
          → mirror_entries may p xs (copied_entries xs) ≡ xs
      mirror_entries-copied p nothing forest = refl
      mirror_entries-copied p (entry n x xs) (tree, fresh, forest) =
          ap (mirror_entries may p xs)
            (at_head n (mirror may (n ∷ p) x) (copied x) (copied_entries xs))
          ∙ mirror_entries-entry p xs n (mirror may (n ∷ p) x (copied x)) (copied_entries xs) fresh
          ∙ ap (λ y. entry n y (mirror_entries may p xs (copied_entries xs)))
              (mirror-copied (n ∷ p) x tree)
          ∙ ap (entry n x) (mirror_entries-copied p xs forest)
