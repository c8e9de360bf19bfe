-- ===== src/Boot/Links/Places.antt =====
-- The layout that `apply_symlinks` leaves, on a first boot, on a boot with an older volume and on a
-- restart.
use unifi_containers.Prelude.{
  subst, ℕ, ◌≡◌, refl, true, Option, none, some, List, [], ◌∷◌, if◌then◌else◌, arith, Option-cases,
  Bool-cases, false, inl, inr,
}
use unifi_containers.Text.{Text}
use unifi_containers.Boot.Links.{
  Node, Entries, file, link, directory, FilePath, find, Kernel, copy_no_clobber, Owner, root,
  Target, missing, other, volume, Place, made, existed, migrated, nothing, open_mode, with_link,
  relinked, apply_made, apply_plan, apply_symlinks,
}
use unifi_containers.Boot.Links.Mirror.{IsForest}
use unifi_containers.Boot.Links.Merge.{first_of, find-copy_no_clobber, copy_no_clobber_keeps}

-- The place with its link, and that directory on the volume.
abbrev pub linked : Text → Owner → Entries → Place
linked path o ts = record {
  target_path = path;
  original = some (link root path);
  target = volume open_mode o ts;
}

some-injective : {A : Type 0} {a b : A} → ◌≡◌ {A = Option A} (some a) (some b) → a ≡ b
some-injective h = cc

-- What has all that the other has comes from the other first.
kept_first :
    (had has : Option Node) → ((x : Node) → had ≡ some x → has ≡ some x) → has ≡ first_of had has
kept_first none has keeps = refl
kept_first (some x) has keeps = keeps x refl

module _ (k : Kernel) where
  applied :
      (path : Text) (d o : Owner) (xs ts : Entries) (t : Target)
      → made t ≡ some (o, ts)
      → k.may [] ≡ true
      → k.leftover (directory d xs) ≡ none
      → k.makes path ≡ true
      → k.relinks path ≡ true
      → apply_plan k (record { target_path = path; original = some (directory d xs); target = t })
        ≡ some (linked path (if existed t then o else d) (copy_no_clobber k xs ts))
  unfolding apply_plan
  applied path d o xs ts missing content allowed removed makes relinks = ground (arith)
  applied path d o xs ts other content allowed removed makes relinks = cc
  applied path d o xs ts (volume mode o' ts') content allowed removed makes relinks = ground (arith)

  -- If every owner can be given, no copy fails, the old directory can be removed, the one on the
  -- volume and the link can be made and no other call raises an OSError, the path becomes a link to
  -- the volume, where each name of the top has what the volume had, else what the image has, owners
  -- included; a directory that both have stays the volume's as a whole, so that nothing of the image
  -- is merged below it. A directory that is new on the volume has the image's owner.
  pub apply_plan-first_of :
      (path : Text) (d o : Owner) (xs ts : Entries) (t : Target)
      → made t ≡ some (o, ts)
      → ((p : FilePath) → k.may p ≡ true)
      → ((n : Text) → k.fault n ≡ none)
      → ((x : Node) → k.leftover x ≡ none)
      → k.makes path ≡ true
      → k.relinks path ≡ true
      → IsForest xs
      → (merged : Entries) × (apply_plan k
            (record { target_path = path; original = some (directory d xs); target = t })
          ≡ some (linked path (if existed t then o else d) merged))
        × ((name : Text) → find name merged ≡ first_of (find name ts) (find name xs))
  unfolding apply_plan
  apply_plan-first_of path d o xs ts t content allowed sound removed makes relinks forest = (
    copy_no_clobber k xs ts,
    applied path d o xs ts t content (allowed []) (removed (directory d xs)) makes relinks,
    λ name. find-copy_no_clobber k name xs ts allowed sound forest,
  )

  relinked-with_link :
      (path : Text) (p : (Owner × Entries) × Option Node) (done : Place)
      → relinked k path p ≡ some done
      → with_link path p ≡ some done
  unfolding relinked
  relinked-with_link path p done h = elim (Bool-cases (k.relinks path)) [
    | inl e ↦ rw (e, relinked) at h
    | inr e ↦ let h' = rw (e, relinked) at h in absurd (cc (h'))
  ]

  apply_plan-apply_made :
      (place done : Place) → apply_plan k place ≡ some done → apply_made k place ≡ some done
  unfolding apply_plan
  apply_plan-apply_made place done h = elim (Bool-cases (k.makes place.target_path)) [
    | inl e ↦ rw (e, apply_plan) at h
    | inr e ↦ let h' = rw (e, apply_plan) at h in absurd (cc (h'))
  ]

  relinked-linked :
      (path : Text) (o : Owner) (ts : Entries) (left : Option Node) (done : Place)
      → relinked k path ((o, ts), left) ≡ some done
      → done ≡ linked path o ts
  unfolding with_link
  relinked-linked path o ts left done h = from left (relinked-with_link path ((o, ts), left) done h)
    where
      from :
          (left : Option Node)
          → with_link path ((o, ts), left) ≡ some done
          → done ≡ linked path o ts
      from none h = cc
      from (some (file fo c)) h = cc
      from (some (link lo l)) h = cc
      from (some (directory d xs)) h = cc

  -- What was applied is a link to a directory on the volume.
  applied-linked :
      (path : Text) (original : Option Node) (t : Target) (done : Place)
      → apply_made k (record { target_path = path; original = original; target = t }) ≡ some done
      → (o : Owner) × (ts : Entries) × (done ≡ linked path o ts)
  unfolding apply_made
  applied-linked path original missing done h =
      let p = migrated k false original (root, nothing) in
      (p.0.0, p.0.1, relinked-linked path p.0.0 p.0.1 p.1 done h)
  applied-linked path original other done h = absurd (cc h)
  applied-linked path original (volume mode o ts) done h =
      let p = migrated k true original (o, ts) in
      (p.0.0, p.0.1, relinked-linked path p.0.0 p.0.1 p.1 done h)

  -- A link to the volume is made again as it is.
  linked_again :
      (path : Text) (o : Owner) (ts : Entries)
      → k.makes path ≡ true
      → k.relinks path ≡ true
      → apply_plan k (linked path o ts) ≡ some (linked path o ts)
  unfolding apply_plan
  linked_again path o ts makes relinks = ground (arith)

module _ (k k' : Kernel) where
  apply_plan_settled :
      (place done : Place)
      → apply_plan k place ≡ some done
      → ((path : Text) → k'.makes path ≡ true)
      → ((path : Text) → k'.relinks path ≡ true)
      → apply_plan k' done ≡ some done
  apply_plan_settled place done h makes relinks =
      let (o, ts, e) =
        applied-linked k place.target_path place.original place.target done
          (apply_plan-apply_made k place done h) in
      rw e (linked_again k' place.target_path o ts (makes _) (relinks _))

  -- A layout that `apply_symlinks` has left without an OSError stays as it is when it is applied
  -- again and `os.makedirs`, `os.remove`, `os.symlink` and `os.chmod` raise none then; whether owners
  -- can be given, copies made and directories removed does not matter the second time.
  pub apply_symlinks_settled :
      (places done : List Place)
      → apply_symlinks k places ≡ some done
      → ((path : Text) → k'.makes path ≡ true)
      → ((path : Text) → k'.relinks path ≡ true)
      → apply_symlinks k' done ≡ some done
  unfolding apply_symlinks
  apply_symlinks_settled [] [] h makes relinks = refl
  apply_symlinks_settled [] (d ∷ ds) h makes relinks = cc
  apply_symlinks_settled (place ∷ places) done h makes relinks =
      elim (Option-cases (apply_plan k place)) [
        | inl e ↦ let h' = rw (e, apply_symlinks) at h in absurd (cc (h'))
        | inr (d, e) ↦ elim (Option-cases (apply_symlinks k places)) [
          | inl e' ↦ let h' = rw (e, e', apply_symlinks) at h in absurd (cc (h'))
          | inr (ds, e') ↦
              let h' = rw (e, e', apply_symlinks) at h in
              subst (λ l. apply_symlinks k' l ≡ some l) (some-injective h')
                (rw (apply_plan_settled place d e makes relinks, apply_symlinks)
                  (rw (apply_symlinks_settled places ds e' makes relinks, apply_symlinks) refl))
        ]
      ]

module _ (k : Kernel) where
  made_keeps :
      (path : Text) (original : Option Node) (mode : ℕ) (o : Owner) (ts : Entries) (done : Place)
      → apply_made k (record { target_path = path; original = original; target = volume mode o ts })
        ≡ some done
      → (kept : Entries) × (done ≡ linked path o kept)
        × ((name : Text) → find name kept ≡ first_of (find name ts) (find name kept))
  unfolding apply_made
  made_keeps path none mode o ts done h =
      (ts, relinked-linked k path o ts none done h, λ name. kept_first _ _ (λ x had. had))
  made_keeps path (some (file fo c)) mode o ts done h = (
    ts,
    relinked-linked k path o ts (some (file fo c)) done h,
    λ name. kept_first _ _ (λ x had. had),
  )
  made_keeps path (some (link lo l)) mode o ts done h = (
    ts,
    relinked-linked k path o ts (some (link lo l)) done h,
    λ name. kept_first _ _ (λ x had. had),
  )
  made_keeps path (some (directory d xs)) mode o ts done h = (
    copy_no_clobber k xs ts,
    relinked-linked k path o _ _ done h,
    λ name. kept_first _ _ (λ x had. copy_no_clobber_keeps k name xs ts x had),
  )

  -- A directory of the volume stays where it is, with its owner, and has of each name what it had,
  -- whatever the kernel answers and whatever stood at the original path, which is then a link.
  pub apply_plan_keeps :
      (path : Text) (original : Option Node) (mode : ℕ) (o : Owner) (ts : Entries) (done : Place)
      → apply_plan k (record { target_path = path; original = original; target = volume mode o ts })
        ≡ some done
      → (kept : Entries) × (done ≡ linked path o kept)
        × ((name : Text) → find name kept ≡ first_of (find name ts) (find name kept))
  apply_plan_keeps path original mode o ts done h =
      made_keeps path original mode o ts done (apply_plan-apply_made k _ done h)
