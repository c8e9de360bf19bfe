-- ===== src/Boot/Links.antt =====
-- The single-volume layout of entrypoint/uos.py: a path of the image is moved to the volume and
-- becomes a link to it. A tree has what the code copies of it, the owners and the contents; the
-- order of a directory's entries means nothing. The paths of `SYMLINK_MAP` do not overlap, so that
-- each has a `Place` of its own.
pub mod Mirror
pub mod Merge
pub mod Places
use unifi_containers.Prelude.{
  ℕ, ◌≡◌, ◌≢◌, Bool, true, false, not, ◌&&◌, Option, none, some, List, [], ◌∷◌, ◌++◌, if◌then◌else◌,
}
use unifi_containers.Text.{Text, codes, text_eq}

-- A uid and a gid.
abbrev pub Owner : Type 0
Owner = ℕ × ℕ

abbrev pub root : Owner
root = (0, 0)

mutual
  pub data Node : Type 0 where
    file : Owner → Text → Node
    link : Owner → Text → Node
    directory : Owner → Entries → Node

  pub data Entries : Type 0 where
    nothing : Entries
    entry : Text → Node → Entries → Entries

-- The path below the directory that is copied, the last name first.
abbrev pub FilePath : Type 0
FilePath = List Text

unfoldable pub find : Text → Entries → Option Node
find name nothing = none
find name (entry n x xs) = let rest = find name xs in if text_eq n name then some x else rest

-- `os.chown(…, follow_symlinks=False)`
unfoldable pub own : Owner → Node → Node
own o (file _ c) = file o c
own o (link _ l) = link o l
own o (directory _ xs) = directory o xs

-- `shutil.copytree(…, symlinks=True)`, `shutil.copy2` and `os.symlink`: all of it is root's.
unfoldable mutual
  pub copied : Node → Node
  copied (file _ c) = file root c
  copied (link _ l) = link root l
  copied (directory _ xs) = directory root (copied_entries xs)

  pub copied_entries : Entries → Entries
  copied_entries nothing = nothing
  copied_entries (entry n x xs) = entry n (copied x) (copied_entries xs)

-- The entry of that name, changed; a missing one stays missing.
unfoldable pub at : Text → (Node → Node) → Entries → Entries
at name f nothing = nothing
at name f (entry n x xs) =
    let rest = at name f xs in if text_eq n name then entry n (f x) xs else entry n x rest

-- What `_mirror_ownership` does below a directory, once the directory has its owner.
unfoldable pub below : (Entries → Entries) → Node → Node
below f (file o c) = file o c
below f (link o l) = link o l
below f (directory o xs) = directory o (f xs)

-- `_mirror_ownership`; `may p` tells whether `_chown_like` can give the path `p` its owner.
unfoldable mutual
  unfolding own at below

  pub mirror : (FilePath → Bool) → FilePath → Node → Node → Node
  mirror may p (file o c) t = if may p then own o t else t
  mirror may p (link o l) t = if may p then own o t else t
  mirror may p (directory o xs) t =
      let inside = below (mirror_entries may p xs) (own o t) in if may p then inside else t

  pub mirror_entries : (FilePath → Bool) → FilePath → Entries → Entries → Entries
  mirror_entries may p nothing ts = ts
  mirror_entries may p (entry n x xs) ts = mirror_entries may p xs (at n (mirror may (n ∷ p) x) ts)

-- What the kernel answers: whether a path can be given its owner, the OSError of an entry's copy
-- with what the copy leaves behind, and what `rmtree` leaves of a directory. The calls that may
-- stop the boot go by the path on the volume: whether `os.makedirs` can make it, and whether the
-- parent of the old path can be made, the old path removed, the link made and the mode set.
pub record Kernel : Type 0 where
  pub may : FilePath → Bool
  pub fault : Text → Option (Option Node)
  pub leftover : Node → Option Node
  pub makes : Text → Bool
  pub relinks : Text → Bool

unfoldable pub with_partial : Text → Option Node → Entries → Entries
with_partial name none ts = ts
with_partial name (some x) ts = entry name x ts

-- `_copy_no_clobber`, up to its first OSError.
unfoldable pub copy_no_clobber : Kernel → Entries → Entries → Entries
unfolding find with_partial
copy_no_clobber k nothing ts = ts
copy_no_clobber k (entry n x xs) ts =
    let skipped = copy_no_clobber k xs ts in
    let done = copy_no_clobber k xs (entry n (mirror k.may (n ∷ []) x (copied x)) ts) in
    elim (find n ts) [
      | some _ ↦ skipped
      | none ↦ elim (k.fault n) [ some rest ↦ with_partial n rest ts | none ↦ done ]
    ]

-- The path on the volume: missing, a directory with its mode, or something else.
pub data Target : Type 0 where
  missing other : Target
  volume : ℕ → Owner → Entries → Target

-- A pair of `SYMLINK_MAP` on the disk.
pub record Place : Type 0 where
  pub target_path : Text
  pub original : Option Node
  pub target : Target

-- `os.path.isdir(source) and not os.path.islink(source)`
unfoldable pub is_migrated : Option Node → Bool
is_migrated none = false
is_migrated (some (file o c)) = false
is_migrated (some (link o l)) = false
is_migrated (some (directory o xs)) = true

-- `os.makedirs(plan.target, exist_ok=True)`: its owner and its entries; `none` is the
-- FileExistsError. What the umask leaves of the mode is replaced before the loop goes on.
unfoldable pub made : Target → Option (Owner × Entries)
made missing = some (root, nothing)
made (volume mode o ts) = some (o, ts)
made other = none

unfoldable pub existed : Target → Bool
existed missing = false
existed (volume mode o ts) = true
existed other = false

-- `_chown_like(plan.original, plan.target)`, `_copy_no_clobber` and `shutil.rmtree`, where they
-- are called: what is then on the volume, and what stands at the original path.
unfoldable pub migrated :
    Kernel → Bool → Option Node → Owner × Entries → (Owner × Entries) × Option Node
unfolding copy_no_clobber
migrated k was_there none (o, ts) = ((o, ts), none)
migrated k was_there (some (file fo c)) (o, ts) = ((o, ts), some (file fo c))
migrated k was_there (some (link lo l)) (o, ts) = ((o, ts), some (link lo l))
migrated k was_there (some (directory d xs)) (o, ts) = (
  (if not was_there && k.may [] then d else o, copy_no_clobber k xs ts),
  k.leftover (directory d xs),
)

-- `os.remove(plan.original)` if it is there: false is the IsADirectoryError.
unfoldable pub is_removable : Option Node → Bool
is_removable none = true
is_removable (some (file o c)) = true
is_removable (some (link o l)) = true
is_removable (some (directory o xs)) = false

-- 0o755
abbrev pub open_mode : ℕ
open_mode = 493

-- `os.remove`, `os.symlink` and `os.chmod`, where only a directory at the old path can be in the
-- way.
unfoldable pub with_link : Text → (Owner × Entries) × Option Node → Option Place
unfolding is_removable
with_link path ((o, ts), left) =
    if is_removable left
    then some (record {
      target_path = path;
      original = some (link root path);
      target = volume open_mode o ts;
    })
    else none

-- The end of the loop's body: `os.makedirs` of the old path's parent, `os.remove`, `os.symlink` and
-- `os.chmod`.
unfoldable pub relinked : Kernel → Text → (Owner × Entries) × Option Node → Option Place
unfolding with_link
relinked k path moved = let done = with_link path moved in if k.relinks path then done else none

-- The loop's body, where no OSError but a FileExistsError comes from the first `os.makedirs`.
unfoldable pub apply_made : Kernel → Place → Option Place
unfolding made migrated relinked existed
apply_made k place = elim (made place.target) [
  | none ↦ none
  | some content ↦
      relinked k place.target_path (migrated k (existed place.target) place.original content)
]

-- The loop of `apply_symlinks` for one plan, as `plan_symlinks` makes it; `none` is an OSError.
unfoldable pub apply_plan : Kernel → Place → Option Place
unfolding apply_made
apply_plan k place =
    let done = apply_made k place in if k.makes place.target_path then done else none

-- `apply_symlinks`
unfoldable pub apply_symlinks : Kernel → List Place → Option (List Place)
unfolding apply_plan
apply_symlinks k [] = some []
apply_symlinks k (place ∷ places) =
    let rest = apply_symlinks k places in
    elim (apply_plan k place) [
      | none ↦ none
      | some done ↦ elim rest [ none ↦ none | some others ↦ some (done ∷ others) ]
    ]
