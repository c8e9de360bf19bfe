-- ===== src/Gitops.antt =====
-- gitops.py: tags and pushes. libgit2 is a parameter: a repository state `W` and its operations.
-- Credentials, identities, messages and the texts of errors are left out.

pub mod Worktree
use unifi_containers.Prelude.{Bool, Option, none, some, List, [], ◌∷◌, ◌++◌, ◌≡◌, if◌then◌else◌}
use unifi_containers.Prelude.Results.{Result, ok, err}
use unifi_containers.Failure.{Failure, git_error}
use unifi_containers.Text.{Text, codes, strip, is_in}

-- What the remote says of one ref: `none` that it took the update, or a reason why not.
abbrev pub Report : Type 0
Report = Text × Option Text

pub record Git : Type 1 where
  pub W : Type 0
  -- `repo.references`
  pub references : W → List Text
  -- `repo.create_tag`: the new reference.
  pub create_ref : Text → W → W
  -- `remote.fetch` of `refs/tags/*`; the Boolean tells whether it ended without a GitError.
  pub fetch : Text → W → Bool × W
  -- `remote.push` of a refspec: the calls of `push_update_reference`, or `none` for a GitError.
  pub push_refspec : Text → Text → W → Option (List Report) × W
  -- The text of a path at a revision; `none` covers each exception that `file_at` catches.
  pub blob : W → Text → Text → Option Text

abbrev pub tags_prefix : Text
tags_prefix = codes "refs/tags/"

unfoldable pub tag_names : List Text → List Text
tag_names [] = []
tag_names (r ∷ refs) =
    let rest = tag_names refs in elim (strip tags_prefix r) [ none ↦ rest | some t ↦ t ∷ rest ]

-- `_PushReport`: the refs accepted and the refs rejected, in the order of the calls.
unfoldable pub accepted : List Report → List Text
accepted [] = []
accepted ((r, none) ∷ reports) = r ∷ accepted reports
accepted ((r, some m) ∷ reports) = accepted reports

unfoldable pub rejected : List Report → List Text
rejected [] = []
rejected ((r, none) ∷ reports) = rejected reports
rejected ((r, some m) ∷ reports) = (r ++ (codes ": " ++ m)) ∷ rejected reports

-- The tests of `push` on what the remote reported.
unfoldable pub verdict : Option (List Report) → Result Failure (Unit {0})
verdict none = err git_error
verdict (some reports) = elim (rejected reports) [
  | r ∷ rs ↦ err git_error
  | [] ↦ elim (accepted reports) [ a ∷ more ↦ ok tt | [] ↦ err git_error ]
]

module _ (G : Git) where
  unfoldable pub tags : G.W → List Text
  tags w = tag_names (G.references w)

  unfoldable pub create_tag : Text → G.W → Result Failure (Unit {0}) × G.W
  create_tag name w =
      if is_in (tags_prefix ++ name) (G.references w)
      then (err git_error, w)
      else (ok tt, G.create_ref (tags_prefix ++ name) w)

  unfoldable pub fetch_tags : Text → G.W → Result Failure (Unit {0}) × G.W
  fetch_tags url w = let (done, w') = G.fetch url w in (if done then ok tt else err git_error, w')

  unfoldable pub push : Text → Text → Bool → G.W → Result Failure (Unit {0}) × G.W
  push url refspec force w =
      let (reports, w') = G.push_refspec url (if force then b'+' ∷ refspec else refspec) w in
      (verdict reports, w')

-- What libgit2 documents of references and the program relies on.
pub record IsGit (G : Git) : Type 0 where
  pub references-create_ref :
      (name : Text) (w : G.W) → ◌≡◌ (G.references (G.create_ref name w)) (name ∷ G.references w)
