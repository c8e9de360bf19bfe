-- ===== src/Gitops/Worktree.antt =====
-- gitops.py: where to push, the checkout of a branch, a commit, and the reset to a remote's branch.
-- libgit2 is a parameter, the record `Work` over the state of the repository; a Boolean tells whether
-- one of its calls ended without an exception. Credentials and identities are left out.
use unifi_containers.Prelude.{Bool, true, false, Option, none, some, List, [], ◌∷◌, ◌++◌}
use unifi_containers.Prelude.Results.{Result, ok, err, after}
use unifi_containers.Text.{Text, codes}
use unifi_containers.Forge.{filled}

pub data GitError : Type 0 where
  -- `GitError` of the file.
  no_repository : Text → GitError
  no_reset : Text → GitError
  -- An exception of libgit2 that the file lets pass.
  libgit : GitError

pub record PushTarget : Type 0 where
  pub url : Text
  pub token : Option Text

unfoldable pub get_or : Text → Option Text → Text
get_or default none = default
get_or default (some value) = value

unfoldable pub push_target : (Text → Option Text) → PushTarget
push_target env =
    let fallback : PushTarget = record {
      url = get_or (codes "origin") (env (codes "GIT_REMOTE"));
      token = none;
    } in
    elim (filled (env (codes "FORGEJO_TOKEN"))) [
      | none ↦ fallback
      | some token ↦ elim (filled (env (codes "CI_REPO_CLONE_URL"))) [
        | none ↦ fallback
        | some clone_url ↦ record { url = clone_url; token = some token }
      ]
    ]

pub record Work (W : Type 0) : Type 0 where
  -- `discover_repository`
  pub discover : Text → W → Option Text
  -- `repo.remotes[name].url`, `none` for a KeyError or a ValueError.
  pub remote_url : Text → W → Option Text
  -- `remote.fetch` of a refspec from a URL.
  pub fetch_branch : Text → Text → W → Bool × W
  -- `repo.revparse_single(name).id`
  pub revparse : Text → W → Option Text
  pub reset_hard : Text → W → Bool × W
  pub set_head : Text → W → Bool × W
  -- `repo.branches.local.create` at HEAD, with force, and `repo.checkout`.
  pub create_local : Text → W → Bool × W
  pub switch : Text → W → Bool × W
  pub index_add : Text → W → Bool × W
  pub index_write : W → Bool × W
  -- `repo.create_commit` of the index's tree, on HEAD: the commit's id.
  pub create_commit : Text → W → Option Text × W

module _ {W : Type 0} where
  -- A call whose exception is answered by another, or let pass.
  unfoldable pub done_or : GitError → Bool × W → Result GitError (Unit {0}) × W
  done_or e (true, w) = (ok tt, w)
  done_or e (false, w) = (err e, w)

  unfoldable pub got_or : {A : Type 0} → GitError → Option A × W → Result GitError A × W
  got_or e (some a, w) = (ok a, w)
  got_or e (none, w) = (err e, w)

module _ {W : Type 0} (K : Work W) where
  unfoldable pub repository : Text → W → Result GitError Text × W
  repository path w = got_or (no_repository path) (K.discover path w, w)

  -- `_anonymous_remote`, by the URL it has.
  unfoldable pub anonymous_remote : Text → W → Text
  anonymous_remote url w = get_or url (K.remote_url url w)

  unfoldable pub checkout_new_branch : Text → W → Result GitError (Unit {0}) × W
  checkout_new_branch name w =
      after (done_or libgit (K.create_local name w)) (λ _ w1. done_or libgit (K.switch name w1))

  unfoldable pub stage_all : List Text → W → Result GitError (Unit {0}) × W
  stage_all [] w = (ok tt, w)
  stage_all (path ∷ paths) w =
      after (done_or libgit (K.index_add path w)) (λ _ w1. stage_all paths w1)

  unfoldable pub commit : List Text → Text → W → Result GitError Text × W
  commit paths message w = after (stage_all paths w) (λ _ w1.
      after (done_or libgit (K.index_write w1))
        (λ _ w2. got_or libgit (K.create_commit message w2)))

  unfoldable pub reset_to_remote_branch : Text → Text → W → Result GitError Text × W
  reset_to_remote_branch url branch w =
      let remote = anonymous_remote url w in
      let lane = codes "refs/remotes/lane/" ++ branch in
      let refspec = codes "+refs/heads/" ++ (branch ++ (b':' ∷ lane)) in
      after (done_or (no_reset branch) (K.fetch_branch remote refspec w)) (λ _ w1.
        after (got_or (no_reset branch) (K.revparse lane w1, w1)) (λ id w2.
          after (done_or (no_reset branch) (K.reset_hard id w2))
            (λ _ w3. after (done_or (no_reset branch) (K.set_head id w3)) (λ _ w4. (ok id, w4)))))
