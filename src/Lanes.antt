-- ===== src/Lanes.antt =====
-- update.py: one updater lane, from the reset of the worktree to the auto-merging pull request, with
-- the calls of gitops.py and forge.py that it makes. The updaters are parameters, and libgit2 and the
-- forge's API those of Gitops and Forge, over one state. Lines for a reader are left out.
pub mod Landing
pub mod Tests
use unifi_containers.Prelude.{
  ℕ, Bool, true, false, ◌==◌, ltb, ◌-◌, Option, none, some, List, [], ◌∷◌, ◌++◌, if◌then◌else◌,
}
use unifi_containers.Prelude.Results.{Result, ok, err, after}
use unifi_containers.Failure.{Failure}
use unifi_containers.Text.{Text, codes, text_eq}
use unifi_containers.Gitops
use unifi_containers.Gitops.{Git}
use unifi_containers.Gitops.Worktree.{
  GitError, PushTarget, Work, push_target, repository, reset_to_remote_branch, checkout_new_branch,
  commit,
}
use unifi_containers.Forge.{
  ForgeError, no_pull, stalled, Forge, from_env, Api, create_pull, find_pull, pull_opened_at,
  merge_when_green,
}

pub data LaneError : Type 0 where
  -- KeyError and ValueError for a lane that there is not.
  unknown_lane : Text → LaneError
  updater_failed : LaneError
  git_failed : GitError → LaneError
  push_failed : Failure → LaneError
  forge_failed : ForgeError → LaneError

pub record Lane : Type 0 where
  pub prefix : Text
  pub files : List Text
  pub base : Text

-- `LANES`
unfoldable pub lane_of : Text → Option Lane
lane_of name =
    if text_eq name (codes "stable")
    then some (record {
      prefix = codes "network";
      files = codes "network/Dockerfile" ∷ codes "README.md" ∷ [];
      base = codes "main";
    })
    else if text_eq name (codes "uos")
    then some (record {
      prefix = codes "unifi-os";
      files = codes "unifi-os/pins.env" ∷ codes "README.md" ∷ [];
      base = codes "main";
    })
    else none

pub record Bump : Type 0 where
  pub lane : Text
  pub version : Text
  pub prefix : Text
  pub files : List Text
  pub base : Text
  pub branch : Text

unfoldable pub plan_bump : Text → Option Text → Result LaneError (Option Bump)
plan_bump name version = elim (lane_of name) [
  | none ↦ err (unknown_lane name)
  | some lane ↦ elim version [
    | none ↦ ok none
    | some v ↦ ok (
        some (record {
          lane = name;
          version = v;
          prefix = lane.prefix;
          files = lane.files;
          base = lane.base;
          branch = codes "bump/" ++ (lane.prefix ++ (b'-' ∷ v));
        }))
  ]
]

-- What a lane calls, over the state of `G`.
pub record Calls (G : Git) : Type 0 where
  pub work : Work G.W
  pub api : Api G.W
  -- The updater: the new version, if there is one, or `none` for an exception.
  pub updater : Text → G.W → Option (Option Text) × G.W
  -- The clock when the lane ends, in microseconds.
  pub now : ℕ
  pub env : Text → Option Text

-- `STALE_AFTER_HOURS`, in microseconds.
abbrev pub stale_after : ℕ
stale_after = 86400000000

-- `hours_open`, in microseconds. A pull request from the future counts as new.
unfoldable pub time_open : Option ℕ → ℕ → Option ℕ
time_open none now = none
time_open (some opened_at) now = some (now - opened_at)

module _ {W : Type 0} where
  -- The exceptions of the parts, as the lane's.
  unfoldable pub git_call : {A : Type 0} → Result GitError A × W → Result LaneError A × W
  git_call (ok a, w) = (ok a, w)
  git_call (err e, w) = (err (git_failed e), w)

  unfoldable pub push_call : Result Failure (Unit {0}) × W → Result LaneError (Unit {0}) × W
  push_call (ok u, w) = (ok u, w)
  push_call (err e, w) = (err (push_failed e), w)

  unfoldable pub forge_call : {A : Type 0} → Result ForgeError A × W → Result LaneError A × W
  forge_call (ok a, w) = (ok a, w)
  forge_call (err e, w) = (err (forge_failed e), w)

  unfoldable pub found_pull : Option ℕ × W → Result ForgeError ℕ × W
  found_pull (some n, w) = (ok n, w)
  found_pull (none, w) = (err no_pull, w)

  unfoldable pub stall_answer : ℕ → Option ℕ × W → Result ForgeError (Unit {0}) × W
  stall_answer now (opened_at, w) = elim (time_open opened_at now) [
    | none ↦ (ok tt, w)
    | some age ↦ (if ltb age stale_after then ok tt else err stalled, w)
  ]

  unfoldable pub updated : Option (Option Text) × W → Result LaneError (Option Text) × W
  updated (none, w) = (err updater_failed, w)
  updated (some version, w) = (ok version, w)

module _ (G : Git) (C : Calls G) where
  -- The title is also the message of the bump's commit.
  unfoldable pub title : Bump → Text
  title b = b.prefix ++ (codes ": bump to " ++ b.version)

  module _ (client : Forge) where
    unfoldable pub open_created : Bump → Option ℕ × G.W → Result ForgeError ℕ × G.W
    unfolding found_pull
    open_created b (some n, w) = (ok n, w)
    open_created b (none, w) = found_pull (find_pull C.api client b.branch w)

    unfoldable pub open_pull : Bump → G.W → Result ForgeError ℕ × G.W
    unfolding open_created
    open_pull b w = open_created b (
        create_pull C.api client b.base b.branch (title b)
          (codes "Automated update (" ++ (b.lane ++ codes " lane).")) w)

    unfoldable pub check_not_stalled : Bump → G.W → Result ForgeError (Unit {0}) × G.W
    check_not_stalled b w = stall_answer C.now (pull_opened_at C.api client b.branch w)

    -- `run_lane` from the pull request on.
    unfoldable pub land : Bump → G.W → Result ForgeError (Unit {0}) × G.W
    land b w = after (open_pull b w) (λ n w1.
        after (merge_when_green C.api client n (codes "rebase") w1)
          (λ _ w2. check_not_stalled b w2))

  -- `run_lane` for a bump that is due, with the forge's client.
  unfoldable pub publish_bump : Text → Bump → Forge → G.W → Result LaneError (Unit {0}) × G.W
  unfolding land
  publish_bump url b client w =
      let ref = codes "refs/heads/" ++ b.branch in
      after (git_call (checkout_new_branch C.work b.branch w)) (λ _ w1.
        after (git_call (commit C.work b.files (title b) w1)) (λ id w2.
          after (push_call (Gitops.push G url (ref ++ (b':' ∷ ref)) true w2))
            (λ _ w3. forge_call (land client b w3))))

  unfoldable pub run_planned :
      Text → Result LaneError (Option Bump) → G.W → Result LaneError (Unit {0}) × G.W
  unfolding publish_bump
  run_planned url (err e) w = (err e, w)
  run_planned url (ok none) w = (ok tt, w)
  run_planned url (ok (some b)) w =
      after (forge_call (from_env C.env, w)) (λ client w1. publish_bump url b client w1)

  -- `run_lane` in the repository of the working directory.
  unfoldable pub run_lane : Text → G.W → Result LaneError (Unit {0}) × G.W
  unfolding run_planned
  run_lane name w =
      let target = push_target C.env in
      after (git_call (repository C.work (b'.' ∷ []) w)) (λ _ w0. elim (lane_of name) [
        | none ↦ (err (unknown_lane name), w0)
        | some lane ↦
            after (git_call (reset_to_remote_branch C.work target.url lane.base w0)) (λ id w1.
              after (updated (C.updater name w1))
                (λ version w2. run_planned target.url (plan_bump name version) w2))
      ])
