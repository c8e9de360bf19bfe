-- ===== src/Lanes/Tests.antt =====
-- A forge with one pull request, and the theorems on lanes at it.
use unifi_containers.Prelude.{ℕ, ◌≡◌, refl, true, none, some, [], ◌∷◌}
use unifi_containers.Prelude.Results.{ok, err}
use unifi_containers.Text.{codes, text_eq}
use unifi_containers.Gitops.{Git}
use unifi_containers.Gitops.Worktree.{Work, get_or, push_target}
use unifi_containers.Forge.{
  Forge, Api, filled, bad_repository, new_forge, owner_name, stalled, create_pull, find_pull,
  open_pull_from, pull_from, number_of, opened_of, pull_opened_at, merge_answer, merge_when_green,
}
use unifi_containers.Clients.Network.{rstrip_slash}
use unifi_containers.Lanes.{
  Bump, Calls, found_pull, stall_answer, time_open, open_created, open_pull, check_not_stalled,
  land,
}
use unifi_containers.Lanes.Landing.{Stalled, land_stalled}

abbrev client : Forge
client = record {
  api = codes "https://git.example/api/v1";
  repo = codes "acme/unifi-containers";
  owner = codes "acme";
  name = codes "unifi-containers";
}

new_forge_run : new_forge (codes "https://git.example/") (codes "acme/unifi-containers") ≡ ok client
unfolding new_forge owner_name rstrip_slash
new_forge_run = refl

new_forge_bad :
    new_forge (codes "https://git.example") (codes "acme") ≡ err (bad_repository (codes "acme"))
unfolding new_forge owner_name
new_forge_bad = refl

push_target_run : push_target (λ name. none) ≡ record { url = codes "origin"; token = none }
unfolding push_target filled get_or
push_target_run = refl

-- The state is the number of merge requests.
abbrev repository : Git
repository = record {
  W = ℕ;
  references = λ w. [];
  create_ref = λ name w. w;
  fetch = λ url w. (true, w);
  push_refspec = λ url refspec w. (some ((refspec, none) ∷ []), w);
  blob = λ w tag path. none;
}

abbrev worktree : Work ℕ
worktree = record {
  discover = λ path w. some (codes "/work/.git");
  remote_url = λ name w. none;
  fetch_branch = λ url refspec w. (true, w);
  revparse = λ name w. some (codes "c0ffee");
  reset_hard = λ id w. (true, w);
  set_head = λ id w. (true, w);
  create_local = λ name w. (true, w);
  switch = λ name w. (true, w);
  index_add = λ path w. (true, w);
  index_write = λ w. (true, w);
  create_commit = λ message w. (some (codes "c0ffee"), w);
}

-- The pull request is there already, scheduled to merge, and open for two days.
abbrev forge : Api ℕ
forge = record {
  raw_file_at = λ f path ref w. (none, w);
  delete_call = λ f name w. (none, w);
  create_pull_call = λ f base head title body w. (none, w);
  list_open = λ f w. (
    some (
        record { head = none; number = some 6; created_at = none }
        ∷ record {
          head = some (codes "bump/network-10.4.57");
          number = some 7;
          created_at = some 0;
        }
        ∷ []),
    w,
  );
  create_branch_call = λ f name from_ref w. (none, w);
  merge_call = λ f n method w. (some 409, 1);
  decode = λ bytes. bytes;
}

abbrev waiting : Calls repository
waiting = record {
  work = worktree;
  api = forge;
  updater = λ name w. (some (some (codes "10.4.57")), w);
  now = 172800000000;
  env = λ name. none;
}

abbrev bump : Bump
bump = record {
  lane = codes "stable";
  version = codes "10.4.57";
  prefix = codes "network";
  files = codes "network/Dockerfile" ∷ [];
  base = codes "main";
  branch = codes "bump/network-10.4.57";
}

land_run : land repository waiting client bump 0 ≡ (err stalled, 1)
unfolding land open_pull open_created found_pull merge_when_green merge_answer check_not_stalled
    stall_answer time_open create_pull find_pull open_pull_from pull_from number_of opened_of
    pull_opened_at text_eq
land_run = refl

land_stalled_example : Stalled repository waiting client bump 0 1
land_stalled_example = land_stalled repository waiting client bump 0 1 land_run
