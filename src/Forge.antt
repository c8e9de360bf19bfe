-- ===== src/Forge.antt =====
-- forge.py: the calls of the Forgejo API that the lanes make. pyforgejo is a parameter, the record
-- `Api` over the state of the forge. The texts of errors are left out, and the token and the timeout
-- only go to pyforgejo.
use unifi_containers.Prelude.{
  ℕ, ◌==◌, Bool, true, false, ◌++◌, Option, none, some, List, [], ◌∷◌, if◌then◌else◌,
}
use unifi_containers.Prelude.Results.{Result, ok, err, ◌>>=◌}
use unifi_containers.Text.{Text, codes, text_eq}
use unifi_containers.Clients.Network.{rstrip_slash}

-- `ForgeError`
pub data ForgeError : Type 0 where
  not_set : Text → ForgeError
  bad_repository : Text → ForgeError
  branch_refused : ℕ → ForgeError
  merge_refused : ℕ → ForgeError
  no_pull : ForgeError
  stalled : ForgeError

-- `value` where Python takes it for true.
unfoldable pub filled : Option Text → Option Text
filled none = none
filled (some []) = none
filled (some (c ∷ t)) = some (c ∷ t)

-- `env`
unfoldable pub required : Text → (Text → Option Text) → Result ForgeError Text
required name environ = elim (filled (environ name)) [
  | none ↦ err (not_set name)
  | some value ↦ ok value
]

pub record Forge : Type 0 where
  pub api : Text
  pub repo : Text
  pub owner : Text
  pub name : Text

-- `repo.partition("/")`, without the separator.
unfoldable pub owner_name : Text → Text × Text
owner_name [] = ([], [])
owner_name (c ∷ t) =
    let (owner, name) = owner_name t in if c == b'/' then ([], t) else (c ∷ owner, name)

-- `Forge.__init__`
unfoldable pub new_forge : Text → Text → Result ForgeError Forge
new_forge forge_url repo =
    let (owner, name) = owner_name repo in
    elim owner [
      | [] ↦ err (bad_repository repo)
      | c ∷ cs ↦ elim name [
        | [] ↦ err (bad_repository repo)
        | d ∷ ds ↦ ok (record {
          api = rstrip_slash forge_url ++ codes "/api/v1";
          repo = repo;
          owner = c ∷ cs;
          name = d ∷ ds;
        })
      ]
    ]

unfoldable pub from_env : (Text → Option Text) → Result ForgeError Forge
from_env environ = required (codes "CI_FORGE_URL") environ >>= λ url.
    required (codes "CI_REPO") environ >>= λ repo.
    required (codes "FORGEJO_TOKEN") environ >>= λ token. new_forge url repo

-- A pull request that the forge lists: the branch of its head, if it has one, its number, and when
-- it was opened, in microseconds.
pub record Pull : Type 0 where
  pub head : Option Text
  pub number : Option ℕ
  pub created_at : Option ℕ

-- What the forge answers to each call on a repository, an owner and a name.
pub record Api (W : Type 0) : Type 0 where
  -- `none` for an ApiError, in this and the three that follow.
  pub raw_file_at : Forge → Text → Text → W → Option (List ℕ) × W
  pub delete_call : Forge → Text → W → Option (Unit {0}) × W
  -- The number of the new pull request, where it is an `int`.
  pub create_pull_call : Forge → Text → Text → Text → Text → W → Option (Option ℕ) × W
  pub list_open : Forge → W → Option (List Pull) × W
  -- `none` if the call is taken, or the status of the ApiError, in these two.
  pub create_branch_call : Forge → Text → Text → W → Option ℕ × W
  pub merge_call : Forge → ℕ → Text → W → Option ℕ × W
  -- `blob.decode("utf-8", "replace")`
  pub decode : List ℕ → Text

abbrev pub already_scheduled : ℕ
already_scheduled = 409

-- The first listed pull request from a branch.
unfoldable pub pull_from : Text → List Pull → Option Pull
pull_from head [] = none
pull_from head (p ∷ pulls) =
    let rest = pull_from head pulls in
    elim p.head [ none ↦ rest | some ref ↦ if text_eq ref head then some p else rest ]

module _ {W : Type 0} where
  unfoldable pub number_of : Option Pull × W → Option ℕ × W
  number_of (none, w) = (none, w)
  number_of (some p, w) = (p.number, w)

  unfoldable pub opened_of : Option Pull × W → Option ℕ × W
  opened_of (none, w) = (none, w)
  opened_of (some p, w) = (p.created_at, w)

  unfoldable pub merge_answer : Option ℕ × W → Result ForgeError (Unit {0}) × W
  merge_answer (none, w) = (ok tt, w)
  merge_answer (some status, w) =
      (if status == already_scheduled then ok tt else err (merge_refused status), w)

module _ {W : Type 0} (A : Api W) (f : Forge) where
  unfoldable pub raw_file : Text → Text → W → Option Text × W
  raw_file ref path w =
      let (blob, w') = A.raw_file_at f path ref w in
      (elim blob [ none ↦ none | some bytes ↦ some (A.decode bytes) ], w')

  unfoldable pub delete_branch : Text → W → Bool × W
  delete_branch name w =
      let (done, w') = A.delete_call f name w in (elim done [ none ↦ false | some u ↦ true ], w')

  unfoldable pub create_branch : Text → Text → W → Result ForgeError (Unit {0}) × W
  create_branch name from_ref w =
      let (refused, w') = A.create_branch_call f name from_ref w in
      (elim refused [ none ↦ ok tt | some status ↦ err (branch_refused status) ], w')

  unfoldable pub create_pull : Text → Text → Text → Text → W → Option ℕ × W
  create_pull base head title body w =
      let (pull, w') = A.create_pull_call f base head title body w in
      (elim pull [ none ↦ none | some number ↦ number ], w')

  unfoldable pub open_pull_from : Text → W → Option Pull × W
  open_pull_from head w =
      let (listed, w') = A.list_open f w in
      (elim listed [ none ↦ none | some pulls ↦ pull_from head pulls ], w')

  unfoldable pub find_pull : Text → W → Option ℕ × W
  find_pull head w = number_of (open_pull_from head w)

  unfoldable pub pull_opened_at : Text → W → Option ℕ × W
  pull_opened_at head w = opened_of (open_pull_from head w)

  unfoldable pub merge_when_green : ℕ → Text → W → Result ForgeError (Unit {0}) × W
  merge_when_green number method w = merge_answer (A.merge_call f number method w)
