-- ===== src/Cut.antt =====
-- cut_release.py: the next release tag of each product. Versions come from the pins, build numbers
-- from the tags. Lines for a reader are left out, and a reason is a value in place of a text.
pub mod Settled
pub mod Fresh
pub mod Published
pub mod Tests
use unifi_containers.Prelude.{
  Bool, true, false, Option, none, some, List, [], ◌∷◌, ◌++◌, if◌then◌else◌, not,
}
use unifi_containers.Prelude.Results.{Result, ok, err, after, ◌>>=◌}
use unifi_containers.Prelude.Loops.{for_each}
use unifi_containers.Packaging.{Versions}
use unifi_containers.Failure.{Failure}
use unifi_containers.Text.{Text, text_eq}
use unifi_containers.Release.{Release, builds_of, next_release, max_release, git_tag}
use unifi_containers.Pins.{truthy, pin_file, pinned_version, read_text}
use unifi_containers.Plan.{raised}
use unifi_containers.Gitops
use unifi_containers.Gitops.{Git, tags_prefix}

pub data Reason : Type 0 where
  no_pin : Reason
  pins_changed : Text → Reason
  already_released : Text → Reason
  first_release : Reason
  never_released : Reason
  rebuilding : Reason

abbrev pub Decision : Type 0
Decision = Result Failure (Option Release × Reason)

-- What is due when `top` is the highest build there is.
unfoldable pub after_top :
    Text → Text → List Text → Option (Text → Bool) → Release → Option Release × Reason
after_top product pinned tags none top = (none, already_released (git_tag top))
after_top product pinned tags (some changed) top =
    if changed (git_tag top)
    then (some (next_release tags product pinned), pins_changed (git_tag top))
    else (none, already_released (git_tag top))

module _ (V : Versions) where
  unfoldable pub decide_pinned : Text → Text → List Text → Option (Text → Bool) → Decision
  unfolding after_top raised
  decide_pinned product pinned tags changed = do
    top ← raised (max_release V (builds_of tags product pinned))
    ok (elim top [
      | none ↦ (some (next_release tags product pinned), first_release)
      | some r ↦ after_top product pinned tags changed r
    ])

  unfoldable pub decide : Text → Option Text → List Text → Option (Text → Bool) → Decision
  unfolding decide_pinned
  decide product pinned tags changed = elim (truthy pinned) [
    | none ↦ ok (none, no_pin)
    | some version ↦ decide_pinned product version tags changed
  ]

unfoldable pub decide_rebuild : Text → Option Text → List Text → Option Release × Reason
decide_rebuild product pinned tags = elim (truthy pinned) [
  | none ↦ (none, no_pin)
  | some version ↦ elim (builds_of tags product version) [
    | [] ↦ (none, never_released)
    | r ∷ rs ↦ (some (next_release tags product version), rebuilding)
  ]
]

-- `gitops.file_at(repo, ref, f) != Path(f).read_text()`
unfoldable pub differs : Option Text → Text → Bool
differs none text = true
differs (some old) text = not (text_eq old text)

module _ (V : Versions) (G : Git) (dotenv : Text → Text → Option Text)
    (files : Text → Option Text) where
  -- One round of the loop over the products.
  unfoldable pub choose : Bool → List Text → G.W → Text → Decision
  unfolding differs
  choose rebuild tags w product = do
    pins ← (if rebuild then ok none else pin_file product)
    pinned ← pinned_version dotenv files product
    elim pins [
      | none ↦
          if rebuild
          then ok (decide_rebuild product pinned tags)
          else decide V product pinned tags none
      | some f ↦ (do
        text ← read_text files f
        decide V product pinned tags (some (λ tag. differs (G.blob w (tags_prefix ++ tag) f) text)))
    ]

  -- The loop: the releases that are due, in the order of the products.
  unfoldable pub choose_all : Bool → List Text → G.W → List Text → Result Failure (List Release)
  choose_all rebuild tags w [] = ok []
  choose_all rebuild tags w (product ∷ products) =
      let rest = choose_all rebuild tags w products in
      elim (choose rebuild tags w product) [
        | err e ↦ err e
        | ok (due, reason) ↦ elim due [
          | none ↦ rest
          | some r ↦ elim rest [ err e ↦ err e | ok rs ↦ ok (r ∷ rs) ]
        ]
      ]

module _ (G : Git) where
  -- One round of the last loop: tag, then push the tag.
  unfoldable pub publish_one : Text → Release → G.W → Result Failure (Unit {0}) × G.W
  publish_one url r w =
      after (Gitops.create_tag G (git_tag r) w)
        (λ _ w1. Gitops.push G url (tags_prefix ++ git_tag r) false w1)

  unfoldable pub publish : Text → List Release → G.W → Result Failure (Unit {0}) × G.W
  unfolding publish_one for_each
  publish url = for_each (publish_one url)

  -- The steps of `cut` behind the decisions.
  unfoldable pub finish :
      Text → Bool → Result Failure (List Release) → G.W → Result Failure (List Release) × G.W
  unfolding publish
  finish url push (err e) w = (err e, w)
  finish url push (ok []) w = (ok [], w)
  finish url false (ok (r ∷ rs)) w = (ok (r ∷ rs), w)
  finish url true (ok (r ∷ rs)) w = after (publish url (r ∷ rs) w) (λ _ w'. (ok (r ∷ rs), w'))

module _ (V : Versions) (G : Git) (dotenv : Text → Text → Option Text)
    (files : Text → Option Text) where
  unfoldable pub cut : Text → List Text → Bool → Bool → G.W → Result Failure (List Release) × G.W
  unfolding finish choose_all
  cut url products push rebuild w = after (Gitops.fetch_tags G url w) (λ _ w1.
      finish G url push (choose_all V G dotenv files rebuild (Gitops.tags G w1) w1 products) w1)
