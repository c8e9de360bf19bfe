-- ===== src/Cut/Fresh.antt =====
-- The releases that `decide` and `decide_rebuild` name can be tagged.
use unifi_containers.Prelude.{
  ◌≡◌, ap, subst, ◌∙◌, sym, inl, inr, Bool, Option, none, some, List, [], ◌∷◌, arith, Has,
  Bool-cases, Option-cases,
}
use unifi_containers.Prelude.Results.{ok, >>=-eq-ok, ok-injective}
use unifi_containers.Packaging.{Versions}
use unifi_containers.Text.{Text}
use unifi_containers.Text.Scan.{IsVersion}
use unifi_containers.Release.{Release, git_tag, builds_of, next_release, max_release}
use unifi_containers.Release.RoundTrip.{IsProduct}
use unifi_containers.Release.Builds.{next_release_fresh}
use unifi_containers.Pins.{truthy}
use unifi_containers.Plan.{raised}
use unifi_containers.Cut.{
  Reason, first_release, never_released, rebuilding, after_top, decide_pinned, decide,
  decide_rebuild,
}

truthy_sound : (o : Option Text) (u : Text) → truthy o ≡ some u → o ≡ some u
unfolding truthy
truthy_sound none u h = cc
truthy_sound (some []) u h = cc
truthy_sound (some (c ∷ s)) u h = h

after_top_next :
    (p u : Text) (tags : List Text) (changed : Option (Text → Bool)) (top r : Release)
    (why : Reason)
    → after_top p u tags changed top ≡ (some r, why)
    → r ≡ next_release tags p u
unfolding after_top
after_top_next p u tags none top r why h = cc
after_top_next p u tags (some f) top r why h = elim (Bool-cases (f (git_tag top))) [
  | inl e ↦ let h' = rw e at h in ground arith
  | inr e ↦ let h' = rw e at h in cc
]

module _ (V : Versions) (tags : List Text) (p : Text) where
  decide_pinned_next :
      (u : Text) (changed : Option (Text → Bool)) (r : Release) (why : Reason)
      → decide_pinned V p u tags changed ≡ ok (some r, why)
      → r ≡ next_release tags p u
  unfolding decide_pinned
  decide_pinned_next u changed r why h =
      let (top, run, made) = >>=-eq-ok (raised (max_release V (builds_of tags p u))) _ h in
      from top (ok-injective made)
    where
      from :
          (top : Option Release)
          → ◌≡◌ {A = Option Release × Reason}
              (elim top [
                | none ↦ (some (next_release tags p u), first_release)
                | some s ↦ after_top p u tags changed s
              ])
              (some r, why)
          → r ≡ next_release tags p u
      from none e = ground arith
      from (some s) e = after_top_next p u tags changed s r why e

  decide_next :
      (pinned : Option Text) (changed : Option (Text → Bool)) (r : Release) (why : Reason)
      → decide V p pinned tags changed ≡ ok (some r, why)
      → (u : Text) × (pinned ≡ some u) × (r ≡ next_release tags p u)
  unfolding decide
  decide_next pinned changed r why h = elim (Option-cases (truthy pinned)) [
    | inl e ↦ cc (rw (e, decide) at h)
    | inr (u, e) ↦
        (u, truthy_sound pinned u e, decide_pinned_next u changed r why (rw (e, decide) at h))
  ]

  decide_rebuild_next :
      (pinned : Option Text) (r : Release) (why : Reason)
      → decide_rebuild p pinned tags ≡ (some r, why)
      → (u : Text) × (pinned ≡ some u) × (r ≡ next_release tags p u)
  unfolding decide_rebuild
  decide_rebuild_next pinned r why h = elim (Option-cases (truthy pinned)) [
    | inl e ↦ cc (rw (e, decide_rebuild) at h)
    | inr (u, e) ↦
        (u, truthy_sound pinned u e, from u (builds_of tags p u) (rw (e, decide_rebuild) at h))
  ]
    where
      from :
          (u : Text) (rs : List Release)
          → ◌≡◌ {A = Option Release × Reason}
              (elim rs [
                | [] ↦ (none, never_released)
                | s ∷ more ↦ (some (next_release tags p u), rebuilding)
              ])
              (some r, why)
          → r ≡ next_release tags p u
      from u [] e = cc
      from u (s ∷ more) e = ground arith

  -- Whatever release `decide` cuts for a known product that pins a dotted version, it is one of that
  -- product and version, and no tag has its name yet.
  decide_fresh :
      (pinned : Option Text) (changed : Option (Text → Bool)) (r : Release) (why : Reason)
      → IsProduct p
      → ((u : Text) → pinned ≡ some u → IsVersion u)
      → decide V p pinned tags changed ≡ ok (some r, why)
      → (pinned ≡ some r.upstream) × (r.product ≡ p) × ¬ Has (git_tag r) tags
  unfolding next_release
  decide_fresh pinned changed r why hp hu h =
      let (u, pu, e) = decide_next pinned changed r why h in
      (
        pu ∙ ap (λ x. some (Release.upstream x)) (sym e),
        ap Release.product e,
        subst (λ x. ¬ Has (git_tag x) tags) (sym e) (next_release_fresh tags p u hp (hu u pu)),
      )

  -- No tag has the name of the release that an explicit rebuild cuts for a known product that pins a
  -- dotted version.
  pub decide_rebuild_fresh :
      (pinned : Option Text) (r : Release) (why : Reason)
      → IsProduct p
      → ((u : Text) → pinned ≡ some u → IsVersion u)
      → decide_rebuild p pinned tags ≡ (some r, why)
      → ¬ Has (git_tag r) tags
  decide_rebuild_fresh pinned r why hp hu h =
      let (u, pu, e) = decide_rebuild_next pinned r why h in
      subst (λ x. ¬ Has (git_tag x) tags) (sym e) (next_release_fresh tags p u hp (hu u pu))
