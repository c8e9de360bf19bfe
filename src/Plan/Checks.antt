-- ===== src/Plan/Checks.antt =====
-- When `plan` gives a plan, and what its flags say.
use unifi_containers.Prelude.{
  ◌≡◌, refl, ◌↔◌, ap, subst, true, Option, none, some, List, arith, Bool-cases, inl, inr,
  Option-cases,
}
use unifi_containers.Prelude.Results.{Result, ok, err, >>=-eq-ok, ok-injective}
use unifi_containers.Packaging.{Versions}
use unifi_containers.Failure.{Failure}
use unifi_containers.Text.{Text, text_eq_iff, text_eq_refl}
use unifi_containers.Release.{Release, InvalidVersion, parse, is_highest_build, is_highest_stable}
use unifi_containers.Release.RoundTrip.{Spells, parse_sound, parse_complete}
use unifi_containers.Plan.{Plan, is_pinned, raised, agreed, plan_release, plan}

module _ (V : Versions) (pinned_lookup : Text → Result Failure (Option Text)) where
  -- The tag spells the release of the plan, the product pins its version, and the flags are those
  -- of the tags.
  pub record Agrees (tag : Text) (tags : List Text) (p : Plan) : Type 0 where
    pub spelled : Spells tag p.release
    pub looked_up : pinned_lookup p.release.product ≡ ok p.pinned
    pub is_upstream : p.pinned ≡ some p.release.upstream
    pub newest : p.newest_build ≡ is_highest_build tags p.release
    pub tops : is_highest_stable V tags p.release ≡ ok p.top

  is_pinned_sound : (o : Option Text) (u : Text) → is_pinned o u ≡ true → o ≡ some u
  unfolding is_pinned
  is_pinned_sound none u h = cc
  is_pinned_sound (some t) u h = ap some ((text_eq_iff t u).0 h)

  raised_sound {ℓ} : {A : Type ℓ} (m : Result InvalidVersion A) (a : A) → raised m ≡ ok a → m ≡ ok a
  unfolding raised
  raised_sound (ok b) a h = ground arith
  raised_sound (err e) a h = cc

  agreed_sound :
      (tag : Text) (tags : List Text) (r : Release) (pinned : Option Text) (p : Plan)
      → parse tag ≡ some r
      → pinned_lookup r.product ≡ ok pinned
      → is_pinned pinned r.upstream ≡ true
      → agreed V pinned_lookup tags r pinned ≡ ok p
      → Agrees tag tags p
  unfolding agreed
  agreed_sound tag tags r pinned p parsed found same h =
      let (top, tops, made) = >>=-eq-ok (raised (is_highest_stable V tags r)) _ h in
      subst (Agrees tag tags) (ok-injective made) (record {
        spelled = parse_sound tag r parsed;
        looked_up = found;
        is_upstream = is_pinned_sound pinned r.upstream same;
        newest = refl;
        tops = raised_sound (is_highest_stable V tags r) top tops;
      })

  plan_release_sound :
      (tag : Text) (tags : List Text) (r : Release) (p : Plan)
      → parse tag ≡ some r
      → plan_release V pinned_lookup tag tags r ≡ ok p
      → Agrees tag tags p
  unfolding plan_release
  plan_release_sound tag tags r p parsed h =
      let (pinned, found, rest) = >>=-eq-ok (pinned_lookup r.product) _ h in
      elim (Bool-cases (is_pinned pinned r.upstream)) [
        | inl same ↦ agreed_sound tag tags r pinned p parsed found same (rw same at rest)
        | inr other ↦ cc (rw other at rest)
      ]

  plan_complete :
      (tag : Text) (tags : List Text) (p : Plan)
      → Agrees tag tags p
      → plan V pinned_lookup tag tags ≡ ok p
  unfolding plan
  plan_complete tag tags p a =
      rw
        (
          parse_complete tag p.release a.spelled,
          plan,
          a.looked_up,
          a.is_upstream,
          text_eq_refl,
          a.tops,
        )
        (ground (arith, a.newest, a.is_upstream))

  -- A plan is given exactly for a tag that spells a release whose version the product pins, and
  -- its flags are those of the tags.
  pub plan_iff :
      (tag : Text) (tags : List Text) (p : Plan)
      → (plan V pinned_lookup tag tags ≡ ok p) ↔ Agrees tag tags p
  unfolding plan
  plan_iff tag tags p = (
    λ h. elim (Option-cases (parse tag)) [
      | inl e ↦ cc (rw (e, plan) at h)
      | inr (r, e) ↦ plan_release_sound tag tags r p e (rw (e, plan) at h)
    ],
    plan_complete tag tags p,
  )
