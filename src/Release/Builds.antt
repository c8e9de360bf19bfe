-- ===== src/Release/Builds.antt =====
-- The builds of one version among the tags, and the number that comes next.
use unifi_containers.Prelude.{
  ℕ, ◌≤◌, ◌≡◌, refl, ◌↔◌, ◌⊎◌, ap, sym, ◌∙◌, Option, ◌<◌, inl, inr, true, false, none, some, List,
  [], ◌∷◌, ◌++◌, Has-append_right, arith, leb, leb→le, le→leb, Has, Bool-cases,
}
use unifi_containers.Text.{Text, text_eq, text_eq_iff, text_eq_refl}
use unifi_containers.Text.Scan.{IsVersion}
use unifi_containers.Release.{
  Release, parse, git_tag, releases_for, add_parsed, with_upstream, builds_of, max_revision,
  next_release, all_at_most, is_highest_build,
}
use unifi_containers.Release.RoundTrip.{IsProduct, parse-git_tag}

Has-add_parsed :
    (p : Text) (o : Option Release) (r : Release) (rest : List Release)
    → Has r rest
    → Has r (add_parsed p o rest)
unfolding add_parsed
Has-add_parsed p none r rest h = h
Has-add_parsed p (some s) r rest h = elim (Bool-cases (text_eq s.product p)) [
  | inl e ↦ rw e (inr h)
  | inr e ↦ rw e h
]

add_parsed_cases :
    (p : Text) (o : Option Release) (r : Release) (rest : List Release)
    → Has r (add_parsed p o rest)
    → ((o ≡ some r) × (r.product ≡ p)) ⊎ Has r rest
unfolding add_parsed
add_parsed_cases p none r rest h = inr h
add_parsed_cases p (some s) r rest h = elim (Bool-cases (text_eq s.product p)) [
  | inl e ↦
      let k : (r ≡ s) ⊎ Has r rest = rw e at h in
      elim k [
        | inl same ↦
            inl (ap some (sym same), ap Release.product same ∙ (text_eq_iff s.product p).0 e)
        | inr later ↦ inr later
      ]
  | inr e ↦ inr (rw e at h)
]

pub Has-releases_for :
    (tags : List Text) (t : Text) (r : Release)
    → Has t tags
    → parse t ≡ some r
    → Has r (releases_for tags r.product)
unfolding releases_for
Has-releases_for [] t r k h = elim k [ ]
Has-releases_for (u ∷ tags) t r (inl e) h = rw (← e, h, text_eq_refl) (inl refl)
Has-releases_for (u ∷ tags) t r (inr k) h =
    Has-add_parsed r.product (parse u) r _ (Has-releases_for tags t r k h)

Has-with_upstream :
    (r : Release) (rs : List Release) → Has r rs → Has r (with_upstream r.upstream rs)
unfolding with_upstream
Has-with_upstream r [] k = elim k [ ]
Has-with_upstream r (s ∷ rs) (inl e) = rw (← e, text_eq_refl) (inl refl)
Has-with_upstream r (s ∷ rs) (inr k) =
    let ih = Has-with_upstream r rs k in
    elim (Bool-cases (text_eq s.upstream r.upstream)) [ inl h ↦ rw h (inr ih) | inr h ↦ rw h ih ]

with_upstream_sound :
    (u : Text) (r : Release) (rs : List Release)
    → Has r (with_upstream u rs)
    → Has r rs × (r.upstream ≡ u)
unfolding with_upstream
with_upstream_sound u r [] k = elim k [ ]
with_upstream_sound u r (s ∷ rs) k = elim (Bool-cases (text_eq s.upstream u)) [
  | inl e ↦
      let k' : (r ≡ s) ⊎ Has r (with_upstream u rs) = rw e at k in
      elim k' [
        | inl same ↦ (inl same, ap Release.upstream same ∙ (text_eq_iff s.upstream u).0 e)
        | inr later ↦ let ih = with_upstream_sound u r rs later in (inr ih.0, ih.1)
      ]
  | inr e ↦ let ih = with_upstream_sound u r rs (rw e at k) in (inr ih.0, ih.1)
]

-- A build is a release of that product and version that some tag names.
pub record IsBuild (tags : List Text) (product upstream : Text) (r : Release) : Type 0 where
  pub tag : Text
  pub tag_listed : Has tag tags
  pub named : parse tag ≡ some r
  pub same_product : r.product ≡ product
  pub same_upstream : r.upstream ≡ upstream

IsBuild-Has :
    (tags : List Text) (p u : Text) (r : Release) → IsBuild tags p u r → Has r (builds_of tags p u)
unfolding builds_of
IsBuild-Has tags p u r b =
    rw (← b.same_product, ← b.same_upstream)
      (Has-with_upstream r _ (Has-releases_for tags b.tag r b.tag_listed b.named))

pub releases_for_sound :
    (tags : List Text) (p : Text) (r : Release)
    → Has r (releases_for tags p)
    → (t : Text) × Has t tags × (parse t ≡ some r) × (r.product ≡ p)
unfolding releases_for
releases_for_sound [] p r k = elim k [ ]
releases_for_sound (u ∷ tags) p r k = elim (add_parsed_cases p (parse u) r _ k) [
  | inl h ↦ (u, inl refl, h.0, h.1)
  | inr h ↦ let (t, m, e, f) = releases_for_sound tags p r h in (t, inr m, e, f)
]

-- The builds of a version are exactly the releases of it that the tags name.
pub Has-builds_of_iff :
    (tags : List Text) (p u : Text) (r : Release)
    → (Has r (builds_of tags p u)) ↔ IsBuild tags p u r
unfolding builds_of
Has-builds_of_iff tags p u r = (back, IsBuild-Has tags p u r)
  where
    back : Has r (builds_of tags p u) → IsBuild tags p u r
    back h =
        let (k, eu) = with_upstream_sound u r _ h in
        let (t, m, e, ep) = releases_for_sound tags p r k in
        record { tag = t; tag_listed = m; named = e; same_product = ep; same_upstream = eu }

le-max_revision : (r : Release) (rs : List Release) → Has r rs → r.revision ≤ max_revision rs
unfolding max_revision
le-max_revision r [] k = elim k [ ]
le-max_revision r (s ∷ rs) (inl e) = let e' = ap Release.revision e in omega arith
le-max_revision r (s ∷ rs) (inr k) = omega (arith, le-max_revision r rs k)

-- Every build that the tags name has a lower number than the next release.
pub next_release_above :
    (tags : List Text) (p u : Text) (r : Release)
    → IsBuild tags p u r
    → r.revision < (next_release tags p u).revision
unfolding next_release
next_release_above tags p u r b =
    omega (arith, le-max_revision r (builds_of tags p u) (IsBuild-Has tags p u r b))

-- Tagged under its name, the next release is a build of its version.
pub next_release-IsBuild :
    (tags more : List Text) (p u : Text)
    → IsProduct p
    → IsVersion u
    → Has (git_tag (next_release tags p u)) more
    → IsBuild more p u (next_release tags p u)
unfolding next_release
next_release-IsBuild tags more p u hp hu listed = record {
  tag = git_tag (next_release tags p u);
  tag_listed = listed;
  named = parse-git_tag (next_release tags p u) hp hu;
  same_product = refl;
  same_upstream = refl;
}

-- No tag has the name of the next release of a known product and a dotted version.
pub next_release_fresh :
    (tags : List Text) (p u : Text)
    → IsProduct p
    → IsVersion u
    → ¬ Has (git_tag (next_release tags p u)) tags
next_release_fresh tags p u hp hu h =
    let above =
      next_release_above tags p u (next_release tags p u)
        (next_release-IsBuild tags tags p u hp hu h) in
    absurd (omega arith)

all_at_most_sound :
    (n : ℕ) (rs : List Release) (s : Release) → all_at_most n rs ≡ true → Has s rs → s.revision ≤ n
unfolding all_at_most
all_at_most_sound n [] s h k = elim k [ ]
all_at_most_sound n (r ∷ rs) s h k = elim (Bool-cases (leb r.revision n)) [
  | inl e ↦
      let h' : all_at_most n rs ≡ true = rw e at h in
      let first : r.revision ≤ n = leb→le _ _ e in
      elim k [
        | inl same ↦ let same' = ap Release.revision same in omega arith
        | inr later ↦ all_at_most_sound n rs s h' later
      ]
  | inr e ↦ let h' : false ≡ true = rw e at h in cc
]

all_at_most_complete :
    (n : ℕ) (rs : List Release)
    → ((s : Release) → Has s rs → s.revision ≤ n)
    → all_at_most n rs ≡ true
unfolding all_at_most
all_at_most_complete n [] h = refl
all_at_most_complete n (r ∷ rs) h =
    rw (le→leb _ _ (h r (inl refl))) (all_at_most_complete n rs (λ s k. h s (inr k)))

-- A release is the highest build exactly if no build of its version has a higher number.
is_highest_build_iff :
    (tags : List Text) (r : Release)
    → (is_highest_build tags r ≡ true)
      ↔ ((s : Release) → IsBuild tags r.product r.upstream s → s.revision ≤ r.revision)
unfolding is_highest_build
is_highest_build_iff tags r = (
  λ h s b. all_at_most_sound r.revision _ s h (IsBuild-Has tags r.product r.upstream s b),
  λ h.
      all_at_most_complete r.revision _
        (λ s k. h s ((Has-builds_of_iff tags r.product r.upstream s).0 k)),
)

-- Once the next release of a known product and a dotted version is tagged, no earlier build of the
-- version is the highest.
next_release_supersedes :
    (tags : List Text) (p u : Text) (r : Release)
    → IsProduct p
    → IsVersion u
    → IsBuild tags p u r
    → is_highest_build (tags ++ (git_tag (next_release tags p u) ∷ [])) r ≡ false
next_release_supersedes tags p u r hp hu b =
    let after = tags ++ (git_tag (next_release tags p u) ∷ []) in
    elim (Bool-cases (is_highest_build after r)) [
      | inr low ↦ low
      | inl top ↦
          let listed = Has-append_right _ tags (git_tag (next_release tags p u) ∷ []) (inl refl) in
          let built = next_release-IsBuild tags after p u hp hu listed in
          let built' : IsBuild after r.product r.upstream (next_release tags p u) =
            rw (b.same_product, b.same_upstream) built in
          let bound = (is_highest_build_iff after r).0 top _ built' in
          let above = next_release_above tags p u r b in absurd (omega arith)
    ]
