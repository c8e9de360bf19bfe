-- ===== src/Cut/Settled.antt =====
-- What `decide` says after the release that it named has been tagged.
use unifi_containers.Prelude.{
  ℕ, ◌<◌, ◌≡◌, refl, sym, ap, subst, ◌∙◌, ◌⊎◌, inl, inr, Bool, false, Option, none, some, List, [],
  ◌∷◌, ◌++◌, arith, ltb, Has, Has-append_cases, Has-append_right,
}
use unifi_containers.Prelude.Results.{ok}
use unifi_containers.Packaging.{Versions, IsOrdered}
use unifi_containers.Text.{Text}
use unifi_containers.Text.Decimal.{decimal}
use unifi_containers.Text.Scan.{IsVersion, IsNumber}
use unifi_containers.Release.{
  Release, parse, git_tag, version, builds_of, next_release, max_release,
}
use unifi_containers.Release.RoundTrip.{IsProduct, parse-git_tag}
use unifi_containers.Release.Builds.{
  IsBuild, Has-builds_of_iff, next_release_above, next_release-IsBuild,
}
use unifi_containers.Release.Highest.{IsTop, Readable, max_release-IsTop}
use unifi_containers.Pins.{truthy}
use unifi_containers.Cut.{already_released, after_top, decide_pinned, decide}

IsNumber-append_truthy : (a r : Text) → IsNumber a → truthy (some (a ++ r)) ≡ some (a ++ r)
unfolding truthy
IsNumber-append_truthy [] r n = absurd (n.0 refl)
IsNumber-append_truthy (c ∷ a) r n = refl

truthy-version : (u : Text) → IsVersion u → truthy (some u) ≡ some u
truthy-version u v =
    subst (λ x. truthy (some x) ≡ some x) (sym v.parts)
      (IsNumber-append_truthy v.major _ v.major_number)

older_not_top : (m n : ℕ) → ltb m n ≡ false → ¬ (m < n)
older_not_top m n h = ground arith

module _ (V : Versions) (O : IsOrdered V) (tags : List Text) (p u : Text) (hp : IsProduct p)
    (hu : IsVersion u) where
  abbrev due : Release
  due = next_release tags p u

  abbrev tagged : List Text
  tagged = tags ++ (git_tag due ∷ [])

  parse-due : parse (git_tag due) ≡ some due
  unfolding next_release
  parse-due = parse-git_tag due hp hu

  due-upstream : due.upstream ≡ u
  unfolding next_release
  due-upstream = refl

  due-Has : Has due (builds_of tagged p u)
  due-Has = (Has-builds_of_iff tagged p u due).1 (
      next_release-IsBuild tags tagged p u hp hu
        (Has-append_right (git_tag due) tags (git_tag due ∷ []) (inl refl)))

  -- A build of the version is an older one, or the release just tagged.
  build_cases : (r : Release) → IsBuild tagged p u r → (r.revision < due.revision) ⊎ (r ≡ due)
  build_cases r b = from (Has-append_cases b.tag tags (git_tag due ∷ []) b.tag_listed)
    where
      from : Has b.tag tags ⊎ Has b.tag (git_tag due ∷ []) → (r.revision < due.revision) ⊎ (r ≡ due)
      from (inl old) = inl (
          next_release_above tags p u r (record {
            tag = b.tag;
            tag_listed = old;
            named = b.named;
            same_product = b.same_product;
            same_upstream = b.same_upstream;
          }))
      from (inr (inl own)) =
          let named' : parse (git_tag due) ≡ some r = subst (λ x. parse x ≡ some r) own b.named in
          let parsed = parse-due in inr (cc)
      from (inr (inr never)) = absurd never

  read-version :
      (r : Release) (k : V.Key)
      → r.upstream ≡ u
      → V.read (version r) ≡ some k
      → V.read (u ++ (b'-' ∷ decimal r.revision)) ≡ some k
  unfolding version
  read-version r k same e = subst (λ x. V.read (x ++ (b'-' ∷ decimal r.revision)) ≡ some k) same e

  -- The highest build is the release just tagged.
  top-due :
      (top : Release) (k : V.Key)
      → V.read (version due) ≡ some k
      → IsTop V (builds_of tagged p u) top
      → top ≡ due
  top-due top k ek t =
      let b = (Has-builds_of_iff tagged p u top).0 t.member in
      let order =
        O.lt_post u top.revision due.revision t.key k hu
          (read-version top t.key b.same_upstream t.key_of) (read-version due k due-upstream ek) in
      let low = t.none_above due k due-Has ek in
      elim (build_cases top b) [
        | inr same ↦ same
        | inl older ↦ absurd (older_not_top top.revision due.revision (sym order ∙ low) older)
      ]

  settled :
      (rs : List Release) (changed : Option (Text → Bool))
      → Has due rs
      → rs ≡ builds_of tagged p u
      → Readable V rs
      → (top : Release) × (max_release V rs ≡ ok (some top)) × (top ≡ due)
  settled [] changed m e h = elim m [ ]
  settled (r ∷ rs) changed m e h =
      let (top, run, t) = max_release-IsTop V O r rs h in
      let (k, ek) = h due m in (top, run, top-due top k ek (subst (λ x. IsTop V x top) e t))

  after_top-same :
      (changed : Option (Text → Bool))
      → ((f : Text → Bool) → changed ≡ some f → f (git_tag due) ≡ false)
      → after_top p u tagged changed due ≡ (none, already_released (git_tag due))
  unfolding after_top
  after_top-same none same = refl
  after_top-same (some f) same = rw (same f refl)

  decide_pinned_step :
      (top : Release) (changed : Option (Text → Bool))
      → max_release V (builds_of tagged p u) ≡ ok (some top)
      → decide_pinned V p u tagged changed ≡ ok (after_top p u tagged changed top)
  unfolding decide_pinned
  decide_pinned_step top changed run = rw (run, decide_pinned)

  -- For a known product that pins a dotted version, whose builds `Version` reads: once the next
  -- release is tagged, and unless its pins have changed since, `decide` cuts nothing more and names
  -- that tag.
  pub decide_settled :
      (changed : Option (Text → Bool))
      → ((f : Text → Bool) → changed ≡ some f → f (git_tag due) ≡ false)
      → Readable V (builds_of tagged p u)
      → decide V p (some u) tagged changed ≡ ok (none, already_released (git_tag due))
  unfolding decide
  decide_settled changed same h =
      let (top, run, e) = settled _ changed due-Has refl h in
      rw (truthy-version u hu, decide)
        (decide_pinned_step top changed run
          ∙ ap (λ x. ok (after_top p u tagged changed x)) e
          ∙ ap ok (after_top-same changed same))
