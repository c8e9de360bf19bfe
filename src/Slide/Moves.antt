-- ===== src/Slide/Moves.antt =====
-- Which moves a run of `slide` makes, when it ends well and when it stops.
use unifi_containers.Prelude.{
  inl, inr, Option-cases, ◌≡◌, refl, sym, ◌∙◌, ap, ◌↔◌, Bool, true, some, List, [], ◌∷◌, ◌++◌,
  append_assoc, append-nil, arith, if◌then◌else◌,
}
use unifi_containers.Prelude.Results.{Result, ok, err, Result-cases}
use unifi_containers.Text.{Text}
use unifi_containers.Slide.{
  Variant, SlideError, create_failed, Digests, variant_for, digest_for, slide_one, slide_from,
  slide,
}

module _ {R : Type 0} (create : Text → Text → Text → R → Bool × R) (image : Text)
    (digests : Digests) where
  -- From registry `s` every name is created, in order, at the digest of its variant, which
  -- leaves registry `t`.
  pub data Moved : List Text → R → R → Type 0 where
    done : {s t : R} → s ≡ t → Moved [] s t
    move :
        {name d : Text} {names : List Text} {v : Variant} {s m t : R}
        → variant_for name ≡ ok v
        → digest_for digests v ≡ some d
        → create image name d s ≡ (true, m)
        → Moved names m t
        → Moved (name ∷ names) s t

  -- One name was moved.
  record MovedOne (name : Text) (s t : R) : Type 0 where
    variant : Variant
    digest : Text
    variant_of : variant_for name ≡ ok variant
    digest_of : digest_for digests variant ≡ some digest
    created : create image name digest s ≡ (true, t)

  created_digest :
      (name : Text) (v : Variant) (d : Text) (s t : R)
      → variant_for name ≡ ok v
      → digest_for digests v ≡ some d
      → ◌≡◌ {A = Result SlideError (Unit {0}) × R}
          (let (made, s') = create image name d s in
            (if made then ok tt else err (create_failed image name), s'))
          (ok tt, t)
      → MovedOne name s t
  created_digest name v d s t ev ed h = record {
    variant = v;
    digest = d;
    variant_of = ev;
    digest_of = ed;
    created = ground arith;
  }

  slide_one_sound :
      (name : Text) (s t : R)
      → slide_one create image digests name s ≡ (ok tt, t)
      → MovedOne name s t
  unfolding slide_one
  slide_one_sound name s t h = elim (Result-cases (variant_for name)) [
    | inr (e, bad) ↦ cc (rw (bad, slide_one) at h)
    | inl (v, ev) ↦ elim (Option-cases (digest_for digests v)) [
      | inl missing ↦ cc (rw (ev, slide_one, missing) at h)
      | inr (d, ed) ↦ created_digest name v d s t ev ed (rw (ev, slide_one, ed) at h)
    ]
  ]

  slide_one_complete :
      (name : Text) (s t : R)
      → MovedOne name s t
      → slide_one create image digests name s ≡ (ok tt, t)
  unfolding slide_one
  slide_one_complete name s t m = rw (m.variant_of, slide_one, m.digest_of, m.created)

  after_one :
      (moved : List Text) (name : Text) (names out : List Text) (s t : R)
      (p : Result SlideError (Unit {0}) × R)
      → slide_one create image digests name s ≡ p
      → ((m : R)
          → slide_from create image digests (moved ++ (name ∷ [])) names m ≡ (ok out, t)
          → (out ≡ (moved ++ (name ∷ [])) ++ names) × Moved names m t)
      → ◌≡◌ {A = Result SlideError (List Text) × R}
          (elim p.0 [
            | err e ↦ (err e, p.1)
            | ok _ ↦ slide_from create image digests (moved ++ (name ∷ [])) names p.1
          ])
          (ok out, t)
      → (out ≡ moved ++ (name ∷ names)) × Moved (name ∷ names) s t
  after_one moved name names out s t (err e, m) step rest h = cc
  after_one moved name names out s t (ok u, m) step rest h =
      let one = slide_one_sound name s m step in
      let (eq, more) = rest m h in
      (
        eq ∙ append_assoc moved (name ∷ []) names,
        move one.variant_of one.digest_of one.created more,
      )

  -- A run from `moved` ends well exactly if every name is moved, and then it returns them all.
  slide_from_sound :
      (moved names out : List Text) (s t : R)
      → slide_from create image digests moved names s ≡ (ok out, t)
      → (out ≡ moved ++ names) × Moved names s t
  unfolding slide_from
  slide_from_sound moved [] out s t h = (ground (arith, append-nil moved), done (ground arith))
  slide_from_sound moved (name ∷ names) out s t h =
      after_one moved name names out s t (slide_one create image digests name s) refl
        (λ m. slide_from_sound (moved ++ (name ∷ [])) names out m t) h

  go_on :
      (moved : List Text) (name : Text) (names : List Text) (p : Result SlideError (Unit {0}) × R)
      (m : R)
      → p ≡ (ok tt, m)
      → ◌≡◌ {A = Result SlideError (List Text) × R}
          (elim p.0 [
            | err e ↦ (err e, p.1)
            | ok _ ↦ slide_from create image digests (moved ++ (name ∷ [])) names p.1
          ])
          (slide_from create image digests (moved ++ (name ∷ [])) names m)
  go_on moved name names (err e, n) m h = cc
  go_on moved name names (ok u, n) m h =
      ap (slide_from create image digests (moved ++ (name ∷ [])) names) (ground arith)

  slide_from_complete :
      (moved names : List Text) (s t : R)
      → Moved names s t
      → slide_from create image digests moved names s ≡ (ok (moved ++ names), t)
  unfolding slide_from
  slide_from_complete moved _ s t (done e) = ground (arith, append-nil moved)
  slide_from_complete moved _ s t
        (move {name = name} {d = d} {names = names} {v = v} {m = m} ev ed made rest) =
      let step =
        slide_one_complete name s m
          (record { variant = v; digest = d; variant_of = ev; digest_of = ed; created = made }) in
      go_on moved name names _ m step
      ∙ slide_from_complete (moved ++ (name ∷ [])) names m t rest
      ∙ ap (λ x. (ok x, t)) (append_assoc moved (name ∷ []) names)

  -- `slide` returns exactly if every name has a digest and every `create` succeeds, in order. It
  -- then returns all the names, and the registry is what these moves make of the first.
  pub slide_iff :
      (names out : List Text) (s t : R)
      → (slide create image digests names s ≡ (ok out, t)) ↔ ((out ≡ names) × Moved names s t)
  unfolding slide
  slide_iff names out s t = (
    λ h. slide_from_sound [] names out s t h,
    λ h. slide_from_complete [] names s t h.1 ∙ ap (λ x. (ok x, t)) (sym h.0),
  )
