-- ===== src/MakeSeed/Published.antt =====
-- When seed.tgz is replaced.
use unifi_containers.Prelude.{
  ◌≡◌, ◌≢◌, refl, subst, ◌∙◌, sym, ap, ap₂, Bool, if◌then◌else◌, ◌⊎◌, inl, inr, true, List, [], ◌∷◌,
  Has,
}
use unifi_containers.Prelude.Results.{Result, ok, err, after, after-eq-ok}
use unifi_containers.MakeSeed.{
  Step, connect, create_volume, run_container, stop_container, make_directory, open_partial,
  replace_seed, remove_container, remove_volume, read_size, whole, completed, Action, tried, waited,
  seeded, tarred, Host, ◌then_do◌, Fault, raised, try, snapshot, boot_and_seed, discard,
  discard_both, fill_volume, build,
}
use unifi_containers.MakeSeed.Steps.{
  Unpublished, Quiet, quiet_more, then_do-Quiet, try-Quiet, boot_and_seed-Quiet, try-eq-ok,
  boot_and_seed-eq-ok, snapshot-eq-ok, snapshot-eq-err,
}

-- What is done to the volume and torn down, from the latest, after `t`; of the removals only that they
-- are tried, with what comes of each.
abbrev pub filling : Bool → Bool → List Action → List Action
filling container volume t =
    tried remove_volume volume
    ∷ tried remove_container container
    ∷ tried replace_seed true
    ∷ tarred whole
    ∷ tried open_partial true
    ∷ tried make_directory true
    ∷ tried stop_container true
    ∷ seeded completed
    ∷ waited true
    ∷ tried run_container true
    ∷ t

-- The actions of a build that replaces seed.tgz, from the latest.
abbrev pub published : Bool → Bool → Bool → List Action
published container volume size =
    tried read_size size
    ∷ filling container volume (tried create_volume true ∷ tried connect true ∷ [])

-- What `build` returns of the last step.
abbrev pub ending : Bool → Result Fault (Unit {0})
ending size = if size then ok tt else err raised

module _ (H : Host) where
  -- The part under the `try`: it ends well with a replaced file, or fails without one.
  under_try :
      (t : List Action) (p : Result Fault (Unit {0}) × List Action)
      → Unpublished t
      → (boot_and_seed H then_do snapshot H) t ≡ p
      → ((p.0 ≡ ok tt)
          × (m : List Action) × (boot_and_seed H t ≡ (ok tt, m))
          × (p.1 ≡ tried replace_seed true ∷ tarred whole ∷ tried open_partial true ∷ m))
        ⊎ ((x : Fault) × (p.0 ≡ err x) × Unpublished p.1)
  unfolding Quiet
  under_try t (ok u, m) quiet h =
      let (_, t1, e, k) = after-eq-ok (boot_and_seed H t) (λ _ x. snapshot H x) h in
      inl (refl, t1, e, snapshot-eq-ok H t1 m u k)
  under_try t (err x, m) quiet h = inr (x, refl, failed (boot_and_seed H t) refl h)
    where
      failed :
          (q : Result Fault (Unit {0}) × List Action)
          → boot_and_seed H t ≡ q
          → after q (λ _ t'. snapshot H t') ≡ (err x, m)
          → Unpublished m
      failed (ok v, n) e k =
          snapshot-eq-err H n m x (subst (λ y. Unpublished y.1) e (boot_and_seed-Quiet H t quiet)) k
      failed (err y, n) e k =
          subst Unpublished (ap (λ z. z.1) k)
            (subst (λ y. Unpublished y.1) e (boot_and_seed-Quiet H t quiet))

  discard-Unpublished :
      (step : Step) (t : List Action)
      → replace_seed ≢ step
      → Unpublished t
      → Unpublished (discard H step t)
  unfolding discard
  discard-Unpublished step t other quiet =
      quiet_more (tried step (H.works step t)) t (λ e. other (cc e)) quiet

  no_error : (x : Fault) → ¬ ◌≡◌ {A = Result Fault (Unit {0})} (err x) (ok tt)
  no_error x e = cc

  -- The volume is filled and what was made is torn down: well with a replaced file, or without one.
  filled :
      (t : List Action) (p : Result Fault (Unit {0}) × List Action)
      → Unpublished t
      → (boot_and_seed H then_do snapshot H) t ≡ p
      → ((container : Bool) × (volume : Bool) × (discard_both H p
            ≡ (ok tt, filling container volume t)))
        ⊎ ((x : Fault) × (m : List Action) × (discard_both H p ≡ (err x, m)) × Unpublished m)
  unfolding discard_both discard
  filled t (r, u) quiet e =
      let after_container : List Action = discard H remove_container u in
      let container = H.works remove_container u in
      let volume = H.works remove_volume after_container in
      elim (under_try t (r, u) quiet e) [
        | inl (well, m, booted, last) ↦
            let made =
              last
              ∙ ap (λ x. tried replace_seed true ∷ tarred whole ∷ tried open_partial true ∷ x)
                  (boot_and_seed-eq-ok H t m tt booted) in
            inl (
              container,
              volume,
              ap₂
                  (λ r' u'.
                    (r', tried remove_volume volume ∷ tried remove_container container ∷ u'))
                  well made,
            )
        | inr (x, failed, silent) ↦ inr (
          x,
          discard H remove_volume after_container,
          ap (λ r'. (r', discard H remove_volume after_container)) failed,
          discard-Unpublished remove_volume after_container (λ k. cc k)
              (discard-Unpublished remove_container u (λ k. cc k) silent),
        )
      ]

  -- What a build that has replaced the file, or returns 0, has done.
  Outcome : Result Fault (Unit {0}) → List Action → Type 0
  Outcome r t =
      Has (tried replace_seed true) t ⊎ (r ≡ ok tt)
      → (container : Bool) × (volume : Bool) × (size : Bool) × (t ≡ published container volume size)
        × (r ≡ ending size)

  Unpublished-Outcome : (x : Fault) (m : List Action) → Unpublished m → Outcome (err x) m
  unfolding Outcome
  Unpublished-Outcome x m quiet k = elim k [
    | inl there ↦ absurd (quiet there)
    | inr well ↦ absurd (no_error x well)
  ]

  abbrev begun : List Action
  begun = tried create_volume true ∷ tried connect true ∷ []

  begun-Unpublished : Unpublished begun
  begun-Unpublished =
      quiet_more (tried create_volume true) (tried connect true ∷ []) (λ k. cc k)
        (quiet_more (tried connect true) [] (λ k. cc k) (λ k. k))

  sized :
      (p : Result Fault (Unit {0}) × List Action)
      → fill_volume H begun ≡ p
      → Outcome (after p (λ _ t'. try H read_size t')).0 (after p (λ _ t'. try H read_size t')).1
  unfolding fill_volume Outcome try
  sized p e = elim (filled begun _ begun-Unpublished refl) [
    | inl (container, volume, done) ↦
        subst
          (λ (q : Result Fault (Unit {0}) × List Action).
            Outcome (after q (λ _ t'. try H read_size t')).0
              (after q (λ _ t'. try H read_size t')).1)
          (sym done ∙ e)
          (λ k. (container, volume, H.works read_size (filling container volume begun), refl, refl))
    | inr (x, m, done, silent) ↦
        subst
          (λ (q : Result Fault (Unit {0}) × List Action).
            Outcome (after q (λ _ t'. try H read_size t')).0
              (after q (λ _ t'. try H read_size t')).1)
          (sym done ∙ e) (Unpublished-Outcome x m silent)
  ]

  started :
      (p : Result Fault (Unit {0}) × List Action)
      → (try H connect then_do try H create_volume) [] ≡ p
      → let q = after (after p (λ _ t'. fill_volume H t')) (λ _ t'. try H read_size t') in
        Outcome q.0 q.1
  unfolding Quiet
  started (err x, m) e = Unpublished-Outcome x m (
      subst (λ (q : Result Fault (Unit {0}) × List Action). Unpublished q.1) e
        (starting-Quiet [] (λ k. k)))
    where
      starting-Quiet : Quiet (try H connect then_do try H create_volume)
      starting-Quiet =
          then_do-Quiet _ _ (try-Quiet H connect (λ k. cc k))
            (try-Quiet H create_volume (λ k. cc k))
  started (ok u, m) e =
      let (_, t1, e1, h2) = after-eq-ok (try H connect []) (λ _ x. try H create_volume x) e in
      let whole_start : m ≡ begun =
        try-eq-ok H create_volume t1 m _ h2
        ∙ ap (λ x. tried create_volume true ∷ x) (try-eq-ok H connect [] t1 _ e1) in
      subst (λ x. let q = after (fill_volume H x) (λ _ t'. try H read_size t') in Outcome q.0 q.1)
        (sym whole_start) (sized (fill_volume H begun) refl)

  -- The file seed.tgz is replaced, or the build returns 0, only if the build has made the volume,
  -- started the controller on it and waited until it is healthy, completed the wizard, stopped the
  -- controller, copied the whole volume into the partial file and renamed that, in this order and each
  -- with success, and has then tried to remove the container and the volume, whatever came of it; it
  -- then returns 0 exactly if the size of the file can be read, and raises an exception otherwise.
  pub build_published :
      (r : Result Fault (Unit {0})) (t : List Action)
      → build H ≡ (r, t)
      → Has (tried replace_seed true) t ⊎ (r ≡ ok tt)
      → (container : Bool) × (volume : Bool) × (size : Bool) × (t ≡ published container volume size)
        × (r ≡ ending size)
  unfolding build Outcome
  build_published r t h =
      subst (λ (q : Result Fault (Unit {0}) × List Action). Outcome q.0 q.1) h (started _ refl)
