-- ===== src/MakeSeed/Steps.antt =====
-- What each step of the build leaves: it replaces seed.tgz or not, and what it has done where it ends
-- well.
use unifi_containers.Prelude.{
  ◌≡◌, ◌≢◌, refl, subst, ◌∙◌, sym, ap, inl, inr, Bool-cases, true, false, List, ◌∷◌, Has,
}
use unifi_containers.Prelude.Results.{Result, ok, err, after, after-eq-ok}
use unifi_containers.MakeSeed.{
  Step, run_container, stop_container, make_directory, open_partial, remove_partial, replace_seed,
  CopyEnd, whole, broken, not_run, SeedEnd, completed, wizard_error, other_error, Action, tried,
  waited, seeded, tarred, Host, ◌then_do◌, Fault, Part, try, await_healthy, seed_answer,
  complete_wizard, copy_answer, copy_volume, snapshot, boot_and_seed,
}

-- The file seed.tgz is not replaced.
abbrev pub Unpublished : List Action → Type 0
Unpublished t = ¬ Has (tried replace_seed true) t

-- A part that never replaces the file.
unfoldable pub Quiet : Part → Type 0
Quiet part = (t : List Action) → Unpublished t → Unpublished (part t).1

pub quiet_more :
    (a : Action) (t : List Action)
    → tried replace_seed true ≢ a
    → Unpublished t
    → Unpublished (a ∷ t)
quiet_more a t other quiet m = elim m [
  | inl e ↦ absurd (other e)
  | inr there ↦ absurd (quiet there)
]

pub then_do-Quiet : (first next : Part) → Quiet first → Quiet next → Quiet (first then_do next)
unfolding Quiet
then_do-Quiet first next hf hn t quiet = from (first t) (hf t quiet)
  where
    from :
        (p : Result Fault (Unit {0}) × List Action)
        → Unpublished p.1
        → Unpublished (after p (λ _ t'. next t')).1
    from (ok u, m) q = hn m q
    from (err e, m) q = q

module _ (H : Host) where
  pub try-Quiet : (step : Step) → replace_seed ≢ step → Quiet (try H step)
  unfolding Quiet try
  try-Quiet step other t quiet =
      quiet_more (tried step (H.works step t)) t (λ e. other (cc e)) quiet

  await_healthy-Quiet : Quiet (await_healthy H)
  unfolding Quiet await_healthy
  await_healthy-Quiet t quiet = quiet_more (waited (H.is_healthy t)) t (λ e. cc e) quiet

  complete_wizard-Quiet : Quiet (complete_wizard H)
  unfolding Quiet complete_wizard
  complete_wizard-Quiet t quiet = quiet_more (seeded (H.wizard t)) t (λ e. cc e) quiet

  pub boot_and_seed-Quiet : Quiet (boot_and_seed H)
  unfolding boot_and_seed
  boot_and_seed-Quiet =
      then_do-Quiet _ _
        (then_do-Quiet _ _
          (then_do-Quiet _ _
            (then_do-Quiet _ _ (try-Quiet run_container (λ e. cc e)) await_healthy-Quiet)
            complete_wizard-Quiet)
          (try-Quiet stop_container (λ e. cc e)))
        (try-Quiet make_directory (λ e. cc e))

  copy_answer-Quiet : (end : CopyEnd) → Quiet (copy_answer H end)
  unfolding copy_answer Quiet
  copy_answer-Quiet whole t quiet = quiet
  copy_answer-Quiet broken t quiet =
      then_do-Quiet (try H remove_partial) _ (try-Quiet remove_partial (λ e. cc e)) (λ t' q. q) t
        quiet
  copy_answer-Quiet not_run t quiet = quiet

  copy_volume-Quiet : Quiet (copy_volume H)
  unfolding Quiet copy_volume
  copy_volume-Quiet t quiet =
      copy_answer-Quiet (H.tar t) (tarred (H.tar t) ∷ t)
        (quiet_more (tarred (H.tar t)) t (λ e. cc e) quiet)

  pub try-eq-ok :
      (step : Step) (t m : List Action) (u : Unit {0})
      → try H step t ≡ (ok u, m)
      → m ≡ tried step true ∷ t
  unfolding try
  try-eq-ok step t m u h = elim (Bool-cases (H.works step t)) [
    | inl e ↦ sym (ap (λ p. p.1) (rw (e, try) at h))
    | inr e ↦ absurd (cc (ap (λ p. p.0) (rw (e, try) at h)))
  ]

  await_healthy-eq-ok :
      (t m : List Action) (u : Unit {0}) → await_healthy H t ≡ (ok u, m) → m ≡ waited true ∷ t
  unfolding await_healthy
  await_healthy-eq-ok t m u h = elim (Bool-cases (H.is_healthy t)) [
    | inl e ↦ sym (ap (λ p. p.1) (rw (e, await_healthy) at h))
    | inr e ↦ absurd (cc (ap (λ p. p.0) (rw (e, await_healthy) at h)))
  ]

  seed_answer-eq-ok : (e : SeedEnd) (u : Unit {0}) → seed_answer H e ≡ ok u → e ≡ completed
  unfolding seed_answer
  seed_answer-eq-ok completed u h = refl
  seed_answer-eq-ok wizard_error u h = absurd (cc h)
  seed_answer-eq-ok other_error u h = absurd (cc h)

  complete_wizard-eq-ok :
      (t m : List Action) (u : Unit {0})
      → complete_wizard H t ≡ (ok u, m)
      → m ≡ seeded completed ∷ t
  unfolding complete_wizard
  complete_wizard-eq-ok t m u h =
      sym (ap (λ p. p.1) h)
      ∙ ap (λ e. seeded e ∷ t) (seed_answer-eq-ok (H.wizard t) u (ap (λ p. p.0) h))

  copy_answer-eq-ok :
      (end : CopyEnd) (t m : List Action) (u : Unit {0})
      → copy_answer H end t ≡ (ok u, m)
      → (end ≡ whole) × (m ≡ t)
  unfolding copy_answer
  copy_answer-eq-ok whole t m u h = (refl, sym (ap (λ p. p.1) h))
  copy_answer-eq-ok broken t m u h =
      let (_, t1, tried_first, rest) = after-eq-ok (try H remove_partial t) _ h in
      absurd (cc (ap (λ p. p.0) rest))
  copy_answer-eq-ok not_run t m u h = absurd (cc (ap (λ p. p.0) h))

  copy_volume-eq-ok :
      (t m : List Action) (u : Unit {0}) → copy_volume H t ≡ (ok u, m) → m ≡ tarred whole ∷ t
  unfolding copy_volume
  copy_volume-eq-ok t m u h =
      let (e, same) = copy_answer-eq-ok (H.tar t) (tarred (H.tar t) ∷ t) m u h in
      same ∙ ap (λ x. tarred x ∷ t) e

  pub snapshot-eq-ok :
      (t m : List Action) (u : Unit {0})
      → snapshot H t ≡ (ok u, m)
      → m ≡ tried replace_seed true ∷ tarred whole ∷ tried open_partial true ∷ t
  unfolding snapshot
  snapshot-eq-ok t m u h =
      let (_, t2, e2, h3) = after-eq-ok _ (λ _ x. try H replace_seed x) h in
      let (_, t1, e1, h2) = after-eq-ok (try H open_partial t) (λ _ x. copy_volume H x) e2 in
      try-eq-ok replace_seed t2 m _ h3
      ∙ ap (λ x. tried replace_seed true ∷ x)
          (copy_volume-eq-ok t1 t2 _ h2
            ∙ ap (λ x. tarred whole ∷ x) (try-eq-ok open_partial t t1 _ e1))

  -- A call that fails has only been tried.
  replace_seed-eq-err :
      (t m : List Action) (x : Fault)
      → Unpublished t
      → try H replace_seed t ≡ (err x, m)
      → Unpublished m
  unfolding try
  replace_seed-eq-err t m x quiet h = elim (Bool-cases (H.works replace_seed t)) [
    | inl e ↦ absurd (cc (ap (λ p. p.0) (rw (e, try) at h)))
    | inr e ↦
        subst Unpublished (ap (λ p. p.1) (rw (e, try) at h))
          (quiet_more (tried replace_seed false) t (λ k. cc k) quiet)
  ]

  -- Parts that do not replace the file, before the one that does.
  last_fails :
      (part : Part)
      → Quiet part
      → (t m : List Action) (x : Fault) → Unpublished t
      → (part then_do try H replace_seed) t ≡ (err x, m)
      → Unpublished m
  unfolding Quiet
  last_fails part silent t m x quiet h = failed (part t) (silent t quiet) h
    where
      failed :
          (q : Result Fault (Unit {0}) × List Action)
          → Unpublished q.1
          → after q (λ _ t'. try H replace_seed t') ≡ (err x, m)
          → Unpublished m
      failed (ok v, n) k e = replace_seed-eq-err n m x k e
      failed (err y, n) k e = subst Unpublished (ap (λ z. z.1) e) k

  pub snapshot-eq-err :
      (t m : List Action) (x : Fault) → Unpublished t → snapshot H t ≡ (err x, m) → Unpublished m
  unfolding snapshot
  snapshot-eq-err t m x quiet h =
      last_fails (try H open_partial then_do copy_volume H)
        (then_do-Quiet _ _ (try-Quiet open_partial (λ e. cc e)) copy_volume-Quiet) t m x quiet h

  pub boot_and_seed-eq-ok :
      (t m : List Action) (u : Unit {0})
      → boot_and_seed H t ≡ (ok u, m)
      → m
        ≡ tried make_directory true
          ∷ tried stop_container true
          ∷ seeded completed
          ∷ waited true
          ∷ tried run_container true
          ∷ t
  unfolding boot_and_seed
  boot_and_seed-eq-ok t m u h =
      let (_, t4, e4, h5) = after-eq-ok _ (λ _ x. try H make_directory x) h in
      let (_, t3, e3, h4) = after-eq-ok _ (λ _ x. try H stop_container x) e4 in
      let (_, t2, e2, h3) = after-eq-ok _ (λ _ x. complete_wizard H x) e3 in
      let (_, t1, e1, h2) = after-eq-ok (try H run_container t) (λ _ x. await_healthy H x) e2 in
      try-eq-ok make_directory t4 m _ h5
      ∙ ap (λ x. tried make_directory true ∷ x)
          (try-eq-ok stop_container t3 t4 _ h4
            ∙ ap (λ x. tried stop_container true ∷ x)
                (complete_wizard-eq-ok t2 t3 _ h3
                  ∙ ap (λ x. seeded completed ∷ x)
                      (await_healthy-eq-ok t1 t2 _ h2
                        ∙ ap (λ x. waited true ∷ x) (try-eq-ok run_container t t1 _ e1))))
