-- ===== src/NetworkBoot/Hooks.antt =====
-- The init hooks of a Network image: which are run, and in which order.
use unifi_containers.Prelude.{
  ℕ, ◌≡◌, refl, sym, ap, ◌∙◌, true, false, ◌==◌, ==_iff, some, List, [], ◌∷◌, if◌then◌else◌, arith,
  Bool-cases, inl, inr,
}
use unifi_containers.Prelude.Results.{ok}
use unifi_containers.Text.{Text}
use unifi_containers.NetworkBoot.{
  Action, called, Container, did, Host, text_le, insert, sorted, is_hook, hook_path, run_each,
  run_hooks,
}

-- In the order of `sorted`.
abbrev pub IsSorted : List Text → Type 0
IsSorted [] = Unit
IsSorted (a ∷ []) = Unit
IsSorted (a ∷ b ∷ ts) = (text_le a b ≡ true) × IsSorted (b ∷ ts)

pub text_le_total : (s t : Text) → text_le s t ≡ false → text_le t s ≡ true
unfolding text_le
text_le_total [] t h = cc
text_le_total (c ∷ s) [] h = refl
text_le_total (c ∷ s) (d ∷ t) h = ground (arith, text_le_total s t)

insert_between :
    (t a : Text) (ts : List Text)
    → text_le a t ≡ true
    → IsSorted (a ∷ ts)
    → IsSorted (insert t ts)
    → IsSorted (a ∷ insert t ts)
unfolding insert
insert_between t a [] le s i = (le, tt)
insert_between t a (b ∷ ts) le (ab, s) i = elim (Bool-cases (text_le t b)) [
  | inl e ↦ rw (e, insert) (le, (e, s))
  | inr e ↦ rw (e, insert) (ab, rw (e, insert) at i)
]

rest-IsSorted : (a : Text) (ts : List Text) → IsSorted (a ∷ ts) → IsSorted ts
rest-IsSorted a [] s = tt
rest-IsSorted a (b ∷ ts) (ab, s) = s

insert-IsSorted : (t : Text) (ts : List Text) → IsSorted ts → IsSorted (insert t ts)
unfolding insert
insert-IsSorted t [] s = tt
insert-IsSorted t (a ∷ ts) s = elim (Bool-cases (text_le t a)) [
  | inl e ↦ rw (e, insert) (e, s)
  | inr e ↦
      rw (e, insert)
        (insert_between t a ts (text_le_total t a e) s
          (insert-IsSorted t ts (rest-IsSorted a ts s)))
]

sorted-IsSorted : (ts : List Text) → IsSorted (sorted ts)
unfolding sorted
sorted-IsSorted [] = tt
sorted-IsSorted (t ∷ ts) = insert-IsSorted t (sorted ts) (sorted-IsSorted ts)

module _ (H : Host) where
  -- The names that are hooks.
  unfoldable pub hooks_of : List Text → List Text
  hooks_of [] = []
  hooks_of (name ∷ names) =
      let rest = hooks_of names in if is_hook H name then name ∷ rest else rest

  -- The trace behind these hooks, each of which has exited with 0.
  abbrev pub passed : List Text → List Action → List Action
  passed [] trace = trace
  passed (name ∷ names) trace = passed names (called (hook_path name ∷ []) 0 ∷ trace)

  run_each_ran :
      (names : List Text) (c t : Container)
      → run_each H names c ≡ (ok tt, t)
      → (t.trace ≡ passed (hooks_of names) c.trace) × (t.markers ≡ c.markers)
  unfolding run_each hooks_of did
  run_each_ran [] c t h = (ap (λ p. p.1.trace) (sym h), ap (λ p. p.1.markers) (sym h))
  run_each_ran (name ∷ names) c t h =
      let status : ℕ = H.status (hook_path name ∷ []) c.trace in
      elim (Bool-cases (is_hook H name)) [
        | inr e ↦ rw (e, hooks_of) (run_each_ran names c t (rw (e, run_each) at h))
        | inl e ↦ elim (Bool-cases (status == 0)) [
          | inr z ↦ let h' = rw (e, z, run_each) at h in absurd (cc (ap (λ p. p.0) h'))
          | inl z ↦
              let (trace, markers) =
                run_each_ran names (did (called (hook_path name ∷ []) status) c) t
                  (rw (e, z, run_each) at h) in
              rw (e, hooks_of)
                (
                  trace
                      ∙ ap (λ s. passed (hooks_of names) (called (hook_path name ∷ []) s ∷ c.trace))
                          ((==_iff status 0).0 z),
                  markers,
                )
        ]
      ]

  -- If the hooks of a readable directory end well, those of its names that are hooks were run once
  -- each in the order of the names, nothing else was, and each exited with 0.
  run_hooks_ran :
      (names : List Text) (c t : Container)
      → H.hook_names ≡ some names
      → run_hooks H c ≡ (ok tt, t)
      → (t.trace ≡ passed (hooks_of (sorted names)) c.trace)
        × IsSorted (sorted names)
        × (t.markers ≡ c.markers)
  unfolding run_hooks
  run_hooks_ran names c t there h =
      let (trace, markers) = run_each_ran (sorted names) c t (rw (there, run_hooks) at h) in
      (trace, sorted-IsSorted names, markers)
