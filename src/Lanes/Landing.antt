-- ===== src/Lanes/Landing.antt =====
-- How a lane ends that has been waiting: with its merge scheduled, and a pull request that is a day old.
use unifi_containers.Prelude.{
  ℕ, ◌+◌, ◌-◌, ◌≤◌, ◌≡◌, refl, ◌∙◌, ap, ◌⊎◌, inl, inr, Bool-cases, ◌==◌, ltb, Option, none, some,
  List, [], ◌∷◌, arith, if◌then◌else◌, Has,
}
use unifi_containers.Prelude.Results.{Result, ok, err, after}
use unifi_containers.Text.{Text, codes, text_eq, text_eq_sound}
use unifi_containers.Gitops.{Git}
use unifi_containers.Forge.{
  ForgeError, stalled, Forge, Pull, pull_from, already_scheduled, opened_of, open_pull_from,
  pull_opened_at, merge_answer, merge_when_green,
}
use unifi_containers.Lanes.{
  Bump, Calls, stale_after, time_open, found_pull, stall_answer, open_created, open_pull,
  check_not_stalled, land,
}

taken_or_later :
    (head : Text) (r : Option Text) (q p : Pull) (rest : Option Pull)
    → q.head ≡ r
    → elim r [ none ↦ rest | some ref ↦ if text_eq ref head then some q else rest ] ≡ some p
    → ((p ≡ q) × (p.head ≡ some head)) ⊎ (rest ≡ some p)
taken_or_later head none q p rest e h = inr h
taken_or_later head (some ref) q p rest e h = elim (Bool-cases (text_eq ref head)) [
  | inl same ↦
      let here : q ≡ p = cc (rw same at h) in
      let is_head : ref ≡ head = text_eq_sound ref head same in inl (cc, cc)
  | inr other ↦ inr (rw other at h)
]

-- The pull request that `pull_from` gives is listed, and from the branch.
pull_from_sound :
    (head : Text) (pulls : List Pull) (p : Pull)
    → pull_from head pulls ≡ some p
    → Has p pulls × (p.head ≡ some head)
unfolding pull_from
pull_from_sound head [] p h = cc
pull_from_sound head (q ∷ pulls) p h =
    elim (taken_or_later head q.head q p (pull_from head pulls) refl h) [
      | inl (here, from) ↦ (inl here, from)
      | inr later ↦ let (there, from) = pull_from_sound head pulls p later in (inr there, from)
    ]

stall_answer_old :
    {W : Type 0} (now : ℕ) (o : Option ℕ) (w t : W)
    → stall_answer now (o, w) ≡ (err stalled, t)
    → (opened_at : ℕ) × (o ≡ some opened_at) × (opened_at + stale_after ≤ now) × (w ≡ t)
unfolding stall_answer time_open
stall_answer_old now none w t h = cc
stall_answer_old now (some o) w t h = elim (Bool-cases (ltb (now - o) stale_after)) [
  | inl e ↦ cc (rw e at h)
  | inr e ↦ (o, refl, ground arith, ap (λ p. p.1) h)
]

-- A listed pull request from a branch that was opened a day or more before `now`.
pub record Waiting (head : Text) (now : ℕ) (pulls : List Pull) : Type 0 where
  pub pull : Pull
  pub opened_at : ℕ
  pub listed : Has pull pulls
  pub from : pull.head ≡ some head
  pub created : pull.created_at ≡ some opened_at
  pub old : opened_at + stale_after ≤ now

late_found :
    {W : Type 0} (head : Text) (now : ℕ) (pulls : List Pull) (p : Option Pull) (w t : W)
    → pull_from head pulls ≡ p
    → stall_answer now (opened_of (p, w)) ≡ (err stalled, t)
    → (w ≡ t) × Waiting head now pulls
unfolding opened_of
late_found head now pulls none w t e h =
    let (o, unlisted, _, _) = stall_answer_old now none w t h in absurd (cc unlisted)
late_found head now pulls (some pull) w t e h =
    let (opened_at, created, old, same) = stall_answer_old now pull.created_at w t h in
    let (listed, from) = pull_from_sound head pulls pull e in
    (
      same,
      record {
        pull = pull;
        opened_at = opened_at;
        listed = listed;
        from = from;
        created = created;
        old = old;
      },
    )

late_pull :
    {W : Type 0} (head : Text) (now : ℕ) (listed : Option (List Pull)) (w t : W)
    → stall_answer now (opened_of (elim listed [ none ↦ none | some ps ↦ pull_from head ps ], w))
      ≡ (err stalled, t)
    → (pulls : List Pull) × (listed ≡ some pulls) × (w ≡ t) × Waiting head now pulls
unfolding opened_of
late_pull head now none w t h =
    let (o, unlisted, _, _) = stall_answer_old now none w t h in absurd (cc unlisted)
late_pull head now (some pulls) w t h =
    let (same, waiting) = late_found head now pulls (pull_from head pulls) w t refl h in
    (pulls, refl, same, waiting)

module _ (G : Git) (C : Calls G) (client : Forge) where
  -- The pull request has a number and its merge is scheduled, and the list of the forge has one from
  -- the bump's branch that is a day old.
  pub record Stalled (b : Bump) (w t : G.W) : Type 0 where
    pub number : ℕ
    pub found_at : G.W
    pub asked_at : G.W
    pub was_opened : open_pull G C client b w ≡ (ok number, found_at)
    pub was_scheduled :
        merge_when_green C.api client number (codes "rebase") found_at ≡ (ok tt, asked_at)
    pub pulls : List Pull
    pub was_listed : C.api.list_open client asked_at ≡ (some pulls, t)
    pub waiting : Waiting b.branch C.now pulls

  found_not_stalled : (p : Option ℕ × G.W) (t : G.W) → ¬ (found_pull p ≡ (err stalled, t))
  unfolding found_pull
  found_not_stalled (some n, m) t k = cc
  found_not_stalled (none, m) t k = cc

  open_not_stalled :
      (b : Bump) (p : Option ℕ × G.W) (t : G.W) → ¬ (open_created G C client b p ≡ (err stalled, t))
  unfolding open_created
  open_not_stalled b (some n, w) t h = cc
  open_not_stalled b (none, w) t h = found_not_stalled _ t h

  merge_not_stalled : (p : Option ℕ × G.W) (t : G.W) → ¬ (merge_answer p ≡ (err stalled, t))
  unfolding merge_answer
  merge_not_stalled (none, w) t h = cc
  merge_not_stalled (some status, w) t h = elim (Bool-cases (status == already_scheduled)) [
    | inl e ↦ cc (rw e at h)
    | inr e ↦ cc (rw e at h)
  ]

  merge_stalls :
      (b : Bump) (n : ℕ) (w m t : G.W) (p : Result ForgeError (Unit {0}) × G.W)
      → open_pull G C client b w ≡ (ok n, m)
      → merge_when_green C.api client n (codes "rebase") m ≡ p
      → after p (λ _ w2. check_not_stalled G C client b w2) ≡ (err stalled, t)
      → Stalled b w t
  unfolding merge_when_green check_not_stalled pull_opened_at open_pull_from
  merge_stalls b n w m t (ok u, k) e1 e2 h =
      let asked = C.api.list_open client k in
      let (pulls, listed, same, waiting) = late_pull b.branch C.now asked.0 asked.1 t h in
      record {
        number = n;
        found_at = m;
        asked_at = k;
        was_opened = e1;
        was_scheduled = e2;
        pulls = pulls;
        was_listed = ap (λ x. (x, asked.1)) listed ∙ ap (λ x. (some pulls, x)) same;
        waiting = waiting;
      }
  merge_stalls b n w m t (err e, k) e1 e2 h =
      absurd (merge_not_stalled (C.api.merge_call client n (codes "rebase") m) t (e2 ∙ h))

  open_stalls :
      (b : Bump) (w t : G.W) (p : Result ForgeError ℕ × G.W)
      → open_pull G C client b w ≡ p
      → after p (λ n w1.
        after
          (merge_when_green C.api client n (codes "rebase") w1)
          (λ _ w2. check_not_stalled G C client b w2))
        ≡ (err stalled, t)
      → Stalled b w t
  unfolding open_pull
  open_stalls b w t (ok n, m) e h =
      merge_stalls b n w m t (merge_when_green C.api client n (codes "rebase") m) e refl h
  open_stalls b w t (err x, m) e h =
      let ex : x ≡ stalled = cc in
      let same : m ≡ t = ap (λ q. q.1) h in
      absurd
        (open_not_stalled b _ t (e ∙ ap (λ y. (err y, m)) ex ∙ ap (λ y. (err stalled, y)) same))

  -- A lane that reports a stall has scheduled the merge of its pull request before it does, and the
  -- forge lists a pull request from the bump's branch that was opened a day ago or earlier.
  pub land_stalled : (b : Bump) (w t : G.W) → land G C client b w ≡ (err stalled, t) → Stalled b w t
  unfolding land
  land_stalled b w t h = open_stalls b w t (open_pull G C client b w) refl h
