-- ===== src/Cut/Published.antt =====
-- What `cut` has done when it returns: which tags it has made, and that each push was confirmed.
use unifi_containers.Prelude.{
  ◌≡◌, refl, subst, sym, ap, ◌↔◌, ◌≢◌, inl, inr, Bool, true, false, Option, none, some, List, [],
  ◌∷◌, ◌++◌, arith, Bool-cases,
}
use unifi_containers.Prelude.Results.{Result, ok, err, after, after-eq-ok}
use unifi_containers.Prelude.Loops
use unifi_containers.Prelude.Loops.{Runs, for_each_iff}
use unifi_containers.Packaging.{Versions}
use unifi_containers.Failure.{Failure, git_error}
use unifi_containers.Text.{Text, is_in}
use unifi_containers.Release.{Release, git_tag}
use unifi_containers.Gitops
use unifi_containers.Gitops.{Git, Report, tags_prefix, accepted, rejected, verdict}
use unifi_containers.Cut.{publish_one, publish, finish, choose_all, cut}

-- The remote took every update that it reported, and reported at least one.
pub record Confirmed (o : Option (List Report)) : Type 0 where
  pub reports : List Report
  pub reported : o ≡ some reports
  pub none_rejected : rejected reports ≡ []
  pub some_accepted : accepted reports ≢ []

-- A push ends well exactly if the remote confirms it.
pub verdict_iff : (o : Option (List Report)) → (verdict o ≡ ok tt) ↔ Confirmed o
unfolding verdict
verdict_iff none = (λ h. cc, λ c. cc (c.reported))
verdict_iff (some reports) = (there (rejected reports) (accepted reports) refl refl, back)
  where
    there :
        (rs bs : List Text)
        → rejected reports ≡ rs
        → accepted reports ≡ bs
        → ◌≡◌ {A = Result Failure (Unit {0})}
            (elim rs [
              | r ∷ more ↦ err git_error
              | [] ↦ elim bs [ a ∷ more ↦ ok tt | [] ↦ err git_error ]
            ])
            (ok tt)
        → Confirmed (some reports)
    there (r ∷ rs) bs er ea h = cc
    there [] [] er ea h = cc
    there [] (a ∷ bs) er ea h = record {
      reports = reports;
      reported = refl;
      none_rejected = er;
      some_accepted = λ e. cc;
    }

    back_from :
        (rs bs : List Text)
        → rs ≡ []
        → bs ≢ []
        → ◌≡◌ {A = Result Failure (Unit {0})}
            (elim rs [
              | r ∷ more ↦ err git_error
              | [] ↦ elim bs [ a ∷ more ↦ ok tt | [] ↦ err git_error ]
            ])
            (ok tt)
    back_from (r ∷ rs) bs er eb = cc
    back_from [] [] er eb = absurd (eb refl)
    back_from [] (b ∷ bs) er eb = refl

    back : Confirmed (some reports) → verdict (some reports) ≡ ok tt
    back c =
        let same : c.reports ≡ reports = cc (c.reported) in
        back_from (rejected reports) (accepted reports)
          (subst (λ x. rejected x ≡ []) same c.none_rejected)
          (subst (λ x. accepted x ≢ []) same c.some_accepted)

module _ (G : Git) (url : Text) (r : Release) (s t : G.W) where
  -- The tag of `r` was not there and is made, and the remote confirms its push.
  pub record PublishedOne : Type 0 where
    pub absent : is_in (tags_prefix ++ git_tag r) (G.references s) ≡ false
    pub answer : Option (List Report)
    pub pushed :
        G.push_refspec url (tags_prefix ++ git_tag r) (G.create_ref (tags_prefix ++ git_tag r) s)
        ≡ (answer, t)
    pub confirmed : Confirmed answer

publish_one_sound :
    (G : Git) (url : Text) (r : Release) (s t : G.W)
    → publish_one G url r s ≡ (ok tt, t)
    → PublishedOne G url r s t
unfolding publish_one Gitops.create_tag Gitops.push
publish_one_sound G url r s t h =
    elim (Bool-cases (is_in (tags_prefix ++ git_tag r) (G.references s))) [
      | inl there ↦ cc (rw (there, publish_one) at h)
      | inr absent ↦
          let h' = rw (absent, publish_one) at h in
          let answer =
            G.push_refspec url (tags_prefix ++ git_tag r)
              (G.create_ref (tags_prefix ++ git_tag r) s) in
          record {
            absent = absent;
            answer = answer.0;
            pushed = ap (λ x. (answer.0, x)) (ap (λ (x : Result Failure (Unit {0}) × G.W). x.1) h');
            confirmed =
                (verdict_iff answer.0).0 (ap (λ (x : Result Failure (Unit {0}) × G.W). x.0) h');
          }
    ]

module _ (G : Git) (url : Text) where
  -- The releases are published one after the other.
  pub data Published : List Release → G.W → G.W → Type 0 where
    none_left : {s t : G.W} → s ≡ t → Published [] s t
    next :
        {r : Release} {rs : List Release} {s m t : G.W}
        → PublishedOne G url r s m
        → Published rs m t
        → Published (r ∷ rs) s t

  Runs-Published :
      (rs : List Release) (s t : G.W) → Runs (publish_one G url) rs s t → Published rs s t
  Runs-Published [] s t (Loops.done e) = none_left e
  Runs-Published (r ∷ rs) s t (Loops.next {m = m} made rest) =
      next (publish_one_sound G url r s m made) (Runs-Published rs m t rest)

finish_pushed :
    (G : Git) (url : Text) (chosen : Result Failure (List Release)) (w t : G.W) (rs : List Release)
    → finish G url true chosen w ≡ (ok rs, t)
    → (chosen ≡ ok rs) × Runs (publish_one G url) rs w t
unfolding finish publish
finish_pushed G url (err e) w t rs h = cc
finish_pushed G url (ok []) w t rs h =
    let e : [] ≡ rs = ground arith in
    let f : w ≡ t = ground arith in
    (ap ok e, subst (λ x. Runs (publish_one G url) x w t) e (Loops.done f))
finish_pushed G url (ok (r ∷ items)) w t rs h =
    let (_, m, ran, made) =
      after-eq-ok (publish G url (r ∷ items) w) (λ _ w'. (ok (r ∷ items), w')) h in
    let e : (r ∷ items) ≡ rs = ground arith in
    let f : m ≡ t = ground arith in
    (
      ap ok e,
      subst (λ x. Runs (publish_one G url) x w t) e
          (subst (λ x. Runs (publish_one G url) (r ∷ items) w x) f
            ((for_each_iff (publish_one G url) (r ∷ items) w m).0 ran)),
    )

finish_dry :
    (G : Git) (url : Text) (chosen : Result Failure (List Release)) (w : G.W)
    → (finish G url false chosen w).1 ≡ w
unfolding finish
finish_dry G url (err e) w = refl
finish_dry G url (ok []) w = refl
finish_dry G url (ok (r ∷ rs)) w = refl

dry_after :
    (G : Git) (url : Text) (p : Result Failure (Unit {0}) × G.W)
    (chosen : G.W → Result Failure (List Release))
    → (after p (λ _ w1. finish G url false (chosen w1) w1)).1 ≡ p.1
dry_after G url (err e, w) chosen = refl
dry_after G url (ok u, w) chosen = finish_dry G url (chosen w) w

module _ (V : Versions) (G : Git) (dotenv : Text → Text → Option Text) (files : Text → Option Text)
    (url : Text) where
  -- When `cut` with `push` returns releases, they are those that were due after the fetch of the
  -- tags, and it has published them in order: the tag of each was not there, was made on what the
  -- earlier ones left, and its push was answered by a report of the remote that names an accepted
  -- reference and no rejected one.
  pub cut_pushed :
      (products : List Text) (rebuild : Bool) (w t : G.W) (rs : List Release)
      → cut V G dotenv files url products true rebuild w ≡ (ok rs, t)
      → let w1 = (Gitops.fetch_tags G url w).1 in
        (choose_all V G dotenv files rebuild (Gitops.tags G w1) w1 products ≡ ok rs)
        × Published G url rs w1 t
  unfolding cut
  cut_pushed products rebuild w t rs h =
      let (_, m, fetched, rest) = after-eq-ok (Gitops.fetch_tags G url w) _ h in
      let e : m ≡ (Gitops.fetch_tags G url w).1 =
        ap (λ (x : Result Failure (Unit {0}) × G.W). x.1) (sym fetched) in
      subst
        (λ w1.
          (choose_all V G dotenv files rebuild (Gitops.tags G w1) w1 products ≡ ok rs)
          × Published G url rs w1 t)
        e
        (let (due, ran) = finish_pushed G url _ m t rs rest in
          (due, Runs-Published G url rs m t ran))

  -- Without `push` the repository is left as the fetch of the tags left it.
  pub cut_dry :
      (products : List Text) (rebuild : Bool) (w : G.W)
      → (cut V G dotenv files url products false rebuild w).1 ≡ (Gitops.fetch_tags G url w).1
  unfolding cut
  cut_dry products rebuild w =
      dry_after G url (Gitops.fetch_tags G url w)
        (λ w1. choose_all V G dotenv files rebuild (Gitops.tags G w1) w1 products)
