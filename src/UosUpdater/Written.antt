-- ===== src/UosUpdater/Written.antt =====
-- The pins that a bump leaves.
use unifi_containers.Prelude.{
  subst, not, ◌&&◌, ◌≡◌, refl, ap, sym, ◌∙◌, inl, inr, Bool, true, false, Option, none, some, List,
  [], ◌∷◌, ◌++◌, if◌then◌else◌, All, Bool-cases,
}
use unifi_containers.Prelude.Results.{Result, ok, err, ◌>>=◌, >>=-eq-ok, Result-cases, ok-injective}
use unifi_containers.Text.{Text, codes, strip, text_eq, text_eq_sound}
use unifi_containers.Text.Lines.Replace.{IsLine}
use unifi_containers.UosUpdater.{
  UosError, UosRelease, sub_pin, sub_pins, pin_prefix, rewrite_pins, rewrite_readme, releases_url,
  check_versions_match, parse_release, parse_app_version, not_pinned, uos_version, url_amd64,
  sha256_amd64, url_arm64, sha256_arm64, app_pin,
}
use unifi_containers.Packaging.{Versions}
use unifi_containers.UosUpdater.Bump.{
  Found, Files, Feeds, pins_text, write_readme, write_found, or_raise, pin_or_empty,
  uos_version_moved, app_version_moved, found_moved, found_app, found_out, bump_found, bump,
  answered, changed_version,
}
use unifi_containers.UosUpdater.Lines.{
  is_line, is_line-IsLine, pin_of, pin_of-sub_pin, pin_of-sub_pin_other,
}

-- A pin is named and valued on one line.
abbrev pub IsPin : Text × Text → Type 0
IsPin p = IsLine (pin_prefix p.0) × IsLine p.1

-- No line can be the assignment of one and of the other.
abbrev pub Apart : Text → Text × Text → Type 0
Apart other p = (x : Text) → strip (pin_prefix other) (pin_prefix p.0 ++ x) ≡ none

-- Each pin is apart from those behind it.
abbrev pub AllApart : List (Text × Text) → Type 0
AllApart [] = Unit
AllApart (p ∷ ps) = All (Apart p.0) ps × AllApart ps

-- A pin that is apart from all of them is read as before.
sub_pins_other :
    (other : Text) (ps : List (Text × Text)) (text text' : Text)
    → All IsPin ps
    → All (Apart other) ps
    → sub_pins ps text ≡ ok text'
    → pin_of other text' ≡ pin_of other text
unfolding sub_pins
sub_pins_other other [] text text' lines apart done = ap (pin_of other) (sym (ok-injective done))
sub_pins_other other ((key, value) ∷ ps) text text' ((whole, line), lines) (first, apart) done =
    let (mid, now, later) = >>=-eq-ok (sub_pin key value text) (sub_pins ps) done in
    sub_pins_other other ps mid text' lines apart later
    ∙ pin_of-sub_pin_other key value text whole line now other first

-- Each of them is read back.
sub_pins_read :
    (ps : List (Text × Text)) (text text' : Text)
    → All IsPin ps
    → AllApart ps
    → sub_pins ps text ≡ ok text'
    → All (λ p. pin_of p.0 text' ≡ some p.1) ps
unfolding sub_pins
sub_pins_read [] text text' lines apart done = tt
sub_pins_read ((key, value) ∷ ps) text text' ((whole, line), lines) (first, apart) done =
    let (mid, now, later) = >>=-eq-ok (sub_pin key value text) (sub_pins ps) done in
    (
      sub_pins_other key ps mid text' lines first later
          ∙ pin_of-sub_pin key value text whole line now,
      sub_pins_read ps mid text' lines apart later,
    )

-- The pins of a release.
abbrev pub release_pins : UosRelease → UosRelease → List (Text × Text)
release_pins amd64 arm64 =
    (uos_version, amd64.version)
    ∷ (url_amd64, amd64.url)
    ∷ (sha256_amd64, amd64.sha256)
    ∷ (url_arm64, arm64.url)
    ∷ (sha256_arm64, arm64.sha256)
    ∷ []

release_pins-AllApart : (a m : UosRelease) → AllApart (release_pins a m)
unfolding strip pin_prefix
release_pins-AllApart a m = (
  (λ x. refl, (λ x. refl, (λ x. refl, (λ x. refl, tt)))),
  (
    (λ x. refl, (λ x. refl, (λ x. refl, tt))),
    ((λ x. refl, (λ x. refl, tt)), ((λ x. refl, tt), (tt, tt))),
  ),
)

app_pin-IsLine : IsLine (pin_prefix app_pin)
unfolding pin_prefix is_line
app_pin-IsLine = is_line-IsLine (pin_prefix app_pin) refl

-- The last pin leaves the others.
app_pin_last :
    (app mid text : Text) (ps : List (Text × Text))
    → IsLine app
    → All (λ p. Apart p.0 (app_pin, app)) ps
    → sub_pin app_pin app mid ≡ ok text
    → All (λ p. pin_of p.0 mid ≡ some p.1) ps
    → All (λ p. pin_of p.0 text ≡ some p.1) ps
app_pin_last app mid text [] line apart done read = tt
app_pin_last app mid text ((key, value) ∷ ps) line (first, apart) done (now, read) = (
  pin_of-sub_pin_other app_pin app mid app_pin-IsLine line done key first ∙ now,
  app_pin_last app mid text ps line apart done read,
)

-- The fields of both releases, and the version of the application, stand on one line.
pub record OnLines (a m : UosRelease) (app : Text) : Type 0 where
  pub version : IsLine a.version
  pub urls : IsLine a.url × IsLine m.url
  pub checksums : IsLine a.sha256 × IsLine m.sha256
  pub app_version : IsLine app

release_pins-IsPin :
    (a m : UosRelease) (app : Text) → OnLines a m app → All IsPin (release_pins a m)
unfolding pin_prefix is_line
release_pins-IsPin a m app o =
    let key_line : (k : Text) → is_line (pin_prefix k) ≡ true → IsLine (pin_prefix k) =
      λ k e. is_line-IsLine (pin_prefix k) e in
    (
      (key_line uos_version refl, o.version),
      (
        (key_line url_amd64 refl, o.urls.0),
        (
          (key_line sha256_amd64 refl, o.checksums.0),
          ((key_line url_arm64 refl, o.urls.1), ((key_line sha256_arm64 refl, o.checksums.1), tt)),
        ),
      ),
    )

release-Apart_app :
    (a m : UosRelease) (app : Text) → All (λ p. Apart p.0 (app_pin, app)) (release_pins a m)
unfolding strip pin_prefix
release-Apart_app a m app = (λ x. refl, (λ x. refl, (λ x. refl, (λ x. refl, (λ x. refl, tt)))))

abbrev pub release_keys : List Text
release_keys = uos_version ∷ url_amd64 ∷ sha256_amd64 ∷ url_arm64 ∷ sha256_arm64 ∷ []

keys_kept :
    (app text text' : Text) (keys : List Text)
    → IsLine app
    → All (λ k. Apart k (app_pin, app)) keys
    → sub_pin app_pin app text ≡ ok text'
    → All (λ k. pin_of k text' ≡ pin_of k text) keys
keys_kept app text text' [] line apart done = tt
keys_kept app text text' (k ∷ keys) line (first, apart) done = (
  pin_of-sub_pin_other app_pin app text app_pin-IsLine line done k first,
  keys_kept app text text' keys line apart done,
)

-- What is written: the version of the application, and the release if it has moved. If it has not,
-- its pins and the README stay.
abbrev pub Written : UosRelease → UosRelease → Text → Bool → Files → Files → Type 0
Written a m app moved files files' =
    (pin_of app_pin files'.pins ≡ some app)
    × (if moved
        then All (λ p. pin_of p.0 files'.pins ≡ some p.1) (release_pins a m)
        else (All (λ k. pin_of k files'.pins ≡ pin_of k files.pins) release_keys
            × (files'.readme ≡ files.readme)))

by_cases : (b : Bool) (P Q : Type 0) → (b ≡ true → P) → (b ≡ false → Q) → if b then P else Q
by_cases true P Q h k = h refl
by_cases false P Q h k = k refl

written_moved :
    (a m : UosRelease) (app : Text) (text text' : Text)
    → OnLines a m app
    → (do mid ← rewrite_pins text a.version a m; sub_pin app_pin app mid) ≡ ok text'
    → (pin_of app_pin text' ≡ some app) × All (λ p. pin_of p.0 text' ≡ some p.1) (release_pins a m)
unfolding rewrite_pins
written_moved a m app text text' o done =
    let (mid, first, last) =
      >>=-eq-ok (sub_pins (release_pins a m) text) (sub_pin app_pin app) done in
    (
      pin_of-sub_pin app_pin app mid app_pin-IsLine o.app_version last,
      app_pin_last app mid text' (release_pins a m) o.app_version (release-Apart_app a m app) last (
          sub_pins_read (release_pins a m) text mid (release_pins-IsPin a m app o)
            (release_pins-AllApart a m) first),
    )

release_keys-Apart_app : (app : Text) → All (λ k. Apart k (app_pin, app)) release_keys
unfolding strip pin_prefix
release_keys-Apart_app app = (λ x. refl, (λ x. refl, (λ x. refl, (λ x. refl, (λ x. refl, tt)))))

module _ (V : Versions) (dotenv : Text → Text → Option Text) where
  abbrev found : UosRelease → UosRelease → Text → Bool → Bool → Found V dotenv
  found a m app moved app_moved = record {
    amd64 = a;
    arm64 = m;
    app = app;
    uos_moved = moved;
    app_moved = app_moved;
  }

  write_readme-ok :
      (a m : UosRelease) (app : Text) (moved app_moved : Bool) (files files' : Files)
      → write_readme V dotenv (found a m app moved app_moved) files ≡ (ok tt, files')
      → (files'.pins ≡ files.pins) × (moved ≡ false → files'.readme ≡ files.readme)
  unfolding write_readme
  write_readme-ok a m app false app_moved files files' h =
      (ap (λ p. p.1.pins) (sym h), λ kept. ap (λ p. p.1.readme) (sym h))
  write_readme-ok a m app true app_moved files files' h =
      elim (Result-cases (rewrite_readme files.readme a.version releases_url)) [
        | inl (readme, e) ↦
            let h' = rw (e, write_readme) at h in (ap (λ p. p.1.pins) (sym h'), λ kept. cc)
        | inr (problem, e) ↦ let h' = rw (e, write_readme) at h in absurd (cc (ap (λ p. p.0) h'))
      ]

  pins-Written :
      (a m : UosRelease) (app : Text) (moved app_moved : Bool) (text text' : Text)
      → OnLines a m app
      → pins_text V dotenv (found a m app moved app_moved) text ≡ ok text'
      → (pin_of app_pin text' ≡ some app)
        × (moved ≡ true → All (λ p. pin_of p.0 text' ≡ some p.1) (release_pins a m))
        × (moved ≡ false → All (λ k. pin_of k text' ≡ pin_of k text) release_keys)
  unfolding pins_text
  pins-Written a m app true app_moved text text' o h =
      let (last, others) = written_moved a m app text text' o h in
      (last, λ on. others, λ off. absurd (cc (off)))
  pins-Written a m app false app_moved text text' o h = (
    pin_of-sub_pin app_pin app text app_pin-IsLine o.app_version h,
    λ on. absurd (cc (on)),
    λ off. keys_kept app text text' release_keys o.app_version (release_keys-Apart_app app) h,
  )

  write_found-Written :
      (f : Found V dotenv) (files files' : Files)
      → OnLines f.amd64 f.arm64 f.app
      → write_found V dotenv f files ≡ (ok tt, files')
      → Written f.amd64 f.arm64 f.app f.uos_moved files files'
  unfolding write_found
  write_found-Written f files files' o h = elim (Result-cases (pins_text V dotenv f files.pins)) [
    | inr (problem, e) ↦ let h' = rw (e, write_found) at h in absurd (cc (ap (λ p. p.0) h'))
    | inl (pins, e) ↦
        let h' = rw (e, write_found) at h in
        let (same, readme) =
          write_readme-ok f.amd64 f.arm64 f.app f.uos_moved f.app_moved
            (record { pins = pins; readme = files.readme }) files' h' in
        let (app, moved, kept) =
          pins-Written f.amd64 f.arm64 f.app f.uos_moved f.app_moved files.pins pins o e in
        (
          ap (pin_of app_pin) same ∙ app,
          by_cases f.uos_moved _ _
              (λ on.
                subst (λ t. All (λ p. pin_of p.0 t ≡ some p.1) (release_pins f.amd64 f.arm64))
                  (sym same) (moved on))
              (λ off. (
                subst (λ t. All (λ k. pin_of k t ≡ pin_of k files.pins) release_keys) (sym same)
                    (kept off),
                readme off,
              )),
        )
  ]

  answered-ok :
      (f : Found V dotenv) (p : Result UosError (Unit {0}) × Files) (v : Text) (files' : Files)
      → answered V dotenv f p ≡ (ok (some v), files')
      → (p ≡ (ok tt, files')) × (v ≡ changed_version V dotenv f)
  unfolding answered
  answered-ok f (ok _, files) v files' h = (ap (λ q. (ok tt, q.1)) h, cc (ap (λ q. q.0) h))
  answered-ok f (err e, files) v files' h = absurd (cc (ap (λ q. q.0) h))

  match-ok :
      (a m : UosRelease) {u : Unit {0}} → check_versions_match a m ≡ ok u → a.version ≡ m.version
  unfolding check_versions_match
  match-ok a m h = elim (Bool-cases (text_eq a.version m.version)) [
    | inl e ↦ text_eq_sound a.version m.version e
    | inr e ↦ let h' = rw (e, check_versions_match) at h in absurd (cc (h'))
  ]

  moved-releases :
      (files : Files) (current : Text) (a m : UosRelease) (app : Text) (f : Found V dotenv)
      → found_moved V dotenv files current a m app ≡ ok f
      → (f.amd64 ≡ a) × (f.arm64 ≡ m)
  unfolding found_moved
  moved-releases files current a m app f h =
      let old : Text = pin_or_empty (dotenv files.pins app_pin) in
      let (u, _, h1) =
        >>=-eq-ok (uos_version_moved V dotenv current a.version)
          (λ u. app_version_moved V dotenv old app >>= λ p. ok (found a m app u p)) h in
      let (p, _, h2) =
        >>=-eq-ok (app_version_moved V dotenv old app) (λ p. ok (found a m app u p)) h1 in
      (
        ap (λ (x : Found V dotenv). x.amd64) (sym (ok-injective h2)),
        ap (λ (x : Found V dotenv). x.arm64) (sym (ok-injective h2)),
      )

  app-matched :
      (feeds : Feeds) (files : Files) (current : Text) (a m : UosRelease) (f : Found V dotenv)
      → found_app V dotenv feeds files current a m ≡ ok f
      → f.amd64.version ≡ f.arm64.version
  unfolding found_app
  app-matched feeds files current a m f h =
      let rest : Text → Result UosError (Found V dotenv) =
        λ app. found_moved V dotenv files current a m app in
      let (_, same, h1) =
        >>=-eq-ok (check_versions_match a m) (λ _. parse_app_version feeds.app >>= rest) h in
      let (app, _, h2) = >>=-eq-ok (parse_app_version feeds.app) rest h1 in
      let (ea, em) = moved-releases files current a m app f h2 in
      ap (λ (x : UosRelease). x.version) ea
      ∙ match-ok a m same
      ∙ ap (λ (x : UosRelease). x.version) (sym em)

  found_out-matched :
      (feeds : Feeds) (files : Files) (f : Found V dotenv)
      → found_out V dotenv feeds files ≡ ok f
      → f.amd64.version ≡ f.arm64.version
  unfolding found_out
  found_out-matched feeds files f h =
      let amd64 : Result UosError UosRelease = parse_release feeds.amd64 (codes "linux-x64") in
      let arm64 : Result UosError UosRelease = parse_release feeds.arm64 (codes "linux-arm64") in
      let (current, _, h1) =
        >>=-eq-ok (or_raise not_pinned (dotenv files.pins uos_version))
          (λ current. amd64 >>= λ a. arm64 >>= λ m. found_app V dotenv feeds files current a m) h in
      let (a, _, h2) =
        >>=-eq-ok amd64 (λ a. arm64 >>= λ m. found_app V dotenv feeds files current a m) h1 in
      let (m, _, h3) = >>=-eq-ok arm64 (λ m. found_app V dotenv feeds files current a m) h2 in
      app-matched feeds files current a m f h3

  -- If a bump that writes has found out what is new, on one line each, and returns a version, it is
  -- the new release if that has moved, which both platforms have, and else the application. The
  -- pins then have the application and, if it has moved, the release of both platforms, with their
  -- addresses and checksums; if it has not, its pins and the README stay.
  pub bump-Written :
      (feeds : Feeds) (files files' : Files) (f : Found V dotenv) (v : Text)
      → found_out V dotenv feeds files ≡ ok f
      → OnLines f.amd64 f.arm64 f.app
      → bump V dotenv true feeds files ≡ (ok (some v), files')
      → (v ≡ (if f.uos_moved then f.amd64.version else f.app))
        × (f.amd64.version ≡ f.arm64.version)
        × Written f.amd64 f.arm64 f.app f.uos_moved files files'
  unfolding bump bump_found changed_version
  bump-Written feeds files files' f v found lines done =
      let h : bump_found V dotenv true f files ≡ (ok (some v), files') = rw (found, bump) at done in
      elim (Bool-cases (not f.uos_moved && not f.app_moved)) [
        | inl still ↦ let h' = rw (still, bump_found) at h in absurd (cc (ap (λ q. q.0) h'))
        | inr moved ↦
            let (written, version) =
              answered-ok f (write_found V dotenv f files) v files' (rw (moved, bump_found) at h) in
            (
              version,
              found_out-matched feeds files f found,
              write_found-Written f files files' lines written,
            )
      ]
