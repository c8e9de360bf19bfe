-- ===== src/Updater/Settled.antt =====
-- A bump of updaters/network.py that is done, and the one after it.
use unifi_containers.Prelude.{
  ◌≡◌, refl, ◌∙◌, sym, ap, Bool-cases, inl, inr, Bool, true, false, Option, none, some, List, [],
  ◌∷◌, All, subst, if◌then◌else◌,
}
use unifi_containers.Prelude.Results.{Result, ok, err, >>=-eq-ok}
use unifi_containers.Text.{Text, codes}
use unifi_containers.Text.Decimal.{decimal, decimal-IsNumber}
use unifi_containers.Text.Row.{rewrite_row}
use unifi_containers.Text.Scan.{IsVersion}
use unifi_containers.Packaging.{Versions, IsOrdered}
use unifi_containers.Updater.{
  Firmware, Pins, version_of, is_field, is_sha256, read_pins, ga_versions, build_pkgurl,
  checksum_for, bump_dockerfile,
}
use unifi_containers.Updater.Bump.{
  BumpError, bad_version, no_pins, Downloads, Files, or_raise, highest_from, highest,
  parse_ga_version, newer, due, network_row, release_notes_link, write_row, write_pins, bump,
}
use unifi_containers.Updater.Pinned.{verify-rewrite_dockerfile}

version_of-IsVersion : (e : Firmware) → IsVersion (version_of e)
unfolding version_of
version_of-IsVersion e = record {
  major = decimal e.major;
  minor = decimal e.minor;
  patch = decimal e.patch;
  major_number = decimal-IsNumber e.major;
  minor_number = decimal-IsNumber e.minor;
  patch_number = decimal-IsNumber e.patch;
  parts = refl;
}

ga_versions-All : (firmware : List Firmware) → All IsVersion (ga_versions firmware)
unfolding ga_versions
ga_versions-All [] = tt
ga_versions-All (e ∷ firmware) = elim (Bool-cases (is_field e.channel (codes "release"))) [
  | inl h ↦ rw h (version_of-IsVersion e, ga_versions-All firmware)
  | inr h ↦ rw h (ga_versions-All firmware)
]

module _ (V : Versions) where
  -- One of the two that the search goes on with is a version, if both are.
  kept-IsVersion :
      (b : Bool) (p q : Text × V.Key)
      → IsVersion p.0
      → IsVersion q.0
      → IsVersion (if b then p else q).0
  kept-IsVersion true p q hp hq = hp
  kept-IsVersion false p q hp hq = hq

  highest_from_step :
      (t u v : Text) (k : V.Key) (us : List Text) (r : Option V.Key)
      → V.read u ≡ r
      → highest_from V (t, k) (u ∷ us) ≡ ok v
      → (j : V.Key) × (highest_from V (if V.lt k j then (u, j) else (t, k)) us ≡ ok v)
  unfolding highest_from
  highest_from_step t u v k us none e h = absurd (cc (rw (e, highest_from) at h))
  highest_from_step t u v k us (some j) e h = (j, rw (e, highest_from) at h)

  highest_from-IsVersion :
      (best : Text × V.Key) (us : List Text) (v : Text)
      → IsVersion best.0
      → All IsVersion us
      → highest_from V best us ≡ ok v
      → IsVersion v
  unfolding highest_from
  highest_from-IsVersion (t, k) [] v ht hs h = let same : t ≡ v = cc in subst IsVersion same ht
  highest_from-IsVersion (t, k) (u ∷ us) v ht (hu, hs) h =
      let (j, later) = highest_from_step t u v k us (V.read u) refl h in
      highest_from-IsVersion (if V.lt k j then (u, j) else (t, k)) us v
        (kept-IsVersion (V.lt k j) (u, j) (t, k) hu ht) hs later

  highest-IsVersion :
      (ts : List Text) (v : Text) → All IsVersion ts → highest V ts ≡ ok v → IsVersion v
  unfolding highest
  highest-IsVersion [] v hs h = absurd (cc h)
  highest-IsVersion (t ∷ ts) v (ht, hs) h = from (V.read t) h
    where
      from :
          (r : Option V.Key)
          → elim r [ none ↦ err bad_version | some k ↦ highest_from V (t, k) ts ] ≡ ok v
          → IsVersion v
      from none e = absurd (cc e)
      from (some k) e = highest_from-IsVersion (t, k) ts v ht hs e

  or_raise-eq-ok :
      {A : Type 0} (e : BumpError) (o : Option A) (a : A) → or_raise e o ≡ ok a → o ≡ some a
  unfolding or_raise
  or_raise-eq-ok e none a h = absurd (cc h)
  or_raise-eq-ok e (some b) a h = cc

  -- A version that is due is what `parse_ga_version` chose, and `Version` reads it.
  due_sound :
      (d : Downloads) (dockerfile v : Text)
      → due V d dockerfile ≡ ok (some v)
      → (parse_ga_version V d.ga ≡ ok v) × (k : V.Key) × (V.read v ≡ some k)
  unfolding due newer
  due_sound d dockerfile v h =
      let (pins, _, h1) = >>=-eq-ok (or_raise no_pins (read_pins dockerfile)) _ h in
      let (version, chosen, h2) = >>=-eq-ok (parse_ga_version V d.ga) _ h1 in
      let (a, seen, h3) = >>=-eq-ok (or_raise bad_version (V.read version)) _ h2 in
      let (b, _, h4) = >>=-eq-ok (or_raise bad_version (V.read pins.version)) _ h3 in
      let same : version ≡ v = picked (V.lt b a) version v h4 in
      (
        chosen ∙ ap ok same,
        a,
        ap V.read (sym same) ∙ or_raise-eq-ok bad_version (V.read version) a seen,
      )
    where
      picked :
          (b : Bool) (version v : Text)
          → ◌≡◌ {A = Result BumpError (Option Text)}
              (ok (if b then some version else none))
              (ok (some v))
          → version ≡ v
      picked true version v h = cc
      picked false version v h = absurd (cc h)

  -- With the chosen version in the Dockerfile, nothing is due.
  due_after :
      (order : IsOrdered V) (d : Downloads) (dockerfile v : Text) (pins : Pins) (k : V.Key)
      → read_pins dockerfile ≡ some pins
      → pins.version ≡ v
      → parse_ga_version V d.ga ≡ ok v
      → V.read v ≡ some k
      → due V d dockerfile ≡ ok none
  unfolding due newer or_raise
  due_after order d dockerfile v pins k read at chosen seen =
      rw (read, chosen, at, seen, order.lt_irrefl k) refl

  row_written :
      (d : Downloads) (version v : Text) (files after : Files) (r : Option Text)
      → rewrite_row network_row files.readme version (release_notes_link d.feed version) ≡ r
      → write_row V d version files ≡ (ok (some v), after)
      → (version ≡ v) × (files.dockerfile ≡ after.dockerfile)
  unfolding write_row
  row_written d version v files after none e h =
      absurd (cc (ap (λ p. p.0) (rw (e, write_row) at h)))
  row_written d version v files after (some readme) e h =
      let k = rw (e, write_row) at h in
      let answer : ◌≡◌ {A = Result BumpError (Option Text)} (ok (some version)) (ok (some v)) =
        ap (λ p. p.0) k in
      (cc answer, ap (λ p. p.1.dockerfile) k)

  pins_written :
      (d : Downloads) (version v : Text) (files after : Files) (r : Option Text)
      → bump_dockerfile d.hash d.deb files.dockerfile version ≡ r
      → write_pins V d version files ≡ (ok (some v), after)
      → (version ≡ v) × (r ≡ some after.dockerfile)
  unfolding write_pins
  pins_written d version v files after none e h =
      absurd (cc (ap (λ p. p.0) (rw (e, write_pins) at h)))
  pins_written d version v files after (some dockerfile) e h =
      let (same, kept) =
        row_written d version v (record { dockerfile = dockerfile; readme = files.readme }) after _
          refl (rw (e, write_pins) at h) in
      (same, ap some kept)

  -- What a bump that answers with a version has found and written.
  bump_written :
      (d : Downloads) (files after : Files) (v : Text) (r : Result BumpError (Option Text))
      → due V d files.dockerfile ≡ r
      → bump V true d files ≡ (ok (some v), after)
      → (due V d files.dockerfile ≡ ok (some v))
        × (bump_dockerfile d.hash d.deb files.dockerfile v ≡ some after.dockerfile)
  unfolding bump
  bump_written d files after v (err x) e h = absurd (cc (ap (λ p. p.0) (rw (e, bump) at h)))
  bump_written d files after v (ok none) e h = absurd (cc (ap (λ p. p.0) (rw (e, bump) at h)))
  bump_written d files after v (ok (some version)) e h =
      let (same, written) = pins_written d version v files after _ refl (rw (e, bump) at h) in
      (
        e ∙ ap (λ x. ok (some x)) same,
        subst (λ x. bump_dockerfile d.hash d.deb files.dockerfile x ≡ some after.dockerfile) same
            written,
      )

  -- After a bump that writes the pins of a version, with a sha256 of 64 hexadecimal digits for it, the
  -- Dockerfile's pins are that version, its URL and that sha256, and a bump with the same downloads
  -- finds nothing to do.
  pub bump_settled :
      (order : IsOrdered V) (d : Downloads) (files after : Files) (v : Text)
      → is_sha256 (checksum_for d.hash d.deb v) ≡ true
      → bump V true d files ≡ (ok (some v), after)
      → (read_pins after.dockerfile
          ≡ some
              (record { url = build_pkgurl v; sha256 = checksum_for d.hash d.deb v; version = v }))
        × (bump V true d after ≡ (ok none, after))
  unfolding bump bump_dockerfile parse_ga_version
  bump_settled order d files after v hs h =
      let (found, written) = bump_written d files after v _ refl h in
      let (chosen, k, seen) = due_sound d files.dockerfile v found in
      let version = highest-IsVersion (ga_versions d.ga) v (ga_versions-All d.ga) chosen in
      let (read, _, _) =
        verify-rewrite_dockerfile (λ url. true) files.dockerfile v (checksum_for d.hash d.deb v)
          after.dockerfile version hs written refl in
      (read, rw (due_after order d after.dockerfile v _ k read refl chosen seen, bump) refl)
