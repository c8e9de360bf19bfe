-- ===== src/ExtractUos/Checked.antt =====
-- What an extraction that ends well has loaded.
use unifi_containers.Prelude.{
  ℕ, ◌≡◌, ◌∙◌, ap, Bool-cases, inl, inr, Bool, true, false, Option, none, some, List, [], ◌∷◌,
}
use unifi_containers.Prelude.Results.{ok, >>=-eq-ok, after-eq-ok}
use unifi_containers.Text.{Text, codes, text_eq, text_eq_sound}
use unifi_containers.Text.Find.{lower}
use unifi_containers.ExtractUos.{
  ExtractError, no_download, no_archive, no_member, Tools, member, select, or_fail, solid_member,
  verify_sha256, extract_image_tar, arch_or_machine, image_tar, loaded, tagged, extract,
}

or_fail-eq-ok :
    {A : Type 0} (e : ExtractError) (o : Option A) (a : A) → or_fail e o ≡ ok a → o ≡ some a
unfolding or_fail
or_fail-eq-ok e none a h = absurd (cc h)
or_fail-eq-ok e (some b) a h = cc

solid_member-eq-ok :
    (bytes tar : List ℕ) → solid_member bytes ≡ ok tar → (bytes ≡ tar) × ¬ (tar ≡ [])
unfolding solid_member
solid_member-eq-ok [] tar h = absurd (cc h)
solid_member-eq-ok (b ∷ bytes) tar h =
    let same : b ∷ bytes ≡ tar = cc in (same, λ e. absurd (cc (same ∙ e)))

module _ {D : Type 0} (T : Tools D) where
  -- The image in docker under the name `uos-base:local` is the member of an installer that has the
  -- pinned checksum of the architecture.
  pub record Extracted (arch : Option Text) (pins : Text → Option Text) (before end : D)
      : Type 0 where
    pub url : Text
    pub sha256 : Text
    pub installer : List ℕ
    pub archive : Text → Option (List ℕ)
    pub tar : List ℕ
    pub image : Text
    pub with_image : D
    pub selected : select pins (arch_or_machine T arch) ≡ ok (url, sha256)
    pub downloaded : T.download url ≡ some installer
    pub is_pinned : T.sha256_of installer ≡ lower sha256
    pub opened : T.unzip installer ≡ some archive
    pub contained : archive member ≡ some tar
    pub is_solid : ¬ (tar ≡ [])
    pub was_loaded : T.load_image tar before ≡ (some image, with_image)
    pub was_tagged : T.tag_image image (codes "uos-base") (codes "local") with_image ≡ (true, end)

  verify_sha256-eq-ok :
      (file : List ℕ) (expected actual : Text)
      → verify_sha256 T file expected ≡ ok actual
      → T.sha256_of file ≡ lower expected
  unfolding verify_sha256
  verify_sha256-eq-ok file expected actual h =
      elim (Bool-cases (text_eq (T.sha256_of file) (lower expected))) [
        | inl same ↦ text_eq_sound (T.sha256_of file) (lower expected) same
        | inr other ↦ absurd (cc (rw other at h))
      ]

  loaded-eq-ok :
      (p : Option Text × D) (image : Text) (d : D)
      → loaded T p ≡ (ok image, d)
      → p ≡ (some image, d)
  unfolding loaded
  loaded-eq-ok (none, m) image d h = absurd (cc (ap (λ q. q.0) h))
  loaded-eq-ok (some other, m) image d h =
      let same : other ≡ image = cc (ap (λ q. q.0) h) in
      ap (λ x. (some x, m)) same ∙ ap (λ x. (some image, x.1)) h

  tagged-eq-ok : (p : Bool × D) (d : D) → tagged T p ≡ (ok tt, d) → p ≡ (true, d)
  unfolding tagged
  tagged-eq-ok (true, m) d h = ap (λ x. (true, x.1)) h
  tagged-eq-ok (false, m) d h = absurd (cc (ap (λ q. q.0) h))

  -- An extraction that ends well has downloaded an installer with the checksum that is pinned for the
  -- architecture, and has tagged the image inside it, which is not empty.
  pub extract-Extracted :
      (arch : Option Text) (pins : Text → Option Text) (before end : D)
      → extract T arch pins before ≡ (ok tt, end)
      → Extracted arch pins before end
  unfolding extract image_tar extract_image_tar
  extract-Extracted arch pins before end h =
      let (tar, d1, got, h1) =
        after-eq-ok (image_tar T pins (arch_or_machine T arch), before) _ h in
      let (image, d2, load, tag) = after-eq-ok (loaded T (T.load_image tar d1)) _ h1 in
      let same : before ≡ d1 = ap (λ p. p.1) got in
      let (chosen, selected, g1) =
        >>=-eq-ok (select pins (arch_or_machine T arch)) _ (ap (λ p. p.0) got) in
      let (installer, fetched, g2) = >>=-eq-ok (or_fail no_download (T.download chosen.0)) _ g1 in
      let (actual, verified, g3) = >>=-eq-ok (verify_sha256 T installer chosen.1) _ g2 in
      let (archive, zipped, g4) = >>=-eq-ok (or_fail no_archive (T.unzip installer)) _ g3 in
      let (bytes, found, g5) = >>=-eq-ok (or_fail no_member (archive member)) _ g4 in
      let (whole, is_solid) = solid_member-eq-ok bytes tar g5 in
      record {
        url = chosen.0;
        sha256 = chosen.1;
        installer = installer;
        archive = archive;
        tar = tar;
        image = image;
        with_image = d2;
        selected = selected;
        downloaded = or_fail-eq-ok no_download (T.download chosen.0) installer fetched;
        is_pinned = verify_sha256-eq-ok installer chosen.1 actual verified;
        opened = or_fail-eq-ok no_archive (T.unzip installer) archive zipped;
        contained = or_fail-eq-ok no_member (archive member) bytes found ∙ ap some whole;
        is_solid = is_solid;
        was_loaded = ap (T.load_image tar) same ∙ loaded-eq-ok (T.load_image tar d1) image d2 load;
        was_tagged = tagged-eq-ok (T.tag_image image (codes "uos-base") (codes "local") d2) end tag;
      }
