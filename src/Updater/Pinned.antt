-- ===== src/Updater/Pinned.antt =====
-- What the updater writes is what the release lane reads.
use unifi_containers.Prelude.{
  ℕ, ◌≡◌, refl, sym, ◌∙◌, ap, Bool, true, false, none, some, List, [], ◌∷◌, ◌++◌, >>=-eq-some,
  arith, All-append, Bool-cases, inl, inr, ◌==◌, ==_iff, length,
}
use unifi_containers.Text.{Text, codes, text_eq_refl, strip}
use unifi_containers.Text.Digits.{no_digits, AllDigits}
use unifi_containers.Text.Scan.{IsVersion, dotted-append, char}
use unifi_containers.Text.Words.{is_space}
use unifi_containers.Text.Spaces.{digit_no_space}
use unifi_containers.Text.Lines.{
  lines, unlines, solid, all_solid, setting_in, first_setting, replace_setting,
}
use unifi_containers.Text.Lines.Replace.{
  IsLine, lines-AreLines, lines-unlines, replace-AreLines, first-replace, first-replace_other,
}
use unifi_containers.Pins.{pkgurl_prefix, version_here, version_in_url, pkgurl, pkgurl_version}
use unifi_containers.Updater.{
  pkgsha_prefix, build_pkgurl, read_pins, rewrite_one, rewrite_dockerfile, is_sha256, all_hex,
  is_hex, verify_pins, verify,
}

-- A text that is not empty and has no white space.
abbrev pub IsSolid : Text → Type 0
IsSolid v = solid v ≡ some v

newline_space : (c : ℕ) → is_space c ≡ false → (c == b'\n') ≡ false
unfolding is_space
newline_space c h = elim (Bool-cases (c == b'\n')) [
  | inr e ↦ e
  | inl e ↦ let same : c ≡ b'\n' = (==_iff c b'\n').0 e in cc (rw same at h)
]

all_solid-IsLine : (v : Text) → all_solid v ≡ true → IsLine v
unfolding all_solid
all_solid-IsLine [] h = tt
all_solid-IsLine (c ∷ v) h = elim (Bool-cases (is_space c)) [
  | inl e ↦ cc (rw e at h)
  | inr e ↦ (newline_space c e, all_solid-IsLine v (rw e at h))
]

IsSolid-IsLine : (v : Text) → IsSolid v → IsLine v
unfolding solid
IsSolid-IsLine [] h = tt
IsSolid-IsLine (c ∷ v) h = elim (Bool-cases (all_solid (c ∷ v))) [
  | inl e ↦ all_solid-IsLine (c ∷ v) e
  | inr e ↦ cc (rw e at h)
]

pkgurl_prefix-IsLine : IsLine pkgurl_prefix
pkgurl_prefix-IsLine =
    (refl, (refl, (refl, (refl, (refl, (refl, (refl, (refl, (refl, (refl, (refl, tt)))))))))))

pkgsha_prefix-IsLine : IsLine pkgsha_prefix
pkgsha_prefix-IsLine = (
  refl,
  (
    refl,
    (
      refl,
      (refl, (refl, (refl, (refl, (refl, (refl, (refl, (refl, (refl, (refl, (refl, tt))))))))))),
    ),
  ),
)

sha_not_url : (x : Text) → setting_in pkgurl_prefix (pkgsha_prefix ++ x) ≡ none
unfolding setting_in strip
sha_not_url x = refl

-- One setting is rewritten, and read back.
record Rewritten (prefix value text new : Text) : Type 0 where
  kept : List Text
  replaced : replace_setting prefix (prefix ++ value) (lines text) ≡ some kept
  new_lines : lines new ≡ kept

rewrite_one-Rewritten :
    (prefix value text new : Text)
    → IsLine (prefix ++ value)
    → rewrite_one prefix value text ≡ some new
    → Rewritten prefix value text new
unfolding rewrite_one
rewrite_one-Rewritten prefix value text new hl h =
    let (ks, e, k) = >>=-eq-some (replace_setting prefix (prefix ++ value) (lines text)) _ h in
    let same : unlines ks ≡ new = ground arith in
    record {
      kept = ks;
      replaced = e;
      new_lines =
          ap lines (sym same)
          ∙ lines-unlines ks (
              replace-AreLines prefix (prefix ++ value) (lines text) ks hl (lines-AreLines text).0
                e);
    }

-- The settings of a Dockerfile that was rewritten are those it was rewritten with.
pub rewrite_dockerfile_settings :
    (text url sha256 new : Text)
    → IsSolid url
    → IsSolid sha256
    → rewrite_dockerfile text url sha256 ≡ some new
    → (first_setting pkgurl_prefix (lines new) ≡ some url)
      × (first_setting pkgsha_prefix (lines new) ≡ some sha256)
unfolding rewrite_dockerfile
rewrite_dockerfile_settings text url sha256 new hu hs h =
    let (mid, e1, e2) = >>=-eq-some (rewrite_one pkgurl_prefix url text) _ h in
    let lu : IsLine (pkgurl_prefix ++ url) =
      All-append _ pkgurl_prefix url pkgurl_prefix-IsLine (IsSolid-IsLine url hu) in
    let ls : IsLine (pkgsha_prefix ++ sha256) =
      All-append _ pkgsha_prefix sha256 pkgsha_prefix-IsLine (IsSolid-IsLine sha256 hs) in
    let r1 = rewrite_one-Rewritten pkgurl_prefix url text mid lu e1 in
    let r2 = rewrite_one-Rewritten pkgsha_prefix sha256 mid new ls e2 in
    (
      ap (first_setting pkgurl_prefix) r2.new_lines
          ∙ first-replace_other pkgurl_prefix pkgsha_prefix sha256 (lines mid) r2.kept sha_not_url
              r2.replaced
          ∙ ap (first_setting pkgurl_prefix) r1.new_lines
          ∙ first-replace pkgurl_prefix url (lines text) r1.kept hu r1.replaced,
      ap (first_setting pkgsha_prefix) r2.new_lines
          ∙ first-replace pkgsha_prefix sha256 (lines mid) r2.kept hs r2.replaced,
    )

version_in_url-here :
    (v r : Text) → IsVersion v → version_in_url (codes "/unifi/" ++ (v ++ (b'/' ∷ r))) ≡ some v
unfolding version_in_url version_here strip char
version_in_url-here v r h = rw (dotted-append v (b'/' ∷ r) h no_digits.2, version_in_url)

-- The release lane reads the version out of the URL that the updater builds for it.
pub version_in_url-build_pkgurl :
    (v : Text) → IsVersion v → version_in_url (build_pkgurl v) ≡ some v
unfolding build_pkgurl version_in_url version_here strip
version_in_url-build_pkgurl v h = version_in_url-here v (codes "unifi_sysvinit_all.deb") h

hex_solid : (c : ℕ) → is_hex c ≡ true → is_space c ≡ false
unfolding is_hex is_space
hex_solid c h = ground arith

all_hex_solid : (s : Text) → all_hex s ≡ true → all_solid s ≡ true
unfolding all_hex all_solid
all_hex_solid [] h = refl
all_hex_solid (c ∷ s) h = elim (Bool-cases (is_hex c)) [
  | inl e ↦ rw (hex_solid c e) (all_hex_solid s (rw e at h))
  | inr e ↦ cc (rw e at h)
]

is_sha256-IsSolid : (s : Text) → is_sha256 s ≡ true → IsSolid s
unfolding is_sha256 solid
is_sha256-IsSolid [] h = cc
is_sha256-IsSolid (c ∷ s) h = elim (Bool-cases (length (c ∷ s) == 64)) [
  | inl e ↦ rw (all_hex_solid (c ∷ s) (rw e at h))
  | inr e ↦ cc (rw e at h)
]

digits_solid : (a : Text) → AllDigits a → all_solid a ≡ true
unfolding all_solid
digits_solid [] h = refl
digits_solid (c ∷ a) (hc, ha) = rw (digit_no_space c hc) (digits_solid a ha)

all_solid-append :
    (a b : Text) → all_solid a ≡ true → all_solid b ≡ true → all_solid (a ++ b) ≡ true
unfolding all_solid
all_solid-append [] b ha hb = hb
all_solid-append (c ∷ a) b ha hb = elim (Bool-cases (is_space c)) [
  | inl e ↦ cc (rw e at ha)
  | inr e ↦ rw e (all_solid-append a b (rw e at ha) hb)
]

version_solid : (v : Text) → IsVersion v → all_solid v ≡ true
unfolding all_solid is_space
version_solid v h =
    let patch = digits_solid h.patch h.patch_number.1 in
    let minor =
      all_solid-append h.minor (b'.' ∷ h.patch) (digits_solid h.minor h.minor_number.1) patch in
    let major =
      all_solid-append h.major (b'.' ∷ (h.minor ++ (b'.' ∷ h.patch)))
        (digits_solid h.major h.major_number.1) minor in
    rw h.parts major

-- The URL that the updater builds has no white space.
build_pkgurl-IsSolid : (v : Text) → IsVersion v → IsSolid (build_pkgurl v)
unfolding build_pkgurl solid all_solid is_space
build_pkgurl-IsSolid v h =
    rw (all_solid-append v (codes "/unifi_sysvinit_all.deb") (version_solid v h) refl) refl

-- After a rewrite to the URL of a dotted version and a sha256 of 64 hexadecimal digits, the pins
-- are read back as written, the release lane reads that version, and `verify` ends with 0, if the
-- URL can be reached.
pub verify-rewrite_dockerfile :
    (url_exists : Text → Bool) (text v sha256 new : Text)
    → IsVersion v
    → is_sha256 sha256 ≡ true
    → rewrite_dockerfile text (build_pkgurl v) sha256 ≡ some new
    → url_exists (build_pkgurl v) ≡ true
    → (read_pins new ≡ some (record { url = build_pkgurl v; sha256 = sha256; version = v }))
      × (pkgurl_version new ≡ some v)
      × (verify url_exists new ≡ some 0)
unfolding read_pins verify verify_pins pkgurl_version pkgurl
verify-rewrite_dockerfile url_exists text v sha256 new hv hs h reach =
    let (u, k) =
      rewrite_dockerfile_settings text (build_pkgurl v) sha256 new (build_pkgurl-IsSolid v hv)
        (is_sha256-IsSolid sha256 hs) h in
    let seen = version_in_url-build_pkgurl v hv in
    (rw (u, k, seen), rw (u, seen), rw (u, k, seen) (rw (hs, text_eq_refl, reach)))
