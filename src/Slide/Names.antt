-- ===== src/Slide/Names.antt =====
-- The names that a release slides are names that `variant_for` knows, each under its own variant.
use unifi_containers.Prelude.{
  ℕ, ◌==◌, ==_iff, All, All-append, append_assoc, subst, if◌then◌else◌, ◌≡◌, refl, ◌∙◌, sym, ap,
  true, false, none, [], ◌∷◌, ◌++◌, append-nil, Bool-cases, inl, inr,
}
use unifi_containers.Prelude.Results.{ok}
use unifi_containers.Text.{Text, codes, text_eq, strip}
use unifi_containers.Text.Digits.{is_digit, digit_value, AllDigits, Stops, no_digits}
use unifi_containers.Text.Scan.{IsNumber, IsVersion, dotted-append, at_end}
use unifi_containers.Text.Words.{ends_with}
use unifi_containers.Release.{Release, version_tags}
use unifi_containers.Slide.{
  base, sim, seeded, global_track, suffix_ok, is_version_tag, variant_for, latest_name, sim_name,
  seeded_name,
}

-- A text that begins with a digit differs from one that begins otherwise.
head_ne :
    (c d : ℕ) (s w : Text)
    → is_digit c ≡ true
    → is_digit d ≡ false
    → text_eq (c ∷ s) (d ∷ w) ≡ false
unfolding text_eq
head_ne c d s w hc hd = elim (Bool-cases (c == d)) [
  | inl e ↦ let same : c ≡ d = (==_iff c d).0 e in cc
  | inr e ↦ rw e
]

global_track_digit : (c : ℕ) (s : Text) → is_digit c ≡ true → global_track (c ∷ s) ≡ none
unfolding global_track is_digit digit_value
global_track_digit c s h = rw (
  head_ne c b'l' s (codes "atest") h refl,
  head_ne c b's' s (codes "im") h refl,
  head_ne c b's' s (codes "eeded") h refl,
)

global_track-append : (a r : Text) → IsNumber a → global_track (a ++ r) ≡ none
global_track-append [] r n = absurd (n.0 refl)
global_track-append (c ∷ a) r n = global_track_digit c (a ++ r) n.1.0

global_track_version : (u r : Text) → IsVersion u → global_track (u ++ r) ≡ none
global_track_version u r v =
    ap (λ x. global_track (x ++ r)) v.parts
    ∙ ap global_track (append_assoc v.major _ r)
    ∙ global_track-append v.major _ v.major_number

abbrev NotDash : ℕ → Type 0
NotDash c = (b'-' == c) ≡ false

digits-NotDash : (a : Text) → AllDigits a → All NotDash a
digits-NotDash [] h = tt
digits-NotDash (c ∷ a) (hc, ha) = (
  elim (Bool-cases (b'-' == c)) [
    | inl e ↦ let same : b'-' ≡ c = (==_iff b'-' c).0 e in cc (no_digits.0)
    | inr e ↦ e
  ],
  digits-NotDash a ha,
)

version-NotDash : (u : Text) → IsVersion u → All NotDash u
version-NotDash u v = subst (All NotDash) (sym v.parts) (
    All-append NotDash v.major _ (digits-NotDash v.major v.major_number.1) (
      refl,
      All-append NotDash v.minor _ (digits-NotDash v.minor v.minor_number.1)
          (refl, digits-NotDash v.patch v.patch_number.1),
    ))

skip_one :
    (w : Text) (c : ℕ) (t : Text)
    → NotDash c
    → ends_with (b'-' ∷ w) (c ∷ t) ≡ ends_with (b'-' ∷ w) t
unfolding ends_with
skip_one w c t h = rw (h, text_eq)

ends_with-skip :
    (w u r : Text) → All NotDash u → ends_with (b'-' ∷ w) (u ++ r) ≡ ends_with (b'-' ∷ w) r
ends_with-skip w [] r h = refl
ends_with-skip w (c ∷ u) r (hc, hu) = skip_one w c (u ++ r) hc ∙ ends_with-skip w u r hu

-- The name of a version with the suffix `r`.
variant_for-suffix :
    (u r : Text)
    → IsVersion u
    → Stops r
    → suffix_ok r ≡ true
    → variant_for (u ++ r) ≡ (
        if ends_with (codes "-sim") r
        then ok sim
        else if ends_with (codes "-seeded") r
        then ok seeded
        else ok base)
unfolding variant_for is_version_tag
variant_for-suffix u r v st fits =
    rw (global_track_version u r v, variant_for, dotted-append u r v st, is_version_tag, fits)
      (rw (
        ends_with-skip (codes "sim") u r (version-NotDash u v),
        ends_with-skip (codes "seeded") u r (version-NotDash u v),
      ))

-- Each version tag of a release with a dotted version tracks its own variant.
pub variant_for-version_tags :
    (r : Release)
    → IsVersion r.upstream
    → (variant_for (version_tags r).base ≡ ok base)
      × (variant_for (version_tags r).sim ≡ ok sim)
      × (variant_for (version_tags r).seeded ≡ ok seeded)
unfolding version_tags suffix_ok ends_with strip text_eq at_end
variant_for-version_tags r v = (
  ap variant_for (sym (append-nil r.upstream)) ∙ variant_for-suffix r.upstream [] v tt refl,
  variant_for-suffix r.upstream (codes "-sim") v no_digits.0 refl,
  variant_for-suffix r.upstream (codes "-seeded") v no_digits.0 refl,
)

-- The unqualified names track their variants.
pub variant_for_globals :
    (variant_for latest_name ≡ ok base)
    × (variant_for sim_name ≡ ok sim)
    × (variant_for seeded_name ≡ ok seeded)
unfolding variant_for global_track text_eq
variant_for_globals = (refl, refl, refl)
