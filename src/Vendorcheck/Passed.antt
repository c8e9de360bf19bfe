-- ===== src/Vendorcheck/Passed.antt =====
-- What a vendorcheck that passes has found.
use unifi_containers.Prelude.{
  ◌≡◌, ◌≢◌, refl, sym, ◌∙◌, ap, ◌↔◌, inl, inr, Bool-cases, true, ◌==◌, ==_iff, Option, none, some,
  List, [], ◌∷◌, Has, arith,
}
use unifi_containers.Text.{Text, text_eq_sound, text_eq_refl}
use unifi_containers.Text.Lines.{lines}
use unifi_containers.Pins.{truthy}
use unifi_containers.Vendorcheck.{
  Image, stamp_reads, is_stamped, missing_stamps, reported_shortname, is_model, verdict_of,
  check_script, check,
}
use unifi_containers.Vendorcheck.Reads.{Reads}
use unifi_containers.Vendorcheck.Scanned.{stamp_reads_iff}
use unifi_containers.Vendorcheck.Reported.{
  Stamped, Reported, is_stamped_iff, reported_shortname_iff,
}

missing_stamps-none :
    (files : Text → Option Text) (paths : List Text) (path : Text)
    → missing_stamps files paths ≡ []
    → Has path paths
    → is_stamped (files path) ≡ true
unfolding missing_stamps
missing_stamps-none files [] path h m = absurd m
missing_stamps-none files (p ∷ paths) path h m = elim (Bool-cases (is_stamped (files p))) [
  | inl e ↦ elim m [
    | inl here ↦ ap (λ x. is_stamped (files x)) here ∙ e
    | inr there ↦ missing_stamps-none files paths path (rw (e, missing_stamps) at h) there
  ]
  | inr e ↦ absurd (cc (rw (e, missing_stamps) at h))
]

all_stamped :
    (files : Text → Option Text) (paths : List Text)
    → ((path : Text) → Has path paths → is_stamped (files path) ≡ true)
    → missing_stamps files paths ≡ []
unfolding missing_stamps
all_stamped files [] h = refl
all_stamped files (p ∷ paths) h =
    rw (h p (inl refl), missing_stamps) (all_stamped files paths (λ q m. h q (inr m)))

is_model-eq : (model : Text) (o : Option Text) → is_model model o ≡ true → o ≡ some model
unfolding is_model
is_model-eq model none h = absurd (cc h)
is_model-eq model (some s) h = ap some (text_eq_sound s model h)

truthy-some : (o : Option Text) (t : Text) → truthy o ≡ some t → (o ≡ some t) × (t ≢ [])
unfolding truthy
truthy-some none t h = absurd (cc h)
truthy-some (some []) t h = absurd (cc h)
truthy-some (some (c ∷ s)) t h = (h, λ e. let same : c ∷ s ≡ t = cc h in cc (same ∙ e))

truthy-full : (o : Option Text) (t : Text) → o ≡ some t → t ≢ [] → truthy o ≡ some t
unfolding truthy
truthy-full none t h ne = absurd (cc h)
truthy-full (some []) t h ne = let same : [] ≡ t = cc h in absurd (ne (sym same))
truthy-full (some (c ∷ s)) t h ne = h

-- The environment names a model, the script can be read, each path that it reads under /usr/lib is a
-- file with more than white space, and its `id` ends with 0 and reports that model.
pub record Passes (image : Image) : Type 0 where
  pub model : Text
  pub text : Text
  pub named : image.app_model ≡ some model
  pub not_empty : model ≢ []
  pub script_read : image.script ≡ some text
  pub stamped : (path : Text) → Reads path text → Stamped (image.files path)
  pub ran : image.id_status ≡ 0
  pub reported : Reported model (lines image.id_output)

verdict_of-zero :
    (image : Image) (model : Text) (paths : List Text)
    → verdict_of image model paths ≡ 0
    → (paths ≡ []) × (image.id_status ≡ 0) × (reported_shortname image.id_output ≡ some model)
unfolding verdict_of
verdict_of-zero image model (p ∷ paths) h = absurd (omega (arith, h))
verdict_of-zero image model [] h = elim (Bool-cases (image.id_status == 0)) [
  | inr e ↦ absurd (omega (arith, rw (e, verdict_of) at h))
  | inl e ↦ elim (Bool-cases (is_model model (reported_shortname image.id_output))) [
    | inr k ↦ absurd (omega (arith, rw (e, k, verdict_of) at h))
    | inl k ↦ (refl, (==_iff image.id_status 0).0 e, is_model-eq model _ k)
  ]
]

script_sound :
    (image : Image) (model : Text) (o : Option Text)
    → truthy image.app_model ≡ some model
    → image.script ≡ o
    → check_script image model o ≡ 0
    → Passes image
unfolding check_script
script_sound image model none named e h = absurd (omega (arith, h))
script_sound image model (some text) named e h =
    let (none_missing, ran, reported) = verdict_of-zero image model _ h in
    record {
      model = model;
      text = text;
      named = (truthy-some image.app_model model named).0;
      not_empty = (truthy-some image.app_model model named).1;
      script_read = e;
      stamped = λ path reads. (is_stamped_iff (image.files path)).0 (
          missing_stamps-none image.files (stamp_reads text) path none_missing
            ((stamp_reads_iff text path).1 reads));
      ran = ran;
      reported = (reported_shortname_iff image.id_output model).0 reported;
    }

check_sound :
    (image : Image) (o : Option Text) → truthy image.app_model ≡ o → check image ≡ 0 → Passes image
unfolding check
check_sound image none e h = absurd (omega (arith, rw (e, check) at h))
check_sound image (some model) e h =
    script_sound image model image.script e refl (rw (e, check) at h)

verdict_complete : (image : Image) (p : Passes image) → verdict_of image p.model [] ≡ 0
unfolding verdict_of is_model
verdict_complete image p =
    let reported = (reported_shortname_iff image.id_output p.model).1 p.reported in
    rw (p.ran, reported, text_eq_refl p.model, verdict_of) refl

script_complete : (image : Image) (p : Passes image) → check_script image p.model (some p.text) ≡ 0
unfolding check_script
script_complete image p =
    ap (verdict_of image p.model) (
      all_stamped image.files (stamp_reads p.text)
        (λ q m. (is_stamped_iff (image.files q)).1 (p.stamped q ((stamp_reads_iff p.text q).0 m))))
    ∙ verdict_complete image p

check_complete : (image : Image) → Passes image → check image ≡ 0
unfolding check
check_complete image p =
    rw (truthy-full image.app_model p.model p.named p.not_empty, check)
      (ap (check_script image p.model) p.script_read ∙ script_complete image p)

-- The check passes exactly if the image names its model, each path under /usr/lib/ that is the last
-- word of a command substitution in the vendor's script, which can be read, is a file with a character
-- that is no white space, and the script's `id` ends with 0 and has the model, but for white space
-- around it, in the first of its lines that start with `board.shortname=`.
pub check_iff : (image : Image) → (check image ≡ 0) ↔ Passes image
check_iff image = (check_sound image (truthy image.app_model) refl, check_complete image)
