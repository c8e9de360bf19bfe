-- ===== src/Vendorcheck/Reported.antt =====
-- A file with something in it, and the model that `id` reports, said without the code's helpers.
use unifi_containers.Prelude.{
  ℕ, ◌≡◌, ◌≢◌, refl, sym, ◌∙◌, ap, ◌↔◌, inl, inr, Bool-cases, Option-cases, true, false, Option,
  none, some, List, [], ◌∷◌, ◌++◌, All, Has,
}
use unifi_containers.Text.{Text, codes, strip, strip_sound, strip-append}
use unifi_containers.Text.Words.{is_space, lstrip, rstrip, trim}
use unifi_containers.Text.Lines.{lines}
use unifi_containers.Vendorcheck.{is_stamped, shortname_in, reported_shortname}

-- The text has a character that is no white space.
abbrev pub Printed : Text → Type 0
Printed t = (c : ℕ) × Has c t × (is_space c ≡ false)

-- The file is there, and is printed in.
abbrev pub Stamped : Option Text → Type 0
Stamped none = ⊥
Stamped (some text) = Printed text

abbrev pub shortname_key : Text
shortname_key = codes "board.shortname="

-- The first line of the output that starts with `board.shortname=` has the model behind it.
pub record Reported (model : Text) (ls : List Text) : Type 0 where
  pub earlier : List Text
  pub value : Text
  pub later : List Text
  pub listed : ls ≡ earlier ++ ((shortname_key ++ value) ∷ later)
  pub first : All (λ l. (r : Text) → l ≢ shortname_key ++ r) earlier
  pub named : trim value ≡ model

more : (c : ℕ) (t : Text) → Printed t → Printed (c ∷ t)
more c t (d, m, e) = (d, inr m, e)

behind_space : (c : ℕ) (t : Text) → is_space c ≡ true → Printed (c ∷ t) → Printed t
behind_space c t k (d, inl here, e) = absurd (cc (sym k ∙ ap is_space (sym here) ∙ e))
behind_space c t k (d, inr there, e) = (d, there, e)

lstrip_iff : (t : Text) → Printed (lstrip t) ↔ Printed t
unfolding lstrip
lstrip_iff [] = (λ p. p, λ p. p)
lstrip_iff (c ∷ t) = elim (Bool-cases (is_space c)) [
  | inl k ↦ rw k (λ p. more c t ((lstrip_iff t).0 p), λ p. (lstrip_iff t).1 (behind_space c t k p))
  | inr k ↦ rw k (λ p. p, λ p. p)
]

rstrip_sound : (t : Text) → rstrip t ≢ [] → Printed t
unfolding rstrip
rstrip_sound [] ne = absurd (ne refl)
rstrip_sound (c ∷ t) ne = from (rstrip t) refl (rstrip_sound t)
  where
    from : (r : Text) → rstrip t ≡ r → (rstrip t ≢ [] → Printed t) → Printed (c ∷ t)
    from (d ∷ r) e rest = more c t (rest (λ h. cc (sym e ∙ h)))
    from [] e rest = elim (Bool-cases (is_space c)) [
      | inl k ↦ absurd (ne (rw (e, k, rstrip) refl))
      | inr k ↦ (c, inl refl, k)
    ]

rstrip_complete : (t : Text) → Printed t → rstrip t ≢ []
unfolding rstrip
rstrip_complete [] (c, m, e) h = absurd m
rstrip_complete (c ∷ t) p h = from (rstrip t) refl (rstrip_complete t)
  where
    from : (r : Text) → rstrip t ≡ r → (Printed t → rstrip t ≢ []) → ⊥
    from (d ∷ r) e rest = let h' = rw (e, rstrip) at h in cc h'
    from [] e rest = elim (Bool-cases (is_space c)) [
      | inl k ↦ rest (behind_space c t k p) e
      | inr k ↦ let h' = rw (e, k, rstrip) at h in cc h'
    ]

pub is_stamped_iff : (o : Option Text) → (is_stamped o ≡ true) ↔ Stamped o
unfolding is_stamped trim
is_stamped_iff none = (λ h. cc h, λ p. absurd p)
is_stamped_iff (some text) = (
  λ h. (lstrip_iff text).0 (rstrip_sound (lstrip text) (full (trim text) h)),
  λ p. found (trim text) (rstrip_complete (lstrip text) ((lstrip_iff text).1 p)),
)
  where
    full : (r : Text) → elim r [ [] ↦ false | c ∷ t ↦ true ] ≡ true → r ≢ []
    full [] h = absurd (cc h)
    full (c ∷ t) h = λ e. cc e

    found : (r : Text) → r ≢ [] → elim r [ [] ↦ false | c ∷ t ↦ true ] ≡ true
    found [] ne = absurd (ne refl)
    found (c ∷ t) ne = refl

other_line : (l r : Text) → strip shortname_key l ≡ none → l ≢ shortname_key ++ r
other_line l r e h = cc (sym e ∙ ap (strip shortname_key) h ∙ strip-append shortname_key r)

no_strip : (l : Text) → ((r : Text) → l ≢ shortname_key ++ r) → strip shortname_key l ≡ none
no_strip l other = elim (Option-cases (strip shortname_key l)) [
  | inl e ↦ e
  | inr (r, e) ↦ absurd (other r (strip_sound shortname_key l e))
]

shortname_in_sound :
    (ls : List Text) (model : Text) → shortname_in ls ≡ some model → Reported model ls
unfolding shortname_in
shortname_in_sound [] model h = absurd (cc h)
shortname_in_sound (l ∷ ls) model h = elim (Option-cases (strip shortname_key l)) [
  | inl e ↦
      let p = shortname_in_sound ls model (rw (e, shortname_in) at h) in
      record {
        earlier = l ∷ p.earlier;
        value = p.value;
        later = p.later;
        listed = ap (λ x. l ∷ x) p.listed;
        first = (λ r. other_line l r e, p.first);
        named = p.named;
      }
  | inr (value, e) ↦
      let h' = rw (e, shortname_in) at h in
      record {
        earlier = [];
        value = value;
        later = ls;
        listed = ap (λ x. x ∷ ls) (strip_sound shortname_key l e);
        first = tt;
        named = cc h';
      }
]

shortname_in_complete :
    (earlier later : List Text) (value : Text)
    → All (λ l. (r : Text) → l ≢ shortname_key ++ r) earlier
    → shortname_in (earlier ++ ((shortname_key ++ value) ∷ later)) ≡ some (trim value)
unfolding shortname_in
shortname_in_complete [] later value first =
    rw (strip-append shortname_key value, shortname_in) refl
shortname_in_complete (l ∷ earlier) later value (other, first) =
    rw (no_strip l other, shortname_in) (shortname_in_complete earlier later value first)

pub reported_shortname_iff :
    (output model : Text) → (reported_shortname output ≡ some model) ↔ Reported model (lines output)
unfolding reported_shortname
reported_shortname_iff output model = (
  shortname_in_sound (lines output) model,
  λ p.
      ap shortname_in p.listed
      ∙ shortname_in_complete p.earlier p.later p.value p.first
      ∙ ap some p.named,
)
