-- ===== src/Text/Lines/Replace.antt =====
-- What is read from a text after one of its lines was replaced.
use unifi_containers.Prelude.{
  ℕ, ◌≡◌, ◌≢◌, refl, subst, ◌∙◌, ap, false, none, some, List, [], ◌∷◌, ◌++◌, ◌==◌, All, Bool-cases,
  Option-cases, >>=-eq-some, inl, inr, arith,
}
use unifi_containers.Text.{strip, strip_sound, strip-append}
use unifi_containers.Text.Lines.{
  onto_first, lines, unlines, solid, setting_in, first_setting, replace_setting,
}

-- A text without a newline.
abbrev pub IsLine : List ℕ → Type 0
IsLine = All (λ c. (c == b'\n') ≡ false)

-- Lines, of which there is one at least.
abbrev pub AreLines : List (List ℕ) → Type 0
AreLines ls = All IsLine ls × (ls ≢ [])

AreLines-onto_first :
    (c : ℕ) (ls : List (List ℕ)) → (c == b'\n') ≡ false → AreLines ls → AreLines (onto_first c ls)
unfolding onto_first
AreLines-onto_first c [] h k = absurd (k.1 refl)
AreLines-onto_first c (l ∷ ls) h k = (((h, k.0.0), k.0.1), λ e. cc)

pub lines-AreLines : (s : List ℕ) → AreLines (lines s)
unfolding lines
lines-AreLines [] = ((tt, tt), λ e. cc)
lines-AreLines (c ∷ s) =
    let ih = lines-AreLines s in
    elim (Bool-cases (c == b'\n')) [
      | inl e ↦ rw e ((tt, ih.0), λ e. cc)
      | inr e ↦ rw e (AreLines-onto_first c (lines s) e ih)
    ]

lines-IsLine : (l : List ℕ) → IsLine l → lines l ≡ l ∷ []
unfolding lines onto_first
lines-IsLine [] h = refl
lines-IsLine (c ∷ l) (hc, hl) = rw (hc, lines-IsLine l hl, onto_first)

lines-append : (l r : List ℕ) → IsLine l → lines (l ++ (b'\n' ∷ r)) ≡ l ∷ lines r
unfolding lines onto_first
lines-append [] r h = refl
lines-append (c ∷ l) r (hc, hl) = rw (hc, lines-append l r hl, onto_first)

lines-unlines_from :
    (l : List ℕ) (ls : List (List ℕ)) → IsLine l → All IsLine ls → lines (unlines (l ∷ ls)) ≡ l ∷ ls
unfolding unlines
lines-unlines_from l [] h hs = lines-IsLine l h
lines-unlines_from l (k ∷ ls) h (hk, hs) =
    lines-append l (unlines (k ∷ ls)) h ∙ ap (λ x. l ∷ x) (lines-unlines_from k ls hk hs)

pub lines-unlines : (ls : List (List ℕ)) → AreLines ls → lines (unlines ls) ≡ ls
lines-unlines [] h = absurd (h.1 refl)
lines-unlines (l ∷ ls) h = lines-unlines_from l ls h.0.0 h.0.1

pub replace-AreLines :
    (p new : List ℕ) (ls ks : List (List ℕ))
    → IsLine new
    → All IsLine ls
    → replace_setting p new ls ≡ some ks
    → AreLines ks
unfolding replace_setting
replace-AreLines p new [] ks hn h e = cc
replace-AreLines p new (l ∷ ls) ks hn (hl, hs) e = elim (Option-cases (setting_in p l)) [
  | inr (v, ev) ↦
      let e' = rw (ev, replace_setting) at e in
      let same : (new ∷ ls) ≡ ks = ground arith in subst AreLines same ((hn, hs), λ x. cc)
  | inl ev ↦
      let e' = rw (ev, replace_setting) at e in
      elim (Option-cases (replace_setting p new ls)) [
        | inl er ↦ cc (rw er at e')
        | inr (rs, er) ↦
            let e2 = rw er at e' in
            let same : (l ∷ rs) ≡ ks = ground arith in
            subst AreLines same ((hl, (replace-AreLines p new ls rs hn hs er).0), λ x. cc)
      ]
]

setting_in-append : (p v : List ℕ) → solid v ≡ some v → setting_in p (p ++ v) ≡ some v
unfolding setting_in
setting_in-append p v h = rw (strip-append p v) h

-- The setting that was replaced is read back.
pub first-replace :
    (p v : List ℕ) (ls ks : List (List ℕ))
    → solid v ≡ some v
    → replace_setting p (p ++ v) ls ≡ some ks
    → first_setting p ks ≡ some v
unfolding replace_setting first_setting
first-replace p v [] ks hv e = cc
first-replace p v (l ∷ ls) ks hv e = elim (Option-cases (setting_in p l)) [
  | inr (w, ew) ↦
      let e' = rw (ew, replace_setting) at e in
      let same : ((p ++ v) ∷ ls) ≡ ks = ground arith in
      rw (← same, setting_in-append p v hv, first_setting)
  | inl ew ↦
      let e' = rw (ew, replace_setting) at e in
      elim (Option-cases (replace_setting p (p ++ v) ls)) [
        | inl er ↦ cc (rw er at e')
        | inr (rs, er) ↦
            let e2 = rw er at e' in
            let same : (l ∷ rs) ≡ ks = ground arith in
            rw (← same, ew, first_setting) (first-replace p v ls rs hv er)
      ]
]

setting_in_sound :
    (q l : List ℕ) {w : List ℕ} → setting_in q l ≡ some w → (r : List ℕ) × (l ≡ q ++ r)
unfolding setting_in
setting_in_sound q l h = let (r, e, k) = >>=-eq-some (strip q l) _ h in (r, strip_sound q l e)

-- Another setting is read as before, if no line can give both.
pub first-replace_other :
    (p q v : List ℕ) (ls ks : List (List ℕ))
    → ((x : List ℕ) → setting_in p (q ++ x) ≡ none)
    → replace_setting q (q ++ v) ls ≡ some ks
    → first_setting p ks ≡ first_setting p ls
unfolding replace_setting first_setting
first-replace_other p q v [] ks apart e = cc
first-replace_other p q v (l ∷ ls) ks apart e = elim (Option-cases (setting_in q l)) [
  | inr (w, ew) ↦
      let e' = rw (ew, replace_setting) at e in
      let same : ((q ++ v) ∷ ls) ≡ ks = ground arith in
      let (r, el) = setting_in_sound q l ew in
      rw (← same, apart v, first_setting, el, apart r, first_setting)
  | inl ew ↦
      let e' = rw (ew, replace_setting) at e in
      elim (Option-cases (replace_setting q (q ++ v) ls)) [
        | inl er ↦ cc (rw er at e')
        | inr (rs, er) ↦
            let e2 = rw er at e' in
            let same : (l ∷ rs) ≡ ks = ground arith in
            let ih = first-replace_other p q v ls rs apart er in
            elim (Option-cases (setting_in p l)) [
              | inl ep ↦ rw (← same, ep, first_setting, ih)
              | inr (x, ep) ↦ rw (← same, ep, first_setting)
            ]
      ]
]
