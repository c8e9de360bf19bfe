-- ===== src/UosUpdater/Lines.antt =====
-- What is read from pins.env after one of its assignments was replaced.
use unifi_containers.Prelude.{
  Bool, true, if◌then◌else◌, Bool-cases, ◌≡◌, subst, sym, ap, ◌∙◌, false, none, some, Option, List,
  [], ◌∷◌, ◌++◌, ◌==◌, All, Option-cases, inl, inr, arith,
}
use unifi_containers.Prelude.Results.{ok, ok-injective}
use unifi_containers.Text.{Text, strip, strip_sound, strip-append}
use unifi_containers.Text.Lines.{lines}
use unifi_containers.Text.Lines.Replace.{IsLine, AreLines, lines-AreLines, lines-unlines}
use unifi_containers.UosUpdater.{sub_line, pin_prefix, sub_pin}

-- The value of the first line that starts so.
unfoldable pub first_pin : Text → List Text → Option Text
first_pin prefix [] = none
first_pin prefix (l ∷ ls) =
    let rest = first_pin prefix ls in elim (strip prefix l) [ some v ↦ some v | none ↦ rest ]

-- The value that the text has for the key.
unfoldable pub pin_of : Text → Text → Option Text
unfolding first_pin
pin_of key text = first_pin (pin_prefix key) (lines text)

-- One of the two happens where a line is replaced: it is the first, or the first is kept.
module _ (p new : Text) where
  sub-AreLines :
      (ls ks : List Text) → IsLine new → All IsLine ls → sub_line p new ls ≡ some ks → AreLines ks
  unfolding sub_line
  sub-AreLines [] ks hn h e = cc
  sub-AreLines (l ∷ ls) ks hn (hl, hs) e = elim (Option-cases (strip p l)) [
    | inr (v, ev) ↦
        let e' = rw (ev, sub_line) at e in
        let same : (new ∷ ls) ≡ ks = ground arith in subst AreLines same ((hn, hs), λ x. cc)
    | inl ev ↦
        let e' = rw (ev, sub_line) at e in
        elim (Option-cases (sub_line p new ls)) [
          | inl er ↦ cc (rw er at e')
          | inr (rs, er) ↦
              let e2 = rw er at e' in
              let same : (l ∷ rs) ≡ ks = ground arith in
              subst AreLines same ((hl, (sub-AreLines ls rs hn hs er).0), λ x. cc)
        ]
  ]

first-sub :
    (p v : Text) (ls ks : List Text) → sub_line p (p ++ v) ls ≡ some ks → first_pin p ks ≡ some v
unfolding sub_line first_pin
first-sub p v [] ks e = cc
first-sub p v (l ∷ ls) ks e = elim (Option-cases (strip p l)) [
  | inr (w, ew) ↦
      let e' = rw (ew, sub_line) at e in
      let same : ((p ++ v) ∷ ls) ≡ ks = ground arith in rw (← same, strip-append p v, first_pin)
  | inl ew ↦
      let e' = rw (ew, sub_line) at e in
      elim (Option-cases (sub_line p (p ++ v) ls)) [
        | inl er ↦ cc (rw er at e')
        | inr (rs, er) ↦
            let e2 = rw er at e' in
            let same : (l ∷ rs) ≡ ks = ground arith in
            rw (← same, ew, first_pin) (first-sub p v ls rs er)
      ]
]

-- Another assignment is read as before, if no line can be both.
first-sub_other :
    (p q v : Text) (ls ks : List Text)
    → ((x : Text) → strip p (q ++ x) ≡ none)
    → sub_line q (q ++ v) ls ≡ some ks
    → first_pin p ks ≡ first_pin p ls
unfolding sub_line first_pin
first-sub_other p q v [] ks apart e = cc
first-sub_other p q v (l ∷ ls) ks apart e = elim (Option-cases (strip q l)) [
  | inr (w, ew) ↦
      let e' = rw (ew, sub_line) at e in
      let same : ((q ++ v) ∷ ls) ≡ ks = ground arith in
      rw (← same, apart v, first_pin, strip_sound q l ew, apart w, first_pin)
  | inl ew ↦
      let e' = rw (ew, sub_line) at e in
      elim (Option-cases (sub_line q (q ++ v) ls)) [
        | inl er ↦ cc (rw er at e')
        | inr (rs, er) ↦
            let e2 = rw er at e' in
            let same : (l ∷ rs) ≡ ks = ground arith in
            let ih = first-sub_other p q v ls rs apart er in
            elim (Option-cases (strip p l)) [
              | inl ep ↦ rw (← same, ep, first_pin, ih)
              | inr (x, ep) ↦ rw (← same, ep, first_pin)
            ]
      ]
]

-- The test of it.
unfoldable pub is_line : Text → Bool
is_line [] = true
is_line (c ∷ s) = let rest = is_line s in if c == b'\n' then false else rest

pub is_line-IsLine : (s : Text) → is_line s ≡ true → IsLine s
unfolding is_line
is_line-IsLine [] h = tt
is_line-IsLine (c ∷ s) h = elim (Bool-cases (c == b'\n')) [
  | inl e ↦ let h' = rw e at h in absurd (cc (h'))
  | inr e ↦ let h' = rw e at h in (e, is_line-IsLine s h')
]

IsLine-append : (a b : Text) → IsLine a → IsLine b → IsLine (a ++ b)
IsLine-append [] b ha hb = hb
IsLine-append (c ∷ a) b (hc, ha) hb = (hc, IsLine-append a b ha hb)

module _ (key value text : Text) {text' : Text} (whole : IsLine (pin_prefix key))
    (line : IsLine value) (done : sub_pin key value text ≡ ok text') where
  subbed :
      (ls : List Text) × (sub_line (pin_prefix key) (pin_prefix key ++ value) (lines text)
        ≡ some ls)
      × (lines text' ≡ ls)
  unfolding sub_pin
  subbed = elim (Option-cases (sub_line (pin_prefix key) (pin_prefix key ++ value) (lines text))) [
    | inl e ↦ let done' = rw (e, sub_pin) at done in absurd (cc (done'))
    | inr (ls, e) ↦
        let done' = rw (e, sub_pin) at done in
        (
          ls,
          e,
          ap lines (sym (ok-injective done'))
              ∙ lines-unlines ls (
                  sub-AreLines (pin_prefix key) (pin_prefix key ++ value) (lines text) ls
                    (IsLine-append (pin_prefix key) value whole line) (lines-AreLines text).0 e),
        )
  ]

  -- The pin that was replaced is read back.
  pub pin_of-sub_pin : pin_of key text' ≡ some value
  unfolding pin_of
  pin_of-sub_pin =
      let (ls, e, now) = subbed in rw now (first-sub (pin_prefix key) value (lines text) ls e)

  -- Another one is read as before, if no line can be both.
  pub pin_of-sub_pin_other :
      (other : Text)
      → ((x : Text) → strip (pin_prefix other) (pin_prefix key ++ x) ≡ none)
      → pin_of other text' ≡ pin_of other text
  unfolding pin_of
  pin_of-sub_pin_other other apart =
      let (ls, e, now) = subbed in
      rw now (first-sub_other (pin_prefix other) (pin_prefix key) value (lines text) ls apart e)
