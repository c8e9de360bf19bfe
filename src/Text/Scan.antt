-- ===== src/Text/Scan.antt =====
-- The matchers that the program's regular expressions are made of: `\d+`, `\d+\.\d+\.\d+`, `$`.
-- Each `\d+` is followed by something that is no digit, so the greedy match is the only one.
use unifi_containers.Prelude.{
  ℕ, ◌≡◌, refl, ◌≢◌, Bool, true, false, Option, none, some, List, [], ◌∷◌, ◌++◌, append_assoc,
  arith, if◌then◌else◌, ◌==◌, >>=-eq-some, ◌∙◌, ap₂, subst, sym, ◌>>=◌, Bool-cases, inl, inr, ap,
}
use unifi_containers.Text.Digits.{is_digit, AllDigits, Stops, no_digits}

-- The longest prefix of digits, and the rest.
unfoldable pub span_digits : List ℕ → List ℕ × List ℕ
span_digits [] = ([], [])
span_digits (c ∷ s) = let (a, r) = span_digits s in if is_digit c then (c ∷ a, r) else ([], c ∷ s)

unfoldable pub nonempty : List ℕ × List ℕ → Option (List ℕ × List ℕ)
nonempty ([], r) = none
nonempty (c ∷ a, r) = some (c ∷ a, r)

-- `\d+`
unfoldable pub digits1 : List ℕ → Option (List ℕ × List ℕ)
unfolding nonempty
digits1 t = nonempty (span_digits t)

-- One given character.
unfoldable pub char : ℕ → List ℕ → Option (List ℕ)
char d [] = none
char d (c ∷ s) = if c == d then some s else none

-- `\d+\.\d+\.\d+`
unfoldable pub dotted : List ℕ → Option (List ℕ × List ℕ)
unfolding char
dotted t = do
  (a, r) ← digits1 t
  s ← char b'.' r
  (b, r') ← digits1 s
  s' ← char b'.' r'
  (c, rest) ← digits1 s'
  some (a ++ (b'.' ∷ (b ++ (b'.' ∷ c))), rest)

-- `$` outside MULTILINE: the end, or just before a newline that ends the text.
unfoldable pub at_end : List ℕ → Bool
at_end [] = true
at_end (c ∷ []) = c == b'\n'
at_end (c ∷ d ∷ s) = false

span_digits_sound :
    (t : List ℕ)
    → (t ≡ (span_digits t).0 ++ (span_digits t).1)
      × AllDigits (span_digits t).0
      × Stops (span_digits t).1
unfolding span_digits
span_digits_sound [] = (refl, tt, tt)
span_digits_sound (c ∷ s) = elim (Bool-cases (is_digit c)) [
  | inl d ↦ rw d (let ih = span_digits_sound s in (ap (λ r. c ∷ r) ih.0, (d, ih.1), ih.2))
  | inr d ↦ rw d (refl, tt, d)
]

span_digits-append : (a r : List ℕ) → AllDigits a → Stops r → span_digits (a ++ r) ≡ (a, r)
unfolding span_digits
span_digits-append [] [] d st = refl
span_digits-append [] (c ∷ r) d st = rw st
span_digits-append (c ∷ a) r (d, ds) st = rw (d, span_digits-append a r ds st)

-- One or more digits.
abbrev pub IsNumber : List ℕ → Type 0
IsNumber a = (a ≢ []) × AllDigits a

pub digits1-append : (a r : List ℕ) → IsNumber a → Stops r → digits1 (a ++ r) ≡ some (a, r)
unfolding digits1
digits1-append [] r n st = absurd (n.0 refl)
digits1-append (c ∷ a) r n st = rw (span_digits-append (c ∷ a) r n.1 st)

nonempty_sound :
    (p : List ℕ × List ℕ) (a r : List ℕ) → nonempty p ≡ some (a, r) → (a ≢ []) × (p ≡ (a, r))
unfolding nonempty
nonempty_sound ([], s) a r h = cc
nonempty_sound (c ∷ b, s) a r h = (λ e. cc, ground arith)

pub digits1_sound : (t a r : List ℕ) → digits1 t ≡ some (a, r) → IsNumber a × (t ≡ a ++ r) × Stops r
unfolding digits1
digits1_sound t a r h =
    let (ne, e) = nonempty_sound (span_digits t) a r h in
    let (split, ds, st) = span_digits_sound t in ((ne, rw e at ds), rw e at split, rw e at st)

pub record IsVersion (u : List ℕ) : Type 0 where
  pub major : List ℕ
  pub minor : List ℕ
  pub patch : List ℕ
  pub major_number : IsNumber major
  pub minor_number : IsNumber minor
  pub patch_number : IsNumber patch
  pub parts : u ≡ major ++ (b'.' ∷ (minor ++ (b'.' ∷ patch)))

pub dotted-append : (u r : List ℕ) → IsVersion u → Stops r → dotted (u ++ r) ≡ some (u, r)
unfolding dotted
dotted-append u r v st =
    rw (v.parts, append_assoc, append_assoc)
      (rw (digits1-append v.major _ v.major_number no_digits.1) (
        rw (digits1-append v.minor _ v.minor_number no_digits.1)
          (rw (digits1-append v.patch r v.patch_number st))))

pub char_sound : (d : ℕ) (t s : List ℕ) → char d t ≡ some s → t ≡ d ∷ s
unfolding char
char_sound d [] s h = cc
char_sound d (c ∷ t) s h = ground arith

dotted_join :
    (a b c r : List ℕ) {t s s' : List ℕ}
    → t ≡ a ++ (b'.' ∷ s)
    → s ≡ b ++ (b'.' ∷ s')
    → s' ≡ c ++ r
    → t ≡ (a ++ (b'.' ∷ (b ++ (b'.' ∷ c)))) ++ r
dotted_join a b c r e f g = rw (append_assoc, append_assoc, e, f, g)

pub dotted_sound : (t u r : List ℕ) → dotted t ≡ some (u, r) → IsVersion u × (t ≡ u ++ r) × Stops r
unfolding dotted
dotted_sound t u r h =
    let (p, e1, h1) = >>=-eq-some (digits1 t) _ h in
    let (s, e2, h2) = >>=-eq-some (char b'.' p.1) _ h1 in
    let (q, e3, h3) = >>=-eq-some (digits1 s) _ h2 in
    let (s', e4, h4) = >>=-eq-some (char b'.' q.1) _ h3 in
    let (w, e5, h5) = >>=-eq-some (digits1 s') _ h4 in
    let (n1, t1, st1) = digits1_sound t p.0 p.1 e1 in
    let (n2, t2, st2) = digits1_sound s q.0 q.1 e3 in
    let (n3, t3, st3) = digits1_sound s' w.0 w.1 e5 in
    let eu : p.0 ++ (b'.' ∷ (q.0 ++ (b'.' ∷ w.0))) ≡ u = ground arith in
    let er : w.1 ≡ r = ground arith in
    let whole =
      dotted_join p.0 q.0 w.0 w.1 (t1 ∙ ap (λ x. p.0 ++ x) (char_sound b'.' p.1 s e2))
        (t2 ∙ ap (λ x. q.0 ++ x) (char_sound b'.' q.1 s' e4)) t3 in
    (
      record {
        major = p.0;
        minor = q.0;
        patch = w.0;
        major_number = n1;
        minor_number = n2;
        patch_number = n3;
        parts = sym eu;
      },
      whole ∙ ap₂ (λ x y. x ++ y) eu er,
      subst Stops er st3,
    )
