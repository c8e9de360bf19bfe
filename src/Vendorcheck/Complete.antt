-- ===== src/Vendorcheck/Complete.antt =====
-- Where there is a command substitution of a path a match is found, and two that end at the same
-- parenthesis have the same path.
use unifi_containers.Prelude.{
  ℕ, ◌≡◌, ◌≢◌, refl, sym, ◌∙◌, ap, subst, inl, inr, Bool-cases, Option-cases, true, false, ◌==◌,
  none, some, [], ◌∷◌, ◌++◌, All, All-append, append_assoc, arith,
}
use unifi_containers.Text.{Text, strip-append}
use unifi_containers.Text.Words.{is_space}
use unifi_containers.Vendorcheck.{
  is_path_char, span_path, closed, usr_lib, path_here, path_in, read_at,
}
use unifi_containers.Vendorcheck.Reads.{
  opening, IsStamp, Spaces, Inside, Arguments, closed_found, is_space-is_path_char,
}
use unifi_containers.Vendorcheck.LastWord.{last_word_from, path_Solid, first_parenthesis, Solid}

span_path_stops :
    (gap behind : Text)
    → Spaces gap
    → span_path (gap ++ (b')' ∷ behind)) ≡ ([], gap ++ (b')' ∷ behind))
unfolding span_path is_path_char
span_path_stops [] behind spaces = refl
span_path_stops (c ∷ gap) behind (k, spaces) =
    let e = is_space-is_path_char c k in rw (e, span_path) refl

span_path_found :
    (w g : Text)
    → All (λ d. is_path_char d ≡ true) w
    → span_path g ≡ ([], g)
    → span_path (w ++ g) ≡ (w, g)
unfolding span_path
span_path_found [] g all stops = stops
span_path_found (c ∷ w) g (k, all) stops = rw (k, span_path_found w g all stops, span_path) refl

path_here_found :
    (path gap behind : Text)
    → IsStamp path
    → Spaces gap
    → (x : Text × Text) × (path_here (path ++ (gap ++ (b')' ∷ behind))) ≡ some x)
unfolding path_here
path_here_found path gap behind (c, cs, parts, all) spaces =
    let g = gap ++ (b')' ∷ behind) in
    let (r, ends) = closed_found gap behind spaces in
    let spanned = span_path_found (c ∷ cs) g all (span_path_stops gap behind spaces) in
    (
      (usr_lib ++ (c ∷ cs), r),
      ap path_here (ap (λ x. x ++ g) parts ∙ append_assoc usr_lib (c ∷ cs) g)
          ∙ rw (strip-append usr_lib ((c ∷ cs) ++ g), path_here)
              (ap
                  (λ (p : Text × Text). elim p.0 [
                    | [] ↦ none
                    | d ∷ ds ↦ elim (closed p.1) [
                      | none ↦ none
                      | some rest ↦ some (usr_lib ++ (d ∷ ds), rest)
                    ]
                  ])
                  spanned
                ∙ rw ends refl),
    )

path_in_found :
    (path inner gap behind : Text) (space : ℕ)
    → IsStamp path
    → Spaces gap
    → is_space space ≡ true
    → Inside inner
    → (x : Text × Text) × (path_in (inner ++ (space ∷ (path ++ (gap ++ (b')' ∷ behind))))) ≡ some x)
unfolding path_in
path_in_found path [] gap behind space stamp spaces k inside =
    let (x, here) = path_here_found path gap behind stamp spaces in (x, rw (k, here, path_in) refl)
path_in_found path (c ∷ inner) gap behind space stamp spaces k (ne, inside) =
    let t = inner ++ (space ∷ (path ++ (gap ++ (b')' ∷ behind)))) in
    let (x, later) = path_in_found path inner gap behind space stamp spaces k inside in
    let not_closed : (c == b')') ≡ false = ground arith in
    elim (Bool-cases (is_space c)) [
      | inr e ↦ (x, rw (e, not_closed, path_in) later)
      | inl e ↦ elim (Option-cases (path_here t)) [
        | inl none_here ↦ (x, rw (e, none_here, not_closed, path_in) later)
        | inr (y, here) ↦ (y, rw (e, here, path_in) refl)
      ]
    ]

pub read_at_found :
    (path rest behind : Text)
    → Arguments path rest behind
    → (x : Text × Text) × (read_at (opening ++ rest) ≡ some x)
unfolding read_at
read_at_found path rest behind a =
    let (x, found) =
      path_in_found path a.inner a.gap behind a.space a.stamp a.spaces a.spaced a.inside in
    (x, rw (strip-append opening rest, read_at) (ap path_in a.whole ∙ found))

-- What stands ahead of the last word may be longer.
pub ahead :
    (path behind x t : Text) → Inside x → Arguments path t behind → Arguments path (x ++ t) behind
ahead path behind x t inside a = record {
  inner = x ++ a.inner;
  space = a.space;
  gap = a.gap;
  whole = ap (λ y. x ++ y) a.whole ∙ sym (append_assoc x a.inner _);
  inside = All-append _ x a.inner inside a.inside;
  spaced = a.spaced;
  stamp = a.stamp;
  spaces = a.spaces;
}

path_Inside : (t : Text) → All (λ d. is_path_char d ≡ true) t → Inside t
unfolding is_path_char
path_Inside [] all = tt
path_Inside (c ∷ t) (k, all) = (ground arith, path_Inside t all)

space_outside : (c : ℕ) → is_space c ≡ true → c ≢ b')'
unfolding is_space
space_outside c k = ground arith

Spaces-Inside : (t : Text) → Spaces t → Inside t
Spaces-Inside [] all = tt
Spaces-Inside (c ∷ t) (k, all) = (space_outside c k, Spaces-Inside t all)

usr_lib_chars : All (λ d. is_path_char d ≡ true) usr_lib
unfolding is_path_char
usr_lib_chars = (refl, (refl, (refl, (refl, (refl, (refl, (refl, (refl, (refl, tt)))))))))

stamp_word :
    (path : Text)
    → IsStamp path
    → (c : ℕ) × (cs : Text) × (path ≡ c ∷ cs) × Solid (c ∷ cs) × Inside (c ∷ cs)
stamp_word path (c, cs, parts, all) =
    let chars : All (λ d. is_path_char d ≡ true) (usr_lib ++ (c ∷ cs)) =
      All-append (λ d. is_path_char d ≡ true) usr_lib (c ∷ cs) usr_lib_chars all in
    (_, _, parts, path_Solid (usr_lib ++ (c ∷ cs)) chars, path_Inside (usr_lib ++ (c ∷ cs)) chars)

-- What an `Arguments` has up to its closing parenthesis.
pub up_to : {path t behind : Text} → Arguments path t behind → Text
up_to {path = path} a = a.inner ++ (a.space ∷ (path ++ a.gap))

pub up_to_parts :
    {path t behind : Text} (a : Arguments path t behind)
    → (t ≡ up_to a ++ (b')' ∷ behind)) × Inside (up_to a)
unfolding up_to
up_to_parts {path = path} {behind = behind} a =
    let (c, cs, same, _, within) = stamp_word path a.stamp in
    (
      a.whole
          ∙ ap (λ x. a.inner ++ (a.space ∷ x)) (sym (append_assoc path a.gap (b')' ∷ behind)))
          ∙ sym (append_assoc a.inner (a.space ∷ (path ++ a.gap)) (b')' ∷ behind)),
      All-append (λ d. d ≢ b')') a.inner (a.space ∷ (path ++ a.gap)) a.inside
          (
            space_outside a.space a.spaced,
            All-append (λ d. d ≢ b')') path a.gap (subst Inside (sym same) within)
                (Spaces-Inside a.gap a.spaces),
          ),
    )

-- Two readings of the same text end at the same parenthesis and have the same path.
pub same_arguments :
    (path path' t b b' : Text)
    → Arguments path t b
    → Arguments path' t b'
    → (path ≡ path') × (b ≡ b')
unfolding up_to
same_arguments path path' t b b' a a' =
    let (whole, inside) = up_to_parts a in
    let (whole', inside') = up_to_parts a' in
    let (ends, rests) = first_parenthesis _ _ b b' inside inside' (sym whole ∙ whole') in
    let (c, cs, p, solid, _) = stamp_word path a.stamp in
    let (d, ds, p', solid', _) = stamp_word path' a'.stamp in
    let words =
      last_word_from a.inner a'.inner a.space a'.space c d cs a.gap ds a'.gap a.spaced a'.spaced
        solid solid' a.spaces a'.spaces
        (ap (λ x. a.inner ++ (a.space ∷ (x ++ a.gap))) (sym p)
          ∙ ends
          ∙ ap (λ x. a'.inner ++ (a'.space ∷ (x ++ a'.gap))) p') in
    (p ∙ words ∙ sym p', rests)
