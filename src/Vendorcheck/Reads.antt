-- ===== src/Vendorcheck/Reads.antt =====
-- What STAMP_READ_RE reads, said without a matcher: the last word of a command substitution. A match
-- is such a substitution, and where there is one a match is found.
use unifi_containers.Prelude.{
  ℕ, ◌≡◌, ◌≢◌, refl, sym, ◌∙◌, ap, inl, inr, Bool-cases, Option-cases, true, false, ◌==◌, Option,
  none, some, [], ◌∷◌, ◌++◌, All, append_assoc, arith,
}
use unifi_containers.Text.{Text, codes, strip, strip_sound}
use unifi_containers.Text.Words.{is_space}
use unifi_containers.Vendorcheck.{
  is_path_char, span_path, closed, usr_lib, path_here, path_in, read_at,
}

abbrev pub opening : Text
opening = codes "$("

-- A path below /usr/lib/ of the characters that the pattern takes.
abbrev pub IsStamp : Text → Type 0
IsStamp path =
    (c : ℕ) × (cs : Text) × (path ≡ usr_lib ++ (c ∷ cs)) × All (λ d. is_path_char d ≡ true) (c ∷ cs)

abbrev pub Spaces : Text → Type 0
Spaces t = All (λ c. is_space c ≡ true) t

-- No closing parenthesis.
abbrev pub Inside : Text → Type 0
Inside t = All (λ c. c ≢ b')') t

-- What follows the opening parenthesis: words, a white space, the path, and the closing parenthesis.
pub record Arguments (path t behind : Text) : Type 0 where
  pub inner : Text
  pub space : ℕ
  pub gap : Text
  pub whole : t ≡ inner ++ (space ∷ (path ++ (gap ++ (b')' ∷ behind))))
  pub inside : Inside inner
  pub spaced : is_space space ≡ true
  pub stamp : IsStamp path
  pub spaces : Spaces gap

-- The script has a command substitution whose last word is the path.
pub record Reads (path script : Text) : Type 0 where
  pub before : Text
  pub rest : Text
  pub behind : Text
  pub parts : script ≡ before ++ (opening ++ rest)
  pub arguments : Arguments path rest behind

closed_sound :
    (t r : Text) → closed t ≡ some r → (gap : Text) × (t ≡ gap ++ (b')' ∷ r)) × Spaces gap
unfolding closed
closed_sound [] r h = absurd (cc h)
closed_sound (c ∷ t) r h = elim (Bool-cases (c == b')')) [
  | inl e ↦
      let h' = rw (e, closed) at h in
      let same : t ≡ r = cc h' in
      let head : c ≡ b')' = ground arith in ([], rw (head, same) refl, tt)
  | inr e ↦ elim (Bool-cases (is_space c)) [
    | inl k ↦
        let (gap, parts, all) = closed_sound t r (rw (e, k, closed) at h) in
        (c ∷ gap, ap (λ x. c ∷ x) parts, (k, all))
    | inr k ↦ let h' = rw (e, k, closed) at h in absurd (cc h')
  ]
]

pub closed_found :
    (gap behind : Text) → Spaces gap → (r : Text) × (closed (gap ++ (b')' ∷ behind)) ≡ some r)
unfolding closed
closed_found [] behind all = (behind, refl)
closed_found (c ∷ gap) behind (k, all) = elim (Bool-cases (c == b')')) [
  | inl e ↦ (gap ++ (b')' ∷ behind), rw (e, closed) refl)
  | inr e ↦ let (r, found) = closed_found gap behind all in (r, rw (e, k, closed) found)
]

pub span_path_sound :
    (t : Text)
    → All (λ d. is_path_char d ≡ true) (span_path t).0 × (t ≡ (span_path t).0 ++ (span_path t).1)
unfolding span_path
span_path_sound [] = (tt, refl)
span_path_sound (c ∷ t) = elim (Bool-cases (is_path_char c)) [
  | inl e ↦ let (all, parts) = span_path_sound t in rw e ((e, all), ap (λ x. c ∷ x) parts)
  | inr e ↦ rw e (tt, refl)
]

-- A white space is no character of a path.
pub is_space-is_path_char : (c : ℕ) → is_space c ≡ true → is_path_char c ≡ false
unfolding is_space is_path_char
is_space-is_path_char c h = ground arith

-- The path and what is between it and the end of the substitution.
record Here (path t behind : Text) : Type 0 where
  pub gap : Text
  pub whole : t ≡ path ++ (gap ++ (b')' ∷ behind))
  pub stamp : IsStamp path
  pub spaces : Spaces gap

stamped_word :
    (t s w g path behind : Text)
    → t ≡ usr_lib ++ s
    → s ≡ w ++ g
    → All (λ d. is_path_char d ≡ true) w
    → ◌≡◌ {A = Option (Text × Text)}
        (elim w [
          | [] ↦ none
          | c ∷ cs ↦ elim (closed g) [ none ↦ none | some rest ↦ some (usr_lib ++ (c ∷ cs), rest) ]
        ])
        (some (path, behind))
    → Here path t behind
stamped_word t s [] g path behind et es all h = absurd (cc h)
stamped_word t s (c ∷ cs) g path behind et es all h = from (closed g) refl h
  where
    from :
        (o : Option Text)
        → closed g ≡ o
        → ◌≡◌ {A = Option (Text × Text)}
            (elim o [ none ↦ none | some rest ↦ some (usr_lib ++ (c ∷ cs), rest) ])
            (some (path, behind))
        → Here path t behind
    from none e k = absurd (cc k)
    from (some rest) e k =
        let (gap, parts, spaces) = closed_sound g rest e in
        let same_path : usr_lib ++ (c ∷ cs) ≡ path = cc k in
        let same_rest : rest ≡ behind = cc k in
        record {
          gap = gap;
          whole =
              et
              ∙ ap (λ x. usr_lib ++ x) es
              ∙ sym (append_assoc usr_lib (c ∷ cs) g)
              ∙ ap (λ x. x ++ g) same_path
              ∙ ap (λ x. path ++ x) parts
              ∙ ap (λ x. path ++ (gap ++ (b')' ∷ x))) same_rest;
          stamp = (c, cs, sym same_path, all);
          spaces = spaces;
        }

path_here_sound : (t path behind : Text) → path_here t ≡ some (path, behind) → Here path t behind
unfolding path_here
path_here_sound t path behind h = from (strip usr_lib t) refl h
  where
    from :
        (o : Option Text)
        → strip usr_lib t ≡ o
        → ◌≡◌ {A = Option (Text × Text)}
            (elim o [
              | none ↦ none
              | some s ↦ elim (span_path s).0 [
                | [] ↦ none
                | c ∷ cs ↦ elim (closed (span_path s).1) [
                  | none ↦ none
                  | some rest ↦ some (usr_lib ++ (c ∷ cs), rest)
                ]
              ]
            ])
            (some (path, behind))
        → Here path t behind
    from none e k = absurd (cc k)
    from (some s) e k =
        let (all, parts) = span_path_sound s in
        stamped_word t s (span_path s).0 (span_path s).1 path behind (strip_sound usr_lib t e) parts
          all k

one_more :
    (c : ℕ) (t path behind : Text)
    → c ≢ b')'
    → Arguments path t behind
    → Arguments path (c ∷ t) behind
one_more c t path behind ne a = record {
  inner = c ∷ a.inner;
  space = a.space;
  gap = a.gap;
  whole = ap (λ x. c ∷ x) a.whole;
  inside = (ne, a.inside);
  spaced = a.spaced;
  stamp = a.stamp;
  spaces = a.spaces;
}

no_parenthesis : (c : ℕ) → (c == b')') ≡ false → c ≢ b')'
no_parenthesis c h = ground arith

-- What is found between the parentheses has the form that the pattern says.
pub path_in_sound :
    (t path behind : Text) → path_in t ≡ some (path, behind) → Arguments path t behind
unfolding path_in
path_in_sound [] path behind h = absurd (cc h)
path_in_sound (c ∷ t) path behind h = elim (Bool-cases (is_space c)) [
  | inr k ↦ elim (Bool-cases (c == b')')) [
    | inl e ↦ let h' = rw (k, e, path_in) at h in absurd (cc h')
    | inr e ↦
        one_more c t path behind (no_parenthesis c e)
          (path_in_sound t path behind (rw (k, e, path_in) at h))
  ]
  | inl k ↦ elim (Option-cases (path_here t)) [
    | inl none_here ↦ elim (Bool-cases (c == b')')) [
      | inl e ↦ let h' = rw (k, none_here, e, path_in) at h in absurd (cc h')
      | inr e ↦
          one_more c t path behind (no_parenthesis c e)
            (path_in_sound t path behind (rw (k, none_here, e, path_in) at h))
    ]
    | inr (found, e) ↦
        let h' = rw (k, e, path_in) at h in
        let here = path_here_sound t path behind (e ∙ h') in
        record {
          inner = [];
          space = c;
          gap = here.gap;
          whole = ap (λ x. c ∷ x) here.whole;
          inside = tt;
          spaced = k;
          stamp = here.stamp;
          spaces = here.spaces;
        }
  ]
]

pub read_at_sound :
    (t path behind : Text)
    → read_at t ≡ some (path, behind)
    → (rest : Text) × (t ≡ opening ++ rest) × Arguments path rest behind
unfolding read_at
read_at_sound t path behind h = elim (Option-cases (strip opening t)) [
  | inl e ↦ let h' = rw (e, read_at) at h in absurd (cc h')
  | inr (rest, e) ↦
      (rest, strip_sound opening t e, path_in_sound rest path behind (rw (e, read_at) at h))
]
