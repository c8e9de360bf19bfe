-- ===== src/Vendorcheck/LastWord.antt =====
-- The last word of a text, and its first closing parenthesis: there is one of each.
use unifi_containers.Prelude.{
  ℕ, ◌≡◌, ◌≢◌, refl, sym, ◌∙◌, ap, ◌⊎◌, inl, inr, Bool-cases, true, false, [], ◌∷◌, ◌++◌, All,
}
use native.Mathlib.Decide.{ℕ_discrete}
use unifi_containers.Text.{Text}
use unifi_containers.Text.Words.{is_space}
use unifi_containers.Vendorcheck.{is_path_char}
use unifi_containers.Vendorcheck.Reads.{Spaces, Inside, is_space-is_path_char}

-- A word: no white space.
abbrev pub Solid : Text → Type 0
Solid t = All (λ c. is_space c ≡ false) t

same_word :
    (w g w' g' : Text) → Solid w → Solid w' → Spaces g → Spaces g' → w ++ g ≡ w' ++ g' → w ≡ w'
same_word [] g [] g' sw sw' sg sg' h = refl
same_word [] [] (d ∷ w') g' sw sw' sg sg' h = absurd (cc h)
same_word [] (c ∷ g) (d ∷ w') g' sw (k, sw') (e, sg) sg' h =
    let same : c ≡ d = cc h in absurd (cc (sym e ∙ ap is_space same ∙ k))
same_word (c ∷ w) g [] [] sw sw' sg sg' h = absurd (cc h)
same_word (c ∷ w) g [] (d ∷ g') (k, sw) sw' sg (e, sg') h =
    let same : c ≡ d = cc h in absurd (cc (sym k ∙ ap is_space same ∙ e))
same_word (c ∷ w) g (d ∷ w') g' (k, sw) (k', sw') sg sg' h =
    let same : c ≡ d = cc h in
    let rest : w ++ g ≡ w' ++ g' = cc h in
    let words : w ≡ w' = same_word w g w' g' sw sw' sg sg' rest in cc

-- Behind a white space of `w ++ g`, where `w` has none and `g` no other, no word begins.
no_later_word :
    (w g a : Text) (space c : ℕ) (t : Text)
    → Solid w
    → Spaces g
    → is_space space ≡ true
    → is_space c ≡ false
    → w ++ g ≢ a ++ (space ∷ c ∷ t)
no_later_word [] [] [] space c t sw sg e k h = cc h
no_later_word [] [] (b ∷ a) space c t sw sg e k h = cc h
no_later_word [] (d ∷ []) [] space c t sw sg e k h = cc h
no_later_word [] (d ∷ b ∷ g) [] space c t sw (_, (f, sg)) e k h =
    let same : b ≡ c = cc h in cc (sym f ∙ ap is_space same ∙ k)
no_later_word [] (d ∷ g) (b ∷ a) space c t sw (_, sg) e k h =
    let rest : g ≡ a ++ (space ∷ c ∷ t) = cc h in no_later_word [] g a space c t tt sg e k rest
no_later_word (d ∷ w) g [] space c t (f, sw) sg e k h =
    let same : d ≡ space = cc h in cc (sym f ∙ ap is_space same ∙ e)
no_later_word (d ∷ w) g (b ∷ a) space c t (f, sw) sg e k h =
    let rest : w ++ g ≡ a ++ (space ∷ c ∷ t) = cc h in no_later_word w g a space c t sw sg e k rest

-- Two words that end a text, but for white space, behind a white space are one.
pub last_word_from :
    (a a' : Text) (s s' : ℕ) (c d : ℕ) (w g w' g' : Text)
    → is_space s ≡ true
    → is_space s' ≡ true
    → Solid (c ∷ w)
    → Solid (d ∷ w')
    → Spaces g
    → Spaces g'
    → a ++ (s ∷ ((c ∷ w) ++ g)) ≡ a' ++ (s' ∷ ((d ∷ w') ++ g'))
    → c ∷ w ≡ d ∷ w'
last_word_from [] [] s s' c d w g w' g' e e' sw sw' sg sg' h =
    let rest : (c ∷ w) ++ g ≡ (d ∷ w') ++ g' = cc h in
    same_word (c ∷ w) g (d ∷ w') g' sw sw' sg sg' rest
last_word_from [] (b ∷ a') s s' c d w g w' g' e e' sw (k, sw') sg sg' h =
    let rest : (c ∷ w) ++ g ≡ a' ++ (s' ∷ d ∷ (w' ++ g')) = cc h in
    absurd (no_later_word (c ∷ w) g a' s' d (w' ++ g') sw sg e' k rest)
last_word_from (b ∷ a) [] s s' c d w g w' g' e e' (k, sw) sw' sg sg' h =
    let rest : (d ∷ w') ++ g' ≡ a ++ (s ∷ c ∷ (w ++ g)) = cc h in
    absurd (no_later_word (d ∷ w') g' a s c (w ++ g) sw' sg' e k rest)
last_word_from (b ∷ a) (b' ∷ a') s s' c d w g w' g' e e' sw sw' sg sg' h =
    let rest : a ++ (s ∷ ((c ∷ w) ++ g)) ≡ a' ++ (s' ∷ ((d ∷ w') ++ g')) = cc h in
    last_word_from a a' s s' c d w g w' g' e e' sw sw' sg sg' rest

pub is_path_char-is_space : (c : ℕ) → is_path_char c ≡ true → is_space c ≡ false
is_path_char-is_space c h = elim (Bool-cases (is_space c)) [
  | inr e ↦ e
  | inl e ↦ absurd (cc (sym h ∙ is_space-is_path_char c e))
]

pub path_Solid : (t : Text) → All (λ d. is_path_char d ≡ true) t → Solid t
path_Solid [] all = tt
path_Solid (c ∷ t) (k, all) = (is_path_char-is_space c k, path_Solid t all)

-- Up to the first closing parenthesis two spellings of a text agree.
pub first_parenthesis :
    (m m' r r' : Text)
    → Inside m
    → Inside m'
    → m ++ (b')' ∷ r) ≡ m' ++ (b')' ∷ r')
    → (m ≡ m') × (r ≡ r')
first_parenthesis [] [] r r' i i' h = (refl, cc h)
first_parenthesis [] (c ∷ m') r r' i (ne, i') h = absurd (ne (cc h))
first_parenthesis (c ∷ m) [] r r' (ne, i) i' h = absurd (ne (cc h))
first_parenthesis (c ∷ m) (d ∷ m') r r' (_, i) (_, i') h =
    let same : c ≡ d = cc h in
    let rest : m ++ (b')' ∷ r) ≡ m' ++ (b')' ∷ r') = cc h in
    let (ms, rs) = first_parenthesis m m' r r' i i' rest in (cc, rs)

-- A text has no closing parenthesis, or a first one.
pub parenthesis_cases :
    (t : Text) → Inside t ⊎ ((m : Text) × (u : Text) × (t ≡ m ++ (b')' ∷ u)) × Inside m)
parenthesis_cases [] = inl tt
parenthesis_cases (c ∷ t) = elim (ℕ_discrete c b')') [
  | yes e ↦ inr ([], t, ap (λ x. x ∷ t) e, tt)
  | no ne ↦ elim (parenthesis_cases t) [
    | inl i ↦ inl (ne, i)
    | inr (m, u, parts, i) ↦ inr (c ∷ m, u, ap (λ x. c ∷ x) parts, (ne, i))
  ]
]
