-- ===== src/Text/Words.antt =====
-- White space, `str.strip`, `str.split` with no argument, `str.join`, and suffixes.
use unifi_containers.Text.{text_eq, text_eq_refl}
use unifi_containers.Prelude.{
  ℕ, ◌≡◌, refl, sym, ◌∙◌, ap, Bool, true, false, ◌&&◌, ◌||◌, List, [], ◌∷◌, ◌++◌, append_assoc,
  append-nil, arith, leb, ◌==◌, if◌then◌else◌, All,
}

-- `str.isspace` of one character.
unfoldable pub is_space : ℕ → Bool
is_space c =
    c == 0x20
    || (leb 0x09 c && leb c 0x0d)
    || (leb 0x1c c && leb c 0x1f)
    || c == 0x85
    || c == 0xa0
    || c == 0x1680
    || (leb 0x2000 c && leb c 0x200a)
    || c == 0x2028
    || c == 0x2029
    || c == 0x202f
    || c == 0x205f
    || c == 0x3000

unfoldable pub lstrip : List ℕ → List ℕ
lstrip [] = []
lstrip (c ∷ s) = let rest = lstrip s in if is_space c then rest else c ∷ s

unfoldable pub rstrip : List ℕ → List ℕ
rstrip [] = []
rstrip (c ∷ s) =
    let rest = rstrip s in elim rest [ d ∷ r ↦ c ∷ d ∷ r | [] ↦ if is_space c then [] else c ∷ [] ]

-- `s.strip()`
unfoldable pub trim : List ℕ → List ℕ
unfolding lstrip rstrip
trim s = rstrip (lstrip s)

-- The word read so far in front of the others, unless it is empty.
unfoldable pub push_word : List ℕ → List (List ℕ) → List (List ℕ)
push_word [] ws = ws
push_word (c ∷ w) ws = (c ∷ w) ∷ ws

-- The words of `s`, where `w` is what has been read of the current one.
unfoldable pub words_from : List ℕ → List ℕ → List (List ℕ)
unfolding push_word
words_from w [] = push_word w []
words_from w (c ∷ s) = elim (is_space c) [
  | true ↦ push_word w (words_from [] s)
  | false ↦ words_from (w ++ (c ∷ [])) s
]

-- `s.split()`
unfoldable pub words : List ℕ → List (List ℕ)
unfolding words_from
words s = words_from [] s

-- `sep.join(ws)`
unfoldable pub join : List ℕ → List (List ℕ) → List ℕ
join sep [] = []
join sep (w ∷ []) = w
join sep (w ∷ v ∷ ws) = w ++ (sep ++ join sep (v ∷ ws))

-- `t.endswith(suffix)`
unfoldable pub ends_with : List ℕ → List ℕ → Bool
unfolding text_eq
ends_with suffix [] = text_eq suffix []
ends_with suffix (c ∷ t) = text_eq suffix (c ∷ t) || ends_with suffix t

-- A word: at least one character, and no white space.
abbrev pub IsWord : List ℕ → Type 0
IsWord [] = ⊥
IsWord (c ∷ w) = (is_space c ≡ false) × All (λ d. is_space d ≡ false) w

words_from-append :
    (w v rest : List ℕ)
    → All (λ d. is_space d ≡ false) v
    → words_from w (v ++ rest) ≡ words_from (w ++ v) rest
unfolding words_from
words_from-append w [] rest h = rw append-nil
words_from-append w (c ∷ v) rest (hc, hv) =
    rw (hc, words_from) (words_from-append (w ++ (c ∷ [])) v rest hv ∙ rw append_assoc)

IsWord-All : (w : List ℕ) → IsWord w → All (λ d. is_space d ≡ false) w
IsWord-All [] h = absurd h
IsWord-All (c ∷ w) h = h

push_word-IsWord : (w : List ℕ) (ws : List (List ℕ)) → IsWord w → push_word w ws ≡ w ∷ ws
unfolding push_word
push_word-IsWord [] ws h = absurd h
push_word-IsWord (c ∷ w) ws h = refl

-- Words joined by a blank are split into the same words.
pub words-join : (ws : List (List ℕ)) → All IsWord ws → words (join (b' ' ∷ []) ws) ≡ ws
unfolding words join is_space
words-join [] h = refl
words-join (w ∷ []) h =
    ap (words_from []) (sym (append-nil w))
    ∙ words_from-append [] w [] (IsWord-All w h.0)
    ∙ push_word-IsWord w [] h.0
words-join (w ∷ v ∷ ws) h =
    words_from-append [] w _ (IsWord-All w h.0)
    ∙ push_word-IsWord w _ h.0
    ∙ ap (λ x. w ∷ x) (words-join (v ∷ ws) h.1)

pub ends_with-append : (s t : List ℕ) → ends_with t (s ++ t) ≡ true
unfolding ends_with
ends_with-append [] [] = refl
ends_with-append [] (d ∷ t) = ground (arith, text_eq_refl (d ∷ t))
ends_with-append (c ∷ s) t = ground (arith, ends_with-append s t)
