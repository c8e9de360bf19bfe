-- ===== src/Text/Spaces.antt =====
-- No digit is white space.
use unifi_containers.Prelude.{
  ℕ, ◌+◌, ◌≡◌, refl, inl, inr, Bool, true, false, ◌||◌, ◌&&◌, none, List, [], ◌∷◌, arith, leb, ltb,
  ◌==◌, ==_iff, Bool-cases,
}
use unifi_containers.Text.Digits.{digit_zeros, digit_in, digit_value, is_digit}
use unifi_containers.Text.Words.{is_space}

-- The range from `low` to `high` meets none of the runs of ten digits.
abbrev clear : ℕ → ℕ → List ℕ → Bool
clear low high [] = true
clear low high (z ∷ zs) = (ltb high z || leb (z + 10) low) && clear low high zs

digit_in-clear :
    (low high : ℕ) (zs : List ℕ) (c : ℕ)
    → clear low high zs ≡ true
    → (leb low c && leb c high) ≡ true
    → digit_in zs c ≡ none
unfolding digit_in
digit_in-clear low high [] c h k = refl
digit_in-clear low high (z ∷ zs) c h k =
    let here : (ltb high z || leb (z + 10) low) ≡ true = ground arith in
    let rest : clear low high zs ≡ true = ground arith in
    let out : (leb z c && ltb c (z + 10)) ≡ false = ground arith in
    rw (out, digit_in) (digit_in-clear low high zs c rest k)

range_no_digit :
    (low high c : ℕ)
    → clear low high digit_zeros ≡ true
    → (leb low c && leb c high) ≡ true
    → is_digit c ≡ false
unfolding is_digit digit_value
range_no_digit low high c h k = rw (digit_in-clear low high digit_zeros c h k, is_digit)

one_no_digit : (k c : ℕ) → clear k k digit_zeros ≡ true → (c == k) ≡ true → is_digit c ≡ false
one_no_digit k c h e = let same : c ≡ k = (==_iff c k).0 e in range_no_digit k k c h (ground arith)

-- What follows from each of two tests follows from their disjunction.
either : (P : Type 0) (a b : Bool) → (a ≡ true → P) → (b ≡ true → P) → (a || b) ≡ true → P
either P true b f g h = f refl
either P false b f g h = g h

infixl 4 ◌or◌
◌or◌ : {P : Type 0} {a b : Bool} → (a ≡ true → P) → (b ≡ true → P) → (a || b) ≡ true → P
f or g = either _ _ _ f g

space_no_digit : (c : ℕ) → is_space c ≡ true → is_digit c ≡ false
unfolding is_space
space_no_digit c =
    one_no_digit 0x20 c refl
    or range_no_digit 0x09 0x0d c refl
    or range_no_digit 0x1c 0x1f c refl
    or one_no_digit 0x85 c refl
    or one_no_digit 0xa0 c refl
    or one_no_digit 0x1680 c refl
    or range_no_digit 0x2000 0x200a c refl
    or one_no_digit 0x2028 c refl
    or one_no_digit 0x2029 c refl
    or one_no_digit 0x202f c refl
    or one_no_digit 0x205f c refl
    or one_no_digit 0x3000 c refl

-- A digit is no white space.
pub digit_no_space : (c : ℕ) → is_digit c ≡ true → is_space c ≡ false
digit_no_space c h = elim (Bool-cases (is_space c)) [ inr e ↦ e | inl e ↦ cc (space_no_digit c e) ]
