-- ===== src/Text/Digits.antt =====
-- What `\d` of `re` and `int` take for a digit: a character of the Unicode category Nd. These come
-- in runs of ten, and `digit_zeros` lists the zeros of the runs (Unicode 14).
use unifi_containers.Prelude.{
  ℕ, ◌+◌, ◌-◌, ◌*◌, ◌<◌, ◌≡◌, refl, Bool, true, false, ◌&&◌, Option, none, some, List, [], ◌∷◌,
  arith, leb, ltb, if◌then◌else◌, All,
}

abbrev pub digit_zeros : List ℕ
digit_zeros =
    0x30 ∷ 0x660 ∷ 0x6f0 ∷ 0x7c0 ∷ 0x966 ∷ 0x9e6 ∷ 0xa66 ∷ 0xae6 ∷ 0xb66 ∷ 0xbe6 ∷ 0xc66 ∷ 0xce6
    ∷ 0xd66 ∷ 0xde6 ∷ 0xe50 ∷ 0xed0 ∷ 0xf20 ∷ 0x1040 ∷ 0x1090 ∷ 0x17e0 ∷ 0x1810 ∷ 0x1946 ∷ 0x19d0
    ∷ 0x1a80 ∷ 0x1a90 ∷ 0x1b50 ∷ 0x1bb0 ∷ 0x1c40 ∷ 0x1c50 ∷ 0xa620 ∷ 0xa8d0 ∷ 0xa900 ∷ 0xa9d0
    ∷ 0xa9f0 ∷ 0xaa50 ∷ 0xabf0 ∷ 0xff10 ∷ 0x104a0 ∷ 0x10d30 ∷ 0x11066 ∷ 0x110f0 ∷ 0x11136 ∷ 0x111d0
    ∷ 0x112f0 ∷ 0x11450 ∷ 0x114d0 ∷ 0x11650 ∷ 0x116c0 ∷ 0x11730 ∷ 0x118e0 ∷ 0x11950 ∷ 0x11c50
    ∷ 0x11d50 ∷ 0x11da0 ∷ 0x16a60 ∷ 0x16ac0 ∷ 0x16b50 ∷ 0x1d7ce ∷ 0x1d7d8 ∷ 0x1d7e2 ∷ 0x1d7ec
    ∷ 0x1d7f6 ∷ 0x1e140 ∷ 0x1e2f0 ∷ 0x1e950 ∷ 0x1fbf0 ∷ []

unfoldable pub digit_in : List ℕ → ℕ → Option ℕ
digit_in [] c = none
digit_in (z ∷ zs) c = if leb z c && ltb c (z + 10) then some (c - z) else digit_in zs c

-- The value of a digit; `none` for any other character.
unfoldable pub digit_value : ℕ → Option ℕ
unfolding digit_in
digit_value c = digit_in digit_zeros c

unfoldable pub is_digit : ℕ → Bool
is_digit c = elim (digit_value c) [ none ↦ false | some d ↦ true ]

digit_value-ascii : (d : ℕ) → d < 10 → digit_value (b'0' + d) ≡ some d
unfolding digit_value
digit_value-ascii d h = ground arith

pub is_digit-ascii : (d : ℕ) → d < 10 → is_digit (b'0' + d) ≡ true
unfolding is_digit
is_digit-ascii d h = rw (digit_value-ascii d h, is_digit)

-- The number that a digit adds; a character that is no digit adds nothing.
unfoldable pub digit_or_zero : ℕ → ℕ
digit_or_zero c = elim (digit_value c) [ none ↦ 0 | some d ↦ d ]

pub digit_or_zero-ascii : (d : ℕ) → d < 10 → digit_or_zero (b'0' + d) ≡ d
unfolding digit_or_zero
digit_or_zero-ascii d h = rw (digit_value-ascii d h, digit_or_zero)

-- `int` of a text of digits.
unfoldable pub value_from : ℕ → List ℕ → ℕ
value_from n [] = n
value_from n (c ∷ s) = value_from (n * 10 + digit_or_zero c) s

abbrev pub AllDigits : List ℕ → Type 0
AllDigits = All (λ c. is_digit c ≡ true)

-- The text is at its end, or goes on with a character that is no digit.
abbrev pub Stops : List ℕ → Type 0
Stops [] = Unit
Stops (c ∷ s) = is_digit c ≡ false

pub no_digits :
    (is_digit b'-' ≡ false)
    × (is_digit b'.' ≡ false)
    × (is_digit b'/' ≡ false)
    × (is_digit b'\n' ≡ false)
unfolding is_digit digit_value
no_digits = (refl, refl, refl, refl)
