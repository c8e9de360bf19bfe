-- ===== src/Text/Decimal.antt =====
-- `str` of a natural number, and `int` of a text of digits.
use unifi_containers.Prelude.{
  ℕ, zero, suc, ◌+◌, ◌/◌, ◌%◌, ◌≤◌, ◌≡◌, ◌≢◌, ◌∙◌, ap, false, List, [], ◌∷◌, arith, ◌==◌,
  if◌then◌else◌, Bool-cases, inl, inr,
}
use unifi_containers.Text.Digits.{value_from, AllDigits, is_digit-ascii, digit_or_zero-ascii}
use unifi_containers.Text.Scan.{IsNumber}

-- The digits of `n` in front of `out`, on fuel that is at least `n`.
emit : ℕ → ℕ → List ℕ → List ℕ
emit zero n out = out
emit (suc f) n out =
    let rest = emit f (n / 10) ((b'0' + n % 10) ∷ out) in if n == 0 then out else rest

-- `str(n)`
unfoldable pub decimal : ℕ → List ℕ
unfolding emit
decimal n = if n == 0 then b'0' ∷ [] else emit n n []

-- `int(s)` for a text `s` of digits
unfoldable pub int_value : List ℕ → ℕ
int_value s = value_from 0 s

emit-AllDigits : (f n : ℕ) (out : List ℕ) → AllDigits out → AllDigits (emit f n out)
unfolding emit
emit-AllDigits zero n out h = h
emit-AllDigits (suc f) n out h = elim (Bool-cases (n == 0)) [
  | inl z ↦ rw z h
  | inr z ↦ rw z (emit-AllDigits f (n / 10) _ (is_digit-ascii (n % 10) (omega arith), h))
]

emit-ne-nil : (f n : ℕ) (out : List ℕ) → out ≢ [] → emit f n out ≢ []
unfolding emit
emit-ne-nil zero n out h = h
emit-ne-nil (suc f) n out h = elim (Bool-cases (n == 0)) [
  | inl z ↦ rw z h
  | inr z ↦ rw z (emit-ne-nil f (n / 10) _ (λ e. cc))
]

emit_pos : (n : ℕ) → (n == 0) ≡ false → emit n n [] ≢ []
unfolding emit
emit_pos zero z = cc
emit_pos (suc n) z = rw z (emit-ne-nil n (suc n / 10) _ (λ e. cc))

-- Reading the last digit of `n` after the digits before it.
value_from_last :
    (n : ℕ) (out : List ℕ) → value_from (n / 10) ((b'0' + n % 10) ∷ out) ≡ value_from n out
unfolding value_from
value_from_last n out =
    rw (digit_or_zero-ascii (n % 10) (omega arith)) (ap (λ k. value_from k out) (omega arith))

-- A printed number is one or more digits.
pub decimal-IsNumber : (n : ℕ) → IsNumber (decimal n)
unfolding decimal
decimal-IsNumber n = elim (Bool-cases (n == 0)) [
  | inl z ↦ rw z ((λ e. cc), (is_digit-ascii 0 (omega arith), tt))
  | inr z ↦ rw z (emit_pos n z, emit-AllDigits n n [] tt)
]

value_from-emit : (f n : ℕ) (out : List ℕ) → n ≤ f → value_from 0 (emit f n out) ≡ value_from n out
unfolding emit
value_from-emit zero n out h = let z : n ≡ 0 = omega arith in rw z
value_from-emit (suc f) n out h = elim (Bool-cases (n == 0)) [
  | inl z ↦ let e : n ≡ 0 = ground arith in rw (z, e)
  | inr z ↦
      rw z
        (value_from-emit f (n / 10) ((b'0' + n % 10) ∷ out) (ground arith) ∙ value_from_last n out)
]

-- Reading a printed number gives the number.
pub int_value-decimal : (n : ℕ) → int_value (decimal n) ≡ n
unfolding int_value decimal value_from
int_value-decimal n = elim (Bool-cases (n == 0)) [
  | inl z ↦ let e : n ≡ 0 = ground arith in rw (z, e) (value_from_last 0 [])
  | inr z ↦ rw z (value_from-emit n n [] (omega arith))
]
