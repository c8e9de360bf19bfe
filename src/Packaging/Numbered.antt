-- ===== src/Packaging/Numbered.antt =====
-- A concrete `Versions` that meets `IsOrdered`: X.Y.Z and X.Y.Z-N, compared number by number.
use unifi_containers.Prelude.{
  ℕ, ◌≡◌, ◌⊎◌, ◌↔◌, Bool, true, false, ◌&&◌, ◌||◌, not, Option, some, [], ◌∷◌, ◌++◌, append_assoc,
  append-nil, arith, ltb, ◌==◌, ◌>>=◌, inl, inr, Bool-cases, subst,
}
use unifi_containers.Packaging.{Versions, IsOrdered}
use unifi_containers.Text.{Text}
use unifi_containers.Text.Digits.{no_digits}
use unifi_containers.Text.Decimal.{decimal, int_value, decimal-IsNumber, int_value-decimal}
use unifi_containers.Text.Scan.{digits1, char, IsVersion, digits1-append}

pub record Numbers : Type 0 where
  pub major : ℕ
  pub minor : ℕ
  pub patch : ℕ
  pub post : ℕ

-- The post-release number, if there is one.
unfoldable pub read_post : Text → Option ℕ
unfolding char
read_post [] = some 0
read_post (c ∷ s) = do s' ← char b'-' (c ∷ s); (n, rest) ← digits1 s'; some (int_value n)

unfoldable pub read_numbers : Text → Option Numbers
unfolding char read_post
read_numbers t = do
  (a, r) ← digits1 t
  s ← char b'.' r
  (b, r') ← digits1 s
  s' ← char b'.' r'
  (c, rest) ← digits1 s'
  n ← read_post rest
  some (record { major = int_value a; minor = int_value b; patch = int_value c; post = n })

-- Compared as one number after another.
abbrev lower : Numbers → Numbers → Bool
lower a b =
    ltb a.major b.major
    || (a.major == b.major
        && (ltb a.minor b.minor
            || (a.minor == b.minor
                && (ltb a.patch b.patch || (a.patch == b.patch && ltb a.post b.post)))))

abbrev pub numbered : Versions
numbered = record {
  Key = Numbers;
  read = read_numbers;
  lt = lower;
  eq = λ a b. not (lower a b) && not (lower b a);
}

lower_irrefl : (a : Numbers) → lower a a ≡ false
lower_irrefl a = ground arith

lower_trans : (a b c : Numbers) → lower a b ≡ true → lower b c ≡ true → lower a c ≡ true
lower_trans a b c h k = ground arith

lower_between : (a b c : Numbers) → lower a c ≡ true → (lower a b ≡ true) ⊎ (lower b c ≡ true)
lower_between a b c h = elim (Bool-cases (lower a b)) [ inl k ↦ inl k | inr k ↦ inr (ground arith) ]

neither : (p q : Bool) → ((not p && not q) ≡ true) ↔ ((p ≡ false) × (q ≡ false))
neither true true = ground arith
neither true false = ground arith
neither false true = ground arith
neither false false = ground arith

digits1-decimal : (n : ℕ) → digits1 (decimal n) ≡ some (decimal n, [])
digits1-decimal n =
    subst (λ t. digits1 t ≡ some (decimal n, [])) (append-nil (decimal n))
      (digits1-append (decimal n) [] (decimal-IsNumber n) tt)

-- The numbers of the version `u`, with the post-release number `n`.
abbrev pub numbers_of : (u : Text) (n : ℕ) → IsVersion u → Numbers
numbers_of u n v = record {
  major = int_value v.major;
  minor = int_value v.minor;
  patch = int_value v.patch;
  post = n;
}

pub read_numbers-post :
    (u : Text) (n : ℕ) (v : IsVersion u)
    → read_numbers (u ++ (b'-' ∷ decimal n)) ≡ some (numbers_of u n v)
unfolding read_numbers read_post
read_numbers-post u n v =
    rw (v.parts, append_assoc, append_assoc)
      (rw (digits1-append v.major _ v.major_number no_digits.1) (
        rw (digits1-append v.minor _ v.minor_number no_digits.1) (
          rw (digits1-append v.patch _ v.patch_number no_digits.0)
            (rw (digits1-decimal n, int_value-decimal)))))

lower-post :
    (u : Text) (m n : ℕ) (a b : Numbers)
    → IsVersion u
    → read_numbers (u ++ (b'-' ∷ decimal m)) ≡ some a
    → read_numbers (u ++ (b'-' ∷ decimal n)) ≡ some b
    → lower a b ≡ ltb m n
lower-post u m n a b v ea eb =
    let ra = read_numbers-post u m v in
    let rb = read_numbers-post u n v in
    let ha : numbers_of u m v ≡ a = cc in
    let hb : numbers_of u n v ≡ b = cc in
    subst (λ x. lower x b ≡ ltb m n) ha
      (subst (λ x. lower (numbers_of u m v) x ≡ ltb m n) hb (ground arith))

pub numbered-IsOrdered : IsOrdered numbered
numbered-IsOrdered = record {
  lt_irrefl = lower_irrefl;
  lt_trans = lower_trans;
  lt_between = lower_between;
  eq_iff_neither = λ a b. neither (lower a b) (lower b a);
  lt_post = lower-post;
}
