-- ===== src/Prelude/Results.antt =====
-- A call that may raise: `ok` with what it returns, or `err` with the exception.
use mathlib.Core.Path.{◌≡◌, refl}
use mathlib.Core.Logic.{◌⊎◌, inl, inr}

pub data Result {ℓ κ} (E : Type ℓ) (A : Type κ) : Type (ℓ ⊔ κ) where
  ok : A → Result E A
  err : E → Result E A

infixl 5 ◌>>=◌
abbrev pub ◌>>=◌ {ℓ κ μ} :
    {E : Type ℓ} {A : Type κ} {B : Type μ} → Result E A → (A → Result E B) → Result E B
err problem >>= then = err problem
ok value >>= then = then value

-- A chain that ends well: what its first call returned, and how it went on.
pub >>=-eq-ok {ℓ κ μ} :
    {E : Type ℓ} {A : Type κ} {B : Type μ} (call : Result E A) (then : A → Result E B) {end : B}
    → (call >>= then) ≡ ok end
    → (value : A) × (call ≡ ok value) × (then value ≡ ok end)
>>=-eq-ok (err problem) then h = cc
>>=-eq-ok (ok value) then h = (value, refl, h)

pub Result-cases {ℓ κ} :
    {E : Type ℓ} {A : Type κ} (r : Result E A) → ((a : A) × (r ≡ ok a)) ⊎ ((e : E) × (r ≡ err e))
Result-cases (ok a) = inl (a, refl)
Result-cases (err e) = inr (e, refl)

pub ok-injective {ℓ κ} :
    {E : Type ℓ} {A : Type κ} {a b : A} → ◌≡◌ {A = Result E A} (ok a) (ok b) → a ≡ b
ok-injective h = cc

-- Steps over a state that may raise: what comes after a step gets its result and its state.
module _ {E A B S : Type 0} where
  abbrev pub after : Result E A × S → (A → S → Result E B × S) → Result E B × S
  after (ok a, s) f = f a s
  after (err e, s) f = (err e, s)

  pub after-eq-ok :
      (p : Result E A × S) (f : A → S → Result E B × S) {b : B} {t : S}
      → after p f ≡ (ok b, t)
      → (a : A) × (m : S) × (p ≡ (ok a, m)) × (f a m ≡ (ok b, t))
  after-eq-ok (ok a, m) f h = (a, m, refl, h)
  after-eq-ok (err e, m) f h = cc
