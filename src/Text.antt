-- ===== src/Text.antt =====
-- Python's `str` as its code points, equality of texts, and prefixes of them.
pub mod Digits
pub mod Decimal
pub mod Scan
pub mod Words
pub mod Lines
pub mod Spaces
pub mod Find
pub mod Row
use Prim.Native.Char.{code}
use unifi_containers.Prelude.{
  ℕ, String, ◌≡◌, refl, ap, ◌↔◌, Bool, true, false, ◌&&◌, Option, none, some, List, [], ◌∷◌, ◌++◌,
  arith, ◌==◌, ==_iff, if◌then◌else◌,
}

abbrev pub Text : Type 0
Text = List ℕ

-- The code points of a literal.
abbrev pub codes : String → Text
codes String.[] = []
codes (String.◌∷◌ c s) = code c ∷ codes s

-- `a == b`
unfoldable pub text_eq : Text → Text → Bool
text_eq [] [] = true
text_eq [] (d ∷ t) = false
text_eq (c ∷ s) [] = false
text_eq (c ∷ s) (d ∷ t) = c == d && text_eq s t

pub text_eq_sound : (s t : Text) → text_eq s t ≡ true → s ≡ t
unfolding text_eq
text_eq_sound [] [] h = refl
text_eq_sound [] (d ∷ t) h = cc
text_eq_sound (c ∷ s) [] h = cc
text_eq_sound (c ∷ s) (d ∷ t) h = ground (arith, text_eq_sound s t)

pub text_eq_refl : (s : Text) → text_eq s s ≡ true
unfolding text_eq
text_eq_refl [] = refl
text_eq_refl (c ∷ s) = ground (arith, text_eq_refl s)

pub text_eq_iff : (s t : Text) → (text_eq s t ≡ true) ↔ (s ≡ t)
text_eq_iff s t = (text_eq_sound s t, λ e. rw e (text_eq_refl t))

-- `name in texts`
unfoldable pub is_in : Text → List Text → Bool
is_in t [] = false
is_in t (u ∷ us) = if text_eq t u then true else is_in t us

-- What follows the prefix `p` in a text that starts with it.
unfoldable pub strip : Text → Text → Option Text
strip [] t = some t
strip (p ∷ ps) [] = none
strip (p ∷ ps) (c ∷ t) = if p == c then strip ps t else none

pub strip_sound : (p t : Text) {r : Text} → strip p t ≡ some r → t ≡ p ++ r
unfolding strip
strip_sound [] t h = cc
strip_sound (p ∷ ps) [] h = cc
strip_sound (p ∷ ps) (c ∷ t) {r} h = ground (arith, strip_sound ps t {r = r})

pub strip-append : (p r : Text) → strip p (p ++ r) ≡ some r
unfolding strip
strip-append [] r = refl
strip-append (p ∷ ps) r = ground (arith, strip-append ps r)
