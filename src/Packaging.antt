-- ===== src/Packaging.antt =====
-- `packaging.version.Version`, a third-party class: a parameter of the models that compare versions.
-- `IsOrdered` states what PEP 440 documents of it and the program relies on.
pub mod Numbered
use unifi_containers.Prelude.{◌≡◌, ◌↔◌, ◌⊎◌, ℕ, Bool, true, false, Option, some, ◌∷◌, ◌++◌, ltb}
use unifi_containers.Text.{Text}
use unifi_containers.Text.Decimal.{decimal}
use unifi_containers.Text.Scan.{IsVersion}

pub record Versions : Type 1 where
  pub Key : Type 0
  -- `Version(text)`; `none` is the exception InvalidVersion.
  pub read : Text → Option Key
  pub lt : Key → Key → Bool
  pub eq : Key → Key → Bool

pub record IsOrdered (V : Versions) : Type 0 where
  pub lt_irrefl : (a : V.Key) → V.lt a a ≡ false
  pub lt_trans : (a b c : V.Key) → V.lt a b ≡ true → V.lt b c ≡ true → V.lt a c ≡ true
  pub lt_between : (a b c : V.Key) → V.lt a c ≡ true → (V.lt a b ≡ true) ⊎ (V.lt b c ≡ true)
  pub eq_iff_neither : (a b : V.Key) → (V.eq a b ≡ true) ↔ ((V.lt a b ≡ false) × (V.lt b a ≡ false))
  -- Of two post-releases of one version, the one with the lower number is the lower.
  pub lt_post :
      (u : Text) (m n : ℕ) (a b : V.Key)
      → IsVersion u
      → V.read (u ++ (b'-' ∷ decimal m)) ≡ some a
      → V.read (u ++ (b'-' ∷ decimal n)) ≡ some b
      → V.lt a b ≡ ltb m n
