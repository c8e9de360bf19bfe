-- ===== src/Boot/Stamps/Uuid.antt =====
-- The version digit of the console's UUID.
use unifi_containers.Prelude.{
  ℕ, suc, zero, ◌≡◌, ◌<◌, ◌≢◌, ap, sym, refl, Option, none, some, [], ◌∷◌, arith, length,
}
use unifi_containers.Text.{Text}
use unifi_containers.Boot.Stamps.{with_char, force_uuid_version_5}

abbrev pub get_elem? : Text → ℕ → Option ℕ
get_elem? [] i = none
get_elem? (c ∷ s) zero = some c
get_elem? (c ∷ s) (suc i) = get_elem? s i

with_char_at : (i c : ℕ) (s : Text) → i < length s → get_elem? (with_char i c s) i ≡ some c
unfolding with_char
with_char_at i c [] h = absurd (omega arith)
with_char_at zero c (d ∷ s) h = refl
with_char_at (suc i) c (d ∷ s) h = with_char_at i c s (omega arith)

with_char_elsewhere : (i j c : ℕ) (s : Text) → i ≢ j → get_elem? (with_char i c s) j ≡ get_elem? s j
unfolding with_char
with_char_elsewhere i j c [] ne = refl
with_char_elsewhere zero zero c (d ∷ s) ne = absurd (ne refl)
with_char_elsewhere zero (suc j) c (d ∷ s) ne = refl
with_char_elsewhere (suc i) zero c (d ∷ s) ne = refl
with_char_elsewhere (suc i) (suc j) c (d ∷ s) ne = with_char_elsewhere i j c s (λ e. ne (ap suc e))

-- A UUID of the kernel, which has a version digit, gets the digit 5 there and keeps the rest.
pub force_uuid_version_5_lem :
    (uuid : Text)
    → 14 < length uuid
    → (get_elem? (force_uuid_version_5 uuid) 14 ≡ some b'5')
      × ((j : ℕ) → j ≢ 14 → get_elem? (force_uuid_version_5 uuid) j ≡ get_elem? uuid j)
unfolding force_uuid_version_5
force_uuid_version_5_lem uuid h =
    (with_char_at 14 b'5' uuid h, λ j ne. with_char_elsewhere 14 j b'5' uuid (λ e. ne (sym e)))
