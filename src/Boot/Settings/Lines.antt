-- ===== src/Boot/Settings/Lines.antt =====
-- A reader of the lines that `_quote` spells: what the theorems take as a parameter can be had.
use unifi_containers.Prelude.{
  ℕ, ◌≡◌, ◌≢◌, refl, ap, ◌∙◌, ◌==◌, true, false, [], ◌∷◌, ◌++◌, arith, append_assoc, append-nil,
}
use unifi_containers.Text.{Text}
use unifi_containers.Boot.Settings.Reader.{IsKey, IsPlain}
use unifi_containers.Boot.Settings.Handover.{Assignments}

pub data Mode : Type 0 where
  in_key in_value in_quotes : Mode

-- The key and the value so far, and the text that is left.
pub scan : Mode → Text → Text → Text → Assignments
scan m key value [] = []
scan in_key key value (c ∷ s) = elim (c == b'=') [
  | true ↦ scan in_value key [] s
  | false ↦ scan in_key (key ++ c ∷ []) [] s
]
scan in_value key value (c ∷ s) = elim (c == b'\n') [
  | true ↦ (key, value) ∷ scan in_key [] [] s
  | false ↦ elim (c == b'\'') [
    | true ↦ scan in_quotes key value s
    | false ↦ scan in_value key (value ++ c ∷ []) s
  ]
]
scan in_quotes key value (c ∷ s) = elim (c == b'\'') [
  | true ↦ scan in_value key value s
  | false ↦ scan in_quotes key (value ++ c ∷ []) s
]

abbrev pub read : Text → Assignments
read = scan in_key [] []

differs : (a b : ℕ) → a ≢ b → (a == b) ≡ false
differs a b ne = ground arith

scan-IsKey :
    (key name rest : Text)
    → IsKey name
    → scan in_key key [] (name ++ b'=' ∷ rest) ≡ scan in_value (key ++ name) [] rest
unfolding scan
scan-IsKey key [] rest is_key = rw (append-nil key) refl
scan-IsKey key (c ∷ name) rest (letter, is_key) =
    rw (differs c b'=' (ground arith), scan)
      (scan-IsKey (key ++ c ∷ []) name rest is_key
        ∙ ap (λ k. scan in_value k [] rest) (append_assoc key (c ∷ []) name))

scan-IsPlain :
    (key value s rest : Text)
    → IsPlain s
    → scan in_quotes key value (s ++ b'\'' ∷ rest) ≡ scan in_value key (value ++ s) rest
unfolding scan
scan-IsPlain key value [] rest plain = rw (append-nil value) refl
scan-IsPlain key value (c ∷ s) rest (ne, plain) =
    rw (differs c b'\'' ne, scan)
      (scan-IsPlain key (value ++ c ∷ []) s rest plain
        ∙ ap (λ v. scan in_value key v rest) (append_assoc value (c ∷ []) s))

pub read_nothing : read [] ≡ []
unfolding scan
read_nothing = refl

pub read_line :
    (key value rest : Text)
    → IsKey key
    → IsPlain value
    → read (key ++ b'=' ∷ b'\'' ∷ (value ++ b'\'' ∷ b'\n' ∷ rest)) ≡ (key, value) ∷ read rest
unfolding scan
read_line key value rest is_key plain =
    scan-IsKey [] key _ is_key ∙ scan-IsPlain key [] value (b'\n' ∷ rest) plain
