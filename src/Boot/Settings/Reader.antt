-- ===== src/Boot/Settings/Reader.antt =====
-- The lines KEY='value' of an EnvironmentFile on which a shell and systemd agree: those whose value
-- has no single quote. `_quote` spells every such value between two single quotes.
use unifi_containers.Prelude.{
  ◌≡◌, ◌≢◌, refl, ap, Option, none, some, [], ◌∷◌, ◌++◌, ◌⊎◌, ◌<◌, arith,
}
use unifi_containers.Text.{Text}
use unifi_containers.Boot.Settings.{quotes_reopened, quote}

-- The text has no single quote.
abbrev pub IsPlain : Text → Type 0
IsPlain [] = Unit
IsPlain (c ∷ s) = (c ≢ b'\'') × IsPlain s

-- The variable, where it is set, has no single quote.
abbrev pub GivenPlain : Option Text → Type 0
GivenPlain none = Unit
GivenPlain (some value) = IsPlain value

-- The name of a variable has upper-case letters and underscores.
abbrev pub IsKey : Text → Type 0
IsKey [] = Unit
IsKey (c ∷ s) = ((b'@' < c) × (c < b'[') ⊎ (c ≡ b'_')) × IsKey s

quotes_reopened-IsPlain : (value : Text) → IsPlain value → quotes_reopened value ≡ value
unfolding quotes_reopened
quotes_reopened-IsPlain [] plain = refl
quotes_reopened-IsPlain (c ∷ s) (ne, plain) =
    let same : quotes_reopened s ≡ s = quotes_reopened-IsPlain s plain in ground arith

-- A value without a single quote is spelled as it is, between two of them.
pub quote-IsPlain : (value : Text) → IsPlain value → quote value ≡ b'\'' ∷ (value ++ b'\'' ∷ [])
unfolding quote
quote-IsPlain value plain =
    ap (λ (t : Text). b'\'' ∷ (t ++ b'\'' ∷ [])) (quotes_reopened-IsPlain value plain)
