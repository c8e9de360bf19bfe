-- ===== src/Text/Find.antt =====
-- `needle in text` and `text.lower()`.
use unifi_containers.Prelude.{◌+◌, Bool, true, false, ◌&&◌, leb, none, some, [], ◌∷◌, if◌then◌else◌}
use unifi_containers.Text.{Text, strip}

-- `text.lower()` on the letters of ASCII. Of the other characters only two have an ASCII letter in
-- their lower case, `i` and `k`, which none of the searches in the program meets.
unfoldable pub lower : Text → Text
lower [] = []
lower (c ∷ t) = (if leb b'A' c && leb c b'Z' then c + 32 else c) ∷ lower t

-- `needle in text`
unfoldable pub contains : Text → Text → Bool
contains needle [] = elim (strip needle []) [ some r ↦ true | none ↦ false ]
contains needle (c ∷ t) =
    let rest = contains needle t in elim (strip needle (c ∷ t)) [ some r ↦ true | none ↦ rest ]
