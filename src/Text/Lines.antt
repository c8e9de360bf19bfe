-- ===== src/Text/Lines.antt =====
-- Texts as lines, and the MULTILINE patterns `^KEY=(\S+)$` that pick one line out.
pub mod Replace
use unifi_containers.Text.{strip}
use unifi_containers.Text.Words.{is_space}
use unifi_containers.Prelude.{
  ℕ, Bool, true, false, Option, none, some, List, [], ◌∷◌, ◌++◌, ◌==◌, if◌then◌else◌, ◌>>=◌,
}

abbrev newline : ℕ
newline = b'\n'

-- A character in front of the first line.
unfoldable pub onto_first : ℕ → List (List ℕ) → List (List ℕ)
onto_first c [] = (c ∷ []) ∷ []
onto_first c (l ∷ ls) = (c ∷ l) ∷ ls

-- The lines of a text, which a newline ends: `^` and `$` match at their ends.
unfoldable pub lines : List ℕ → List (List ℕ)
unfolding onto_first
lines [] = [] ∷ []
lines (c ∷ s) = let rest = lines s in if c == newline then [] ∷ rest else onto_first c rest

-- The text with the given lines.
unfoldable pub unlines : List (List ℕ) → List ℕ
unlines [] = []
unlines (l ∷ []) = l
unlines (l ∷ k ∷ ls) = l ++ (newline ∷ unlines (k ∷ ls))

unfoldable pub all_solid : List ℕ → Bool
all_solid [] = true
all_solid (c ∷ s) = if is_space c then false else all_solid s

-- `(\S+)$`
unfoldable pub solid : List ℕ → Option (List ℕ)
unfolding all_solid
solid [] = none
solid (c ∷ s) = if all_solid (c ∷ s) then some (c ∷ s) else none

-- The group of `^prefix(\S+)$` in one line.
unfoldable pub setting_in : List ℕ → List ℕ → Option (List ℕ)
unfolding solid
setting_in prefix line = do value ← strip prefix line; solid value

-- `search`: the first line that matches.
unfoldable pub first_setting : List ℕ → List (List ℕ) → Option (List ℕ)
first_setting prefix [] = none
first_setting prefix (l ∷ ls) = elim (setting_in prefix l) [
  | some v ↦ some v
  | none ↦ first_setting prefix ls
]

-- `subn(…, count=1)`: the first line that matches is replaced; `none` if there is none.
unfoldable pub replace_setting : List ℕ → List ℕ → List (List ℕ) → Option (List (List ℕ))
replace_setting prefix new [] = none
replace_setting prefix new (l ∷ ls) = elim (setting_in prefix l) [
  | some v ↦ some (new ∷ ls)
  | none ↦ elim (replace_setting prefix new ls) [ none ↦ none | some ks ↦ some (l ∷ ks) ]
]
