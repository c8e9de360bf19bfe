-- ===== src/Text/Row.antt =====
-- The row of an image in the README: the regular expression `README_ROW_RE` of each of the updaters, by
-- how it starts, and the replacement of the first row that it matches.
use unifi_containers.Prelude.{
  Bool, true, false, ◌==◌, Option, none, some, [], ◌∷◌, ◌++◌, if◌then◌else◌,
}
use unifi_containers.Text.{Text, codes, strip}
use unifi_containers.Text.Words.{is_space}

-- What `README_ROW_RE` has between the version and the link, and behind the link.
abbrev pub row_middle : Text
row_middle = codes " | [Release notes]("

abbrev pub row_end : Text
row_end = codes ") |"

-- The text behind the longest run of characters that are no space, and whether there is any.
unfoldable pub past_solid : Text → Bool × Text
past_solid [] = (false, [])
past_solid (c ∷ s) = if is_space c then (false, c ∷ s) else (true, (past_solid s).1)

-- `[^)]*`
unfoldable pub past_link : Text → Text
past_link [] = []
past_link (c ∷ s) = let rest = past_link s in if c == b')' then c ∷ s else rest

-- `$` in MULTILINE
unfoldable pub at_line_end : Text → Option Text
at_line_end [] = some []
at_line_end (c ∷ s) = if c == b'\n' then some (c ∷ s) else none

-- What is behind the row, where the text starts with one.
unfoldable pub past_row : Text → Text → Option Text
unfolding past_solid past_link at_line_end
past_row row_start text = elim (strip row_start text) [
  | none ↦ none
  | some t ↦
      if (past_solid t).0
      then (elim (strip row_middle (past_solid t).1) [
        | none ↦ none
        | some u ↦ elim (strip row_end (past_link u)) [ none ↦ none | some r ↦ at_line_end r ]
      ])
      else none
]

-- The first row replaced, from a place on; the flag tells whether that is the start of a line.
unfoldable pub sub_row : Text → Text → Bool → Text → Option Text
unfolding past_row
sub_row row_start row start [] = none
sub_row row_start row start (c ∷ s) =
    let later : Option Text = elim (sub_row row_start row (c == b'\n') s) [
      | none ↦ none
      | some t ↦ some (c ∷ t)
    ] in
    if start
    then (elim (past_row row_start (c ∷ s)) [ some rest ↦ some (row ++ rest) | none ↦ later ])
    else later

unfoldable pub readme_row : Text → Text → Text → Text
readme_row row_start version link = row_start ++ (version ++ (row_middle ++ (link ++ row_end)))

-- `rewrite_readme`; `none` if there is no row.
unfoldable pub rewrite_row : Text → Text → Text → Text → Option Text
unfolding sub_row readme_row
rewrite_row row_start text version link =
    sub_row row_start (readme_row row_start version link) true text
