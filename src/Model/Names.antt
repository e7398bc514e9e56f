-- ===== src/Model/Names.antt =====
-- internal/model/helpers.go: `Normalize`. The Unicode tables are parameters: the canonical
-- decomposition, the nonspacing marks, the lower case of a character and `strings.EqualFold`.
use mcp_grand_lyon.Base.{ℕ, ◌||◌, [], ◌∷◌, ◌==◌, if◌then◌else◌}
use mcp_grand_lyon.Base.Text.{Text, fields, join_words}
use mathlib.Core.Bool.{Bool}

pub record Unicode : Type 0 where
  pub nfd : Text → Text
  pub is_mark : ℕ → Bool
  pub to_lower : ℕ → ℕ
  pub equal_fold : Text → Text → Bool

module _ (unicode : Unicode) where
  map_runes : Text → Text
  map_runes [] = []
  map_runes (c ∷ s) =
      let rest = map_runes s in
      if unicode.is_mark c
      then rest
      else (if c == b'-' || c == 39 then b' ' else unicode.to_lower c) ∷ rest

  unfoldable pub normalize : Text → Text
  unfolding map_runes
  normalize value = join_words (fields (map_runes (unicode.nfd value)))
