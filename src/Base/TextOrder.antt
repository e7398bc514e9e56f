-- ===== src/Base/TextOrder.antt =====
-- The order in which SQLite and Go compare texts: by code point, a prefix first.
use mcp_grand_lyon.Base.Sort.{IsStrictWeak}
use mcp_grand_lyon.Base.Tests.{ltb, if◌then◌else◌}
use mcp_grand_lyon.Base.Text.{Text}
use mathlib.Core.Path.{◌≡◌, refl}
use mathlib.Core.Bool.{Bool, true, false}
use mathlib.Core.List.{[], ◌∷◌}
use native.Mathlib.Omega.{arith}

unfoldable pub text_lt : Text → Text → Bool
text_lt [] [] = false
text_lt [] (d ∷ t) = true
text_lt (c ∷ s) [] = false
text_lt (c ∷ s) (d ∷ t) = if ltb c d then true else if ltb d c then false else text_lt s t

text_lt_asymm : (s t : Text) → text_lt s t ≡ true → text_lt t s ≡ false
unfolding text_lt
text_lt_asymm [] [] h = refl
text_lt_asymm [] (d ∷ t) h = refl
text_lt_asymm (c ∷ s) [] h = cc
text_lt_asymm (c ∷ s) (d ∷ t) h = ground (arith, text_lt_asymm s t)

text_le_trans : (r s t : Text) → text_lt s r ≡ false → text_lt t s ≡ false → text_lt t r ≡ false
unfolding text_lt
text_le_trans [] [] [] h k = refl
text_le_trans [] [] (d ∷ t) h k = refl
text_le_trans [] (c ∷ s) [] h k = refl
text_le_trans [] (c ∷ s) (d ∷ t) h k = refl
text_le_trans (b ∷ r) [] t h k = cc
text_le_trans (b ∷ r) (c ∷ s) [] h k = cc
text_le_trans (b ∷ r) (c ∷ s) (d ∷ t) h k = ground (arith, text_le_trans r s t)

pub text_lt-IsStrictWeak : IsStrictWeak text_lt
text_lt-IsStrictWeak = record { asymm = text_lt_asymm; le_trans = text_le_trans }
