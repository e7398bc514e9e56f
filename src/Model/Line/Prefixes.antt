-- ===== src/Model/Line/Prefixes.antt =====
-- The loop of internal/model/helpers.go's `LineMatches` that trims the prefixes ends with nothing
-- left to trim.
use mathlib.Core.Path.{subst}
use mcp_grand_lyon.Base.{
  ℕ, zero, suc, ◌+◌, ◌≡◌, ◌≤◌, ◌<◌, ◌⊎◌, true, false, some, List, [], ◌∷◌, length, arith, refl, ap,
  sym, ◌∙◌, ◌≢◌, inl, inr, Bool-cases, Option-cases,
}
use mcp_grand_lyon.Base.Text.{Text, same, same-eq, same_refl}
use mcp_grand_lyon.Model.Line.{
  or_whole, after_prefix, trim_prefix, trim_all, trim_rounds, strip_prefixes, prefixes,
}

after_prefix-length : (p s t : Text) → after_prefix p s ≡ some t → length p + length t ≡ length s
unfolding after_prefix
after_prefix-length [] s t h = ground arith
after_prefix-length (c ∷ p) [] t h = cc
after_prefix-length (c ∷ p) (d ∷ s) t h = ground (arith, after_prefix-length p s t)

-- Trimming changes nothing, or shortens the text.
trim_prefix-cases : (p s : Text) → (trim_prefix p s ≡ s) ⊎ (length (trim_prefix p s) < length s)
unfolding trim_prefix after_prefix
trim_prefix-cases [] s = inl refl
trim_prefix-cases (c ∷ p) s = elim (Option-cases (after_prefix (c ∷ p) s)) [
  | inl e ↦ inl (ap (λ r. or_whole r s) e)
  | inr (t, e) ↦ inr (
      subst (λ r. length (or_whole r s) < length s) (sym e)
        (omega (arith, after_prefix-length (c ∷ p) s t e)))
]

trim_all-cases :
    (ps : List Text) (s : Text) → (trim_all ps s ≡ s) ⊎ (length (trim_all ps s) < length s)
unfolding trim_all
trim_all-cases [] s = inl refl
trim_all-cases (p ∷ ps) s = elim (trim_prefix-cases p s) [
  | inl e ↦ rw e (trim_all-cases ps s)
  | inr lt ↦ elim (trim_all-cases ps (trim_prefix p s)) [
    | inl e ↦ inr (rw e lt)
    | inr lt' ↦ inr (omega (arith, lt, lt'))
  ]
]

true-ne-false : true ≢ false
true-ne-false h = cc

trim_all-nil : trim_all prefixes [] ≡ []
unfolding trim_all trim_prefix after_prefix
trim_all-nil = refl

trim_rounds-fixed :
    (fuel : ℕ) (s : Text)
    → length s ≤ fuel
    → trim_all prefixes (trim_rounds fuel s) ≡ trim_rounds fuel s
unfolding trim_rounds
trim_rounds-fixed zero [] h = trim_all-nil
trim_rounds-fixed zero (c ∷ s) h = ground arith
trim_rounds-fixed (suc fuel) s h = elim (Bool-cases (same (trim_all prefixes s) s)) [
  | inl t ↦ rw t (same-eq _ _ t)
  | inr f ↦ rw f (
      trim_rounds-fixed fuel (trim_all prefixes s) (elim (trim_all-cases prefixes s) [
        | inl e ↦ elim (true-ne-false (sym (same_refl s) ∙ subst (λ r. same r s ≡ false) e f)) [ ]
        | inr lt ↦ omega (arith, lt, h)
      ]))
]

-- The text that is left has none of the prefixes at its start any more: another round of trimming
-- leaves it as it is. The length of the text is enough fuel for the loop.
pub strip_prefixes-fixed : (s : Text) → trim_all prefixes (strip_prefixes s) ≡ strip_prefixes s
unfolding strip_prefixes
strip_prefixes-fixed s = trim_rounds-fixed (length s) s (omega arith)
