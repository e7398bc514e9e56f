-- ===== src/Service/Waste/Class.antt =====
-- What internal/service/waste.go's `classifyWaste` promises.
use mcp_grand_lyon.Base.{
  ◌≤◌, ◌≡◌, refl, true, false, List, [], ◌∷◌, arith, All, filter, length, length-take, map, inl,
  inr, sym, Bool, String, ◌⊎◌, take, if◌then◌else◌,
}
use mcp_grand_lyon.Base.Sort.{
  IsStrictWeak, IsSorted, sort_stable, sort_stable-IsSorted, sort_stable-perm,
}
use mcp_grand_lyon.Base.Text.{Text, trim_space}
use mcp_grand_lyon.Model.Float.{Float}
use mcp_grand_lyon.Service.Waste.{
  CompiledWasteRule, WasteClassification, classify_waste, of_matches, is_match, surer, is_close,
}
use mathlib.Core.List.{Perm}
use mathlib.Core.List.Perm

module _ (fl : Float) (lower : Text → Text) where
  open fl use {F, literal, lt}

  -- One of the rules that match, none of them surer, gives the class.
  pub record IsClassified (matches : List (CompiledWasteRule F)) (c : WasteClassification F)
      : Type 0 where
    pub best : CompiledWasteRule F
    pub others : List (CompiledWasteRule F)
    pub among_matches : Perm (best ∷ others) matches
    pub surest : All (λ r. lt best.rule.confidence r.rule.confidence ≡ false) others
    pub category : c.category ≡ best.rule.category
    pub hazardous : c.hazardous ≡ best.rule.hazardous
    pub confidence : c.confidence ≡ best.rule.confidence
    pub few_candidates : length c.candidates ≤ 3

  surer-IsStrictWeak : IsStrictWeak lt → IsStrictWeak (surer fl lower)
  surer-IsStrictWeak o = record {
    asymm = λ a b. o.asymm _ _;
    le_trans = λ a b c h k. o.le_trans _ _ _ k h;
  }

  length-if_take : (b : Bool) (xs : List String) → length (if b then take 3 xs else []) ≤ 3
  length-if_take true xs = omega (arith, length-take 3 xs)
  length-if_take false xs = ground arith

  of_matches-IsClassified :
      (item : Text) (matches sorted : List (CompiledWasteRule F))
      → Perm sorted matches
      → IsSorted (surer fl lower) sorted
      → ((matches ≡ []) × ((of_matches fl lower item sorted).category ≡ "unknown"))
        ⊎ IsClassified matches (of_matches fl lower item sorted)
  of_matches-IsClassified item matches [] p s = inl (sym (Perm.nil-eq p), refl)
  of_matches-IsClassified item matches (best ∷ others) p (s, _) = inr (record {
    best = best;
    others = others;
    among_matches = p;
    surest = s;
    category = refl;
    hazardous = refl;
    confidence = refl;
    few_candidates =
        length-if_take (is_close fl lower best others) (map (λ r. r.rule.category) (best ∷ others));
  })

  -- Where the confidences compare as numbers do, an item that no rule matches is "unknown", and any
  -- other has the category, the hazard and the confidence of one of the rules that match it, none of
  -- which is surer, with at most three candidates.
  pub classify_waste-IsClassified :
      IsStrictWeak lt
      → (item : Text) (rules : List (CompiledWasteRule F))
      → let matches = filter (is_match fl lower (lower (trim_space item))) rules in
        ((matches ≡ []) × ((classify_waste fl lower item rules).category ≡ "unknown"))
        ⊎ IsClassified matches (classify_waste fl lower item rules)
  unfolding classify_waste
  classify_waste-IsClassified o item rules =
      let matches = filter (is_match fl lower (lower (trim_space item))) rules in
      of_matches-IsClassified item matches (sort_stable (surer fl lower) matches)
        (sort_stable-perm (surer fl lower) matches)
        (sort_stable-IsSorted (surer fl lower) (surer-IsStrictWeak o) matches)
