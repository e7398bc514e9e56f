-- ===== src/Service/Environment/Tests.antt =====
-- The instances of the theorems on the environment at concrete inputs.
use mcp_grand_lyon.Base.{ℕ, ◌≡◌, refl, true, none, some, List, [], ◌∷◌}
use mcp_grand_lyon.Service.Environment.{IndicatorValue, found_indicators}
use mcp_grand_lyon.Service.Environment.Covered.{covers, found_indicators-covers}

abbrev pollen : IndicatorValue ℕ
pollen = record {
  indicator = "pollen";
  value = some 3;
  unit = none;
  zone = none;
  observed_at = none;
  source_id = none;
  supported = true;
}

-- The heat has no value, and the quality of the air is missing.
abbrev values : List (IndicatorValue ℕ)
values = pollen ∷ record pollen { indicator = "heat"; value = none } ∷ []

found_indicators-covers_example :
    covers ℕ ℕ
      (found_indicators ℕ ℕ 9 ("pollen" ∷ "air_quality" ∷ "heat" ∷ []) values)
      "air_quality"
    ≡ true
found_indicators-covers_example =
    found_indicators-covers ℕ ℕ 9 ("pollen" ∷ "air_quality" ∷ "heat" ∷ []) values "air_quality" refl
