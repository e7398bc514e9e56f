-- ===== src/Model/Tests.antt =====
-- The instances of the model's theorems at concrete inputs.
use mcp_grand_lyon.Base.{ℕ, refl, false, none, [], ◌≡◌, ◌↔◌, ◌⊎◌, ltb}
use mcp_grand_lyon.Base.Text.{codes, same}
use mcp_grand_lyon.Model.Line.{trim_prefix, trim_all, trim_rounds, strip_prefixes}
use mcp_grand_lyon.Model.PlaceRef.{Coordinates, PlaceRef, validate}
use mcp_grand_lyon.Model.PlaceRef.Laws.{
  validate-eq-none_iff, HasPoint, NoText, NoPoint, OneText, IsShort,
}

-- Whole degrees, without a sign.
abbrev degrees : Coordinates ℕ
degrees = record {
  is_nan = λ x. false;
  beyond_latitude = λ x. ltb 90 x;
  beyond_longitude = λ x. ltb 180 x;
}

abbrev bellecour : PlaceRef ℕ
bellecour = record {
  place_id = [];
  query = codes "Place Bellecour";
  latitude = none;
  longitude = none;
  profile_place = [];
}

validate-eq-none_iff_example : (validate degrees bellecour ≡ none) ↔ (
    ((HasPoint degrees bellecour × NoText degrees bellecour)
      ⊎ (NoPoint degrees bellecour × OneText degrees bellecour))
    × IsShort degrees bellecour)
validate-eq-none_iff_example = validate-eq-none_iff degrees bellecour

strip_prefixes_test : strip_prefixes (codes "LIGNE METRO A") ≡ codes "A"
unfolding strip_prefixes trim_rounds trim_all trim_prefix same
strip_prefixes_test = refl
