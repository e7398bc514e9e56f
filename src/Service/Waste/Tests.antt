-- ===== src/Service/Waste/Tests.antt =====
-- The instances of the theorems on waste at concrete inputs.
use mcp_grand_lyon.Base.{
  ◌=ₛ◌, ℕ, ◌≤◌, ◌≡◌, ◌⊎◌, Bool, true, Option, none, some, List, String, [], ◌∷◌, ltb, arith, All,
  length, filter,
}
use mcp_grand_lyon.Base.Int.{pos}
use mcp_grand_lyon.Base.Sort.{IsStrictWeak}
use mcp_grand_lyon.Base.Text.{Text, codes, trim_space}
use mcp_grand_lyon.Model.Envelope.{Time}
use mcp_grand_lyon.Model.Float.{Point}
use mcp_grand_lyon.Model.PlaceRef.{PlaceRef}
use mcp_grand_lyon.Service.Samples.{whole}
use mcp_grand_lyon.Service.Waste.{
  WasteRuleYaml, WasteTaxonomyFile, CompiledWasteRule, WasteFacility, classify_waste, is_match,
  gather_dropoffs,
}
use mcp_grand_lyon.Service.Waste.Class.{IsClassified, classify_waste-IsClassified}
use mcp_grand_lyon.Service.Waste.Dropoff.{IsDropoff, gather_dropoffs-IsDropoff}
use mcp_grand_lyon.Service.Waste.Handler.{WasteDropoffInput, WasteNetwork, waste_dropoff}
use mcp_grand_lyon.Service.Waste.Answer.{IsCareful, waste_dropoff-IsCareful}

abbrev same_case : Text → Text
same_case s = s

abbrev paint : WasteRuleYaml ℕ
paint = record {
  id = "paint";
  category = "chemicals";
  priority = pos 10;
  confidence = 1;
  hazardous = true;
  aliases = "paint" ∷ [];
  patterns = [];
}

abbrev taxonomy : WasteTaxonomyFile ℕ
taxonomy = record {
  version = pos 1;
  rules = paint ∷ record paint { id = "glass"; category = "glass"; aliases = "jar" ∷ [] } ∷ [];
}

abbrev rules : List (CompiledWasteRule ℕ)
rules = record { rule = paint; tests = [] } ∷ []

abbrev item : Text
item = codes " paint tin"

ltb-IsStrictWeak : IsStrictWeak ltb
ltb-IsStrictWeak = record { asymm = λ a b h. ground arith; le_trans = λ a b c h k. ground arith }

classify_waste-IsClassified_example :
    ((filter (is_match whole same_case (trim_space item)) rules ≡ [])
      × ((classify_waste whole same_case item rules).category ≡ "unknown"))
    ⊎ IsClassified whole same_case
        (filter (is_match whole same_case (trim_space item)) rules)
        (classify_waste whole same_case item rules)
classify_waste-IsClassified_example =
    classify_waste-IsClassified whole same_case ltb-IsStrictWeak item rules

abbrev here : Point ℕ
here = record { latitude = 45; longitude = 4 }

abbrev site : WasteFacility ℕ
site = record {
  id = "d1";
  name = "Lyon 7";
  latitude = 45;
  longitude = 4;
  accepted_categories = "chemicals" ∷ [];
  distance_m = none;
  open_status = "unknown";
  opening_hours_raw = some (codes "8:00-18:00");
}

-- A facility that accepts something else, one that does not say, and two that accept the category.
abbrev sites : List (WasteFacility ℕ)
sites =
    record site { accepted_categories = "glass" ∷ [] }
    ∷ record site { accepted_categories = [] }
    ∷ site
    ∷ site
    ∷ []

abbrev noon : Time → ℕ
noon t = 720

gather_dropoffs-IsDropoff_example :
    (length (gather_dropoffs whole ◌=ₛ◌ noon "chemicals" here 500 (some 9) 2 sites).filtered ≤ 2)
    × All
        (IsDropoff whole ◌=ₛ◌ noon "chemicals" here 500 (some 9))
        (gather_dropoffs whole ◌=ₛ◌ noon "chemicals" here 500 (some 9) 2 sites).filtered
gather_dropoffs-IsDropoff_example =
    gather_dropoffs-IsDropoff whole ◌=ₛ◌ noon "chemicals" here 500 (some 9) 2 sites (ground arith)

abbrev ref : PlaceRef ℕ
ref = record {
  place_id = [];
  query = codes "Bellecour";
  latitude = none;
  longitude = none;
  profile_place = [];
}

abbrev network : WasteNetwork ℕ
network = record {
  location_error = λ r. none;
  resolve = λ r. some here;
  provider = some (λ p c r n. (sites, true));
}

abbrev input : WasteDropoffInput ℕ
input = record {
  item = item;
  location = some ref;
  transport = "";
  open_at = some 9;
  radius_m = pos 500;
  limit = pos 2;
}

abbrev no_pattern : String → Option (Text → Bool)
no_pattern s = none

waste_dropoff-IsCareful_example :
    IsCareful whole same_case ◌=ₛ◌ noon network
      (waste_dropoff whole same_case ◌=ₛ◌ noon network 9 no_pattern (some taxonomy) input).payload
waste_dropoff-IsCareful_example =
    waste_dropoff-IsCareful whole same_case ◌=ₛ◌ noon network 9 no_pattern (some taxonomy) input
