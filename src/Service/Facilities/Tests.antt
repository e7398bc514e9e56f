-- ===== src/Service/Facilities/Tests.antt =====
-- The instances of the theorems on facilities at concrete inputs.
use mcp_grand_lyon.Base.{
  ℕ, ◌≤◌, ◌<◌, ◌≡◌, ◌↔◌, refl, true, none, some, List, [], ◌∷◌, ltb, arith, All, length,
}
use mcp_grand_lyon.Base.Int.{pos}
use mcp_grand_lyon.Base.Sort.{IsStrictWeak, IsSorted}
use mcp_grand_lyon.Base.Text.{Text, codes}
use mcp_grand_lyon.Model.Envelope.{Time}
use mcp_grand_lyon.Model.Float.{Point}
use mcp_grand_lyon.Service.Samples.{whole}
use mcp_grand_lyon.Service.Facilities.{
  Facility, NearbyFacilitiesInput, category_items, nearer, is_open, opening_status_at, open_now,
  closed, unknown, parse_hours, parse_clock, parse_hour, parse_minute,
}
use mcp_grand_lyon.Service.Facilities.Hours.{minutes_after, is_open_iff_arc}
use mcp_grand_lyon.Service.Facilities.Nearby.{IsNearby, category_items-IsNearby}

abbrev here : Point ℕ
here = record { latitude = 45; longitude = 4 }

abbrev hours : Text
hours = codes " 9:30 - 02:15"

late : opening_status_at (some hours) 60 ≡ open_now
unfolding opening_status_at parse_hours parse_clock parse_hour parse_minute is_open
late = refl

morning : opening_status_at (some hours) 569 ≡ closed
unfolding opening_status_at parse_hours parse_clock parse_hour parse_minute is_open
morning = refl

unreadable : opening_status_at (some (codes "24:00-25:00")) 569 ≡ unknown
unfolding opening_status_at parse_hours parse_clock parse_hour parse_minute is_open
unreadable = refl

abbrev toilet : Facility ℕ
toilet = record {
  id = "t1";
  name = "Bellecour";
  category = "toilet";
  latitude = 45;
  longitude = 4;
  distance_m = none;
  open_status = "unknown";
  opening_hours_raw = some hours;
}

abbrev input : NearbyFacilitiesInput
input = record {
  categories = "toilet" ∷ [];
  radius_m = pos 500;
  open_at = some 9;
  limit_per_category = pos 2;
}

-- Ten in the evening.
abbrev evening : Time → ℕ
evening t = 1320

ltb-IsStrictWeak : IsStrictWeak ltb
ltb-IsStrictWeak = record { asymm = λ a b h. ground arith; le_trans = λ a b c h k. ground arith }

abbrev nearby : List (Facility ℕ)
nearby = category_items whole evening input here 500 2 (toilet ∷ toilet ∷ toilet ∷ []) "toilet"

category_items-IsNearby_example :
    (length nearby ≤ 2)
    × All (IsNearby whole evening (some 9) here 500 "toilet") nearby
    × IsSorted (nearer whole evening) nearby
category_items-IsNearby_example =
    category_items-IsNearby whole evening ltb-IsStrictWeak input here 500 2
      (toilet ∷ toilet ∷ toilet ∷ []) "toilet"

is_open_iff_arc_example :
    (is_open 1320 360 60 ≡ true) ↔ (minutes_after 1320 60 < minutes_after 1320 360)
is_open_iff_arc_example = is_open_iff_arc 1320 360 60 (ground arith) (ground arith) (ground arith)
