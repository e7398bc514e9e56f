-- ===== src/Service/VelovStations/Tests.antt =====
-- The instances of the theorems on Vélo'v stations at concrete inputs.
use mcp_grand_lyon.Base.{ℕ, ◌≤◌, none, [], ◌∷◌, ltb, arith, All, length}
use mcp_grand_lyon.Base.Int.{pos}
use mcp_grand_lyon.Base.Sort.{IsStrictWeak, IsSorted}
use mcp_grand_lyon.Model.Float.{Point}
use mcp_grand_lyon.Model.Records.{VelovStation}
use mcp_grand_lyon.Service.Samples.{whole}
use mcp_grand_lyon.Service.VelovStations.{closer, near_stations}
use mcp_grand_lyon.Service.VelovStations.Offered.{IsOffered, near_stations-IsOffered}

abbrev here : Point ℕ
here = record { latitude = 45; longitude = 4 }

abbrev station : VelovStation ℕ
station = record {
  id = "7001";
  name = "Bellecour";
  latitude = 45;
  longitude = 4;
  bikes_available = pos 5;
  docks_available = pos 9;
  capacity = pos 14;
  status = "open";
  observed_at = none;
  retrieved_at = none;
  distance_m = none;
}

ltb-IsStrictWeak : IsStrictWeak ltb
ltb-IsStrictWeak = record { asymm = λ a b h. ground arith; le_trans = λ a b c h k. ground arith }

near_stations-IsOffered_example :
    (length (near_stations whole here 500 (pos 1) 2 (station ∷ station ∷ station ∷ [])) ≤ 2)
    × All
        (IsOffered whole here 500 (pos 1))
        (near_stations whole here 500 (pos 1) 2 (station ∷ station ∷ station ∷ []))
    × IsSorted
        (closer whole)
        (near_stations whole here 500 (pos 1) 2 (station ∷ station ∷ station ∷ []))
near_stations-IsOffered_example =
    near_stations-IsOffered whole ltb-IsStrictWeak here 500 (pos 1) 2
      (station ∷ station ∷ station ∷ [])
