-- ===== src/Service/Tests.antt =====
-- The instances of the services' theorems at concrete inputs.
use mcp_grand_lyon.Base.{
  ℕ, ◌≡◌, ◌≤◌, ◌↔◌, String, Bool, true, false, Option, none, some, List, [], ◌∷◌, All, ltb, arith,
  length,
}
use mathlib.Core.List.{Perm}
use mcp_grand_lyon.Base.Int.{ℤ, pos}
use mcp_grand_lyon.Base.Sort.{IsStrictWeak}
use mcp_grand_lyon.Model.Envelope.{Time, SourceProvenance}
use mcp_grand_lyon.Model.Float.{Point}
use mcp_grand_lyon.Model.Records.{TripOption, TripPreferences, ParkingOption, VelovStation}
use mcp_grand_lyon.Service.Journey.{
  evaluate_option, evaluate_trip_options, apply_trip_timing, rank_trips,
}
use mcp_grand_lyon.Service.Journey.Eligibility.{evaluate_option-eligible_iff, Satisfies}
use mcp_grand_lyon.Service.Journey.Ranking.{rank_trips-IsRecommendation, IsRecommendation}
use mcp_grand_lyon.Model.PlaceRef.{PlaceRef}
use mcp_grand_lyon.Service.Samples.{whole, everywhere}
use mcp_grand_lyon.Service.Journey.App.{App, Provider, Weights}
use mcp_grand_lyon.Service.Journey.Velov.{select_stations}
use mcp_grand_lyon.Service.Journey.Velov.Best.{select_stations-IsBest, IsTaken, IsBeaten}
use mcp_grand_lyon.Service.Journey.Trips.{TripOptionsInput, trip_options}
use mcp_grand_lyon.Service.Journey.Trips.Answer.{trip_options-IsSound, IsSound}
use mcp_grand_lyon.Service.Parking.{normalize_parking_options}
use mcp_grand_lyon.Service.Parking.Normalize.{normalize_parking_options-IsOffered, IsOffered, Fits}

abbrev instants_seen : List (Option Time)
instants_seen = some 7 ∷ none ∷ some 3 ∷ some 0 ∷ []

abbrev feed : SourceProvenance
feed = record {
  provider = "DataGrandLyon";
  source_id = "tcl_departures";
  dataset = "prochains_passages";
  attribution = "SYTRAL";
  license = "unknown";
  observed_at = none;
  retrieved_at = some 4;
  age_seconds = none;
  realtime = true;
  stale = false;
}

abbrev walk : TripOption ℕ
walk = record {
  mode = "walking";
  score = 12;
  evidence = "estimated";
  eligible = false;
  ineligibility_reasons = [];
  estimated_duration_seconds = some (pos 600);
  departure_at = none;
  arrival_at = none;
  walking_distance_m = some (pos 700);
  transfers = pos 0;
  availability = none;
  availability_stale = false;
  reliability = none;
  accessibility = none;
  legs = [];
  alerts = [];
  realtime = false;
  summary = "walk";
  sources = [];
}

abbrev preferences : TripPreferences
preferences = record {
  max_walking_m = pos 800;
  minimum_velov_bikes = pos 3;
  minimum_velov_docks = pos 3;
  avoid_disruptions = true;
  wheelchair = false;
}

evaluate_option-eligible_iff_example :
    ((evaluate_option (λ s. s) preferences none walk).eligible ≡ true)
    ↔ Satisfies (λ s. s) preferences none walk
evaluate_option-eligible_iff_example = evaluate_option-eligible_iff (λ s. s) preferences none walk

ltb-IsStrictWeak : IsStrictWeak ltb
ltb-IsStrictWeak = record {
  asymm = λ a b h. ground (arith, h);
  le_trans = λ a b c h k. ground (arith, h, k);
}

abbrev trips : List (TripOption ℕ)
trips = walk ∷ record walk { score = 3; mode = "bicycle" } ∷ []

rank_trips-IsRecommendation_example :
    let r = rank_trips ltb (λ s. s) preferences none 1 "ok" false trips in
    Perm r.options (evaluate_trip_options (λ s. s) preferences none (apply_trip_timing trips 1))
    × IsRecommendation ltb ltb-IsStrictWeak r.options r.recommended
rank_trips-IsRecommendation_example =
    rank_trips-IsRecommendation ltb ltb-IsStrictWeak (λ s. s) preferences none 1 "ok" false trips

-- Whole numbers for float64: the distance of two points is then 0.
abbrev car_park : ParkingOption ℕ
car_park = record {
  id = "p1";
  name = "Terreaux";
  type = "public";
  latitude = 45;
  longitude = 4;
  capacity = some (pos 700);
  available_spaces = some (pos 0);
  occupied_spaces = none;
  availability_ratio = some 0;
  status = "open";
  distance_m = none;
  realtime = true;
  stale = false;
  observed_at = some 5;
  retrieved_at = none;
}

abbrev here : Point ℕ
here = record { latitude = 45; longitude = 4 }

normalize_parking_options-IsOffered_example :
    let (r, a) = normalize_parking_options whole here (car_park ∷ []) [] 1500 (pos 0) (pos 5) in
    (length r ≤ 5)
    × All (IsOffered whole here [] 1500 (pos 0)) r
    × Fits whole here [] 1500 (pos 0) a r
normalize_parking_options-IsOffered_example =
    normalize_parking_options-IsOffered whole here [] 1500 (pos 0) (car_park ∷ []) (pos 5)

abbrev failing : Point ℕ → List String → ℕ → ℤ → ℕ → List (ParkingOption ℕ) × Bool
failing point types radius minimum limit = (car_park ∷ [], true)

abbrev no_weights : Weights ℕ
no_weights = record {
  duration = 0;
  reliability = 0;
  disruptions = 0;
  walking = 0;
  availability = 0;
  user_preference = 0;
}

abbrev station : VelovStation ℕ
station = record {
  id = "10001";
  name = "Terreaux";
  latitude = 45;
  longitude = 4;
  bikes_available = pos 6;
  docks_available = pos 9;
  capacity = pos 15;
  status = "open";
  observed_at = some 8;
  retrieved_at = some 8;
  distance_m = some 120;
}

select_stations-IsBest_example :
    IsTaken whole
      (pos 800)
      (station ∷ [])
      (station ∷ [])
      (select_stations whole (pos 800) (station ∷ []) (station ∷ []))
    × All
        (λ o.
          All
            (λ d.
              IsBeaten whole
                (pos 800)
                (select_stations whole (pos 800) (station ∷ []) (station ∷ []))
                o
                d
                o.distance_m
                d.distance_m)
            (station ∷ []))
        (station ∷ [])
select_stations-IsBest_example =
    select_stations-IsBest whole (pos 800) (station ∷ []) (station ∷ [])

abbrev city : Provider ℕ
city = record {
  stations = λ point radius limit. (station ∷ [], false);
  parkings = λ point types radius minimum limit. (car_park ∷ [], false);
  plan = λ a b t modes p. ([], true);
}

abbrev app : App ℕ
app = record {
  offline = false;
  transitous_enabled = true;
  journey_scoring = no_weights;
  configured = λ source. none;
  now = 9;
  provider = some city;
}

abbrev at_here : PlaceRef ℕ
at_here = record {
  place_id = [];
  query = [];
  latitude = some 45;
  longitude = some 4;
  profile_place = [];
}

abbrev request : TripOptionsInput ℕ
request = record {
  origin = at_here;
  destination = at_here;
  departure_at = none;
  arrival_before = none;
  modes = none;
  preferences = none;
}

trip_options-IsSound_example :
    IsSound whole (trip_options whole (λ s. s) everywhere (λ ref. some here) app request)
trip_options-IsSound_example =
    trip_options-IsSound whole (λ s. s) everywhere (λ ref. some here) app request
