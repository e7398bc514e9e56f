-- ===== src/Service/Departures/Tests.antt =====
-- The instances of the theorems on departures at concrete inputs.
use mcp_grand_lyon.Base.{arith, inl, ℕ, ◌≡◌, ◌*◌, ◌+◌, refl, true, false, none, some, [], ◌∷◌, All}
use mcp_grand_lyon.Base.Int.{pos}
use mcp_grand_lyon.Base.Text.{codes, same}
use mcp_grand_lyon.Model.GtfsTime.{hour}
use mcp_grand_lyon.Model.Names.{Unicode}
use mcp_grand_lyon.Service.Freshness.{ns_per_second}
use mcp_grand_lyon.Service.Places.{PlaceCandidate}
use mcp_grand_lyon.Service.Departures.{Departure, NextDeparturesInput}
use mcp_grand_lyon.Service.Departures.Handler.{Network, next_departures}
use mcp_grand_lyon.Service.Departures.Handler.Timely.{
  IsBoard, IsTimely, next_departures-IsBoard, next_departures-IsScheduled,
}

abbrev ascii : Unicode
ascii = record { nfd = λ s. s; is_mark = λ c. false; to_lower = λ c. c; equal_fold = same }

abbrev bellecour : PlaceCandidate ℕ
bellecour = record {
  id = codes "gtfs:1";
  name = codes "Bellecour";
  label = codes "Bellecour";
  kind = codes "transport_stop";
  latitude = 45;
  longitude = 4;
  distance_m = none;
  confidence = 1;
}

abbrev metro : Departure
metro = record {
  line_id = codes "tcl:D";
  line_name = codes "D";
  destination = codes "Gare de Vaise";
  platform = none;
  stop_ref = none;
  scheduled_at = some (9 * hour);
  expected_at = none;
  observed_at = some (8 * hour);
  delay_seconds = none;
  realtime = true;
  cancelled = false;
}

abbrev network : Network ℕ
network = record {
  offline = false;
  generated = 8 * hour;
  configured = none;
  near = λ c. some [];
  has_index = some true;
  provider = some (λ c. (metro ∷ [], true));
  timetable = λ c at limit. some (metro ∷ metro ∷ []);
}

abbrev later : NextDeparturesInput
later = record {
  stop_query = codes "Bellecour";
  line = [];
  direction = [];
  at = some (8 * hour + 600 * ns_per_second);
  limit = pos 2;
}

next_departures-IsBoard_example :
    IsBoard
      (IsTimely (λ s. s) (λ s. s) later (8 * hour + 600 * ns_per_second))
      2
      (next_departures (λ s. s) (λ s. s) ascii network later (bellecour ∷ []))
next_departures-IsBoard_example =
    next_departures-IsBoard (λ s. s) (λ s. s) ascii network later (bellecour ∷ [])

next_departures-IsScheduled_example :
    All
      (λ d. (d.realtime ≡ false) × (d.observed_at ≡ none))
      (next_departures (λ s. s) (λ s. s) ascii network later (bellecour ∷ [])).payload.departures
next_departures-IsScheduled_example =
    next_departures-IsScheduled (λ s. s) (λ s. s) ascii network later (bellecour ∷ [])
      (8 * hour + 600 * ns_per_second) refl refl (inl (omega arith))
