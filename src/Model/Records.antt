-- ===== src/Model/Records.antt =====
-- internal/model/types.go: the domain records that the modelled services read and write. F is the
-- type of float64.
use mcp_grand_lyon.Base.{String, Bool, Option, List}
use mcp_grand_lyon.Base.Int.{ℤ}
use mcp_grand_lyon.Model.Envelope.{Time}

pub record TransitAlert : Type 0 where
  pub id : String
  pub severity : String
  pub title : String
  pub description : String
  pub lines : List String
  pub start_at : Option Time
  pub end_at : Option Time

pub record TripLeg : Type 0 where
  pub mode : String
  pub evidence : String
  pub operator : String
  pub line : String
  pub from : String
  pub to : String
  pub start_at : Option Time
  pub end_at : Option Time
  pub distance_m : Option ℤ
  pub realtime : Bool

-- The messages of `evaluateTripOptions`; `walking_exceeds` has the limit that it prints.
pub data Reason : Type 0 where
  no_itinerary no_evidence walking_unknown : Reason
  walking_exceeds : ℤ → Reason
  arrival_unknown arrival_late alerts_known wheelchair_unverified : Reason
  availability_unknown availability_is_stale : Reason

pub record TripOption (F : Type 0) : Type 0 where
  pub mode : String
  pub score : F
  pub evidence : String
  pub eligible : Bool
  pub ineligibility_reasons : List Reason
  pub estimated_duration_seconds : Option ℤ
  pub departure_at : Option Time
  pub arrival_at : Option Time
  pub walking_distance_m : Option ℤ
  pub transfers : ℤ
  pub availability : Option String
  pub availability_stale : Bool
  pub reliability : Option F
  pub accessibility : Option String
  pub legs : List TripLeg
  pub alerts : List TransitAlert
  pub realtime : Bool
  pub summary : String
  pub sources : List String

pub record TripPreferences : Type 0 where
  pub max_walking_m : ℤ
  pub minimum_velov_bikes : ℤ
  pub minimum_velov_docks : ℤ
  pub avoid_disruptions : Bool
  pub wheelchair : Bool

pub record VelovStation (F : Type 0) : Type 0 where
  pub id : String
  pub name : String
  pub latitude : F
  pub longitude : F
  pub bikes_available : ℤ
  pub docks_available : ℤ
  pub capacity : ℤ
  pub status : String
  pub observed_at : Option Time
  pub retrieved_at : Option Time
  pub distance_m : Option F

pub record ParkingOption (F : Type 0) : Type 0 where
  pub id : String
  pub name : String
  pub type : String
  pub latitude : F
  pub longitude : F
  pub capacity : Option ℤ
  pub available_spaces : Option ℤ
  pub occupied_spaces : Option ℤ
  pub availability_ratio : Option F
  pub status : String
  pub distance_m : Option F
  pub realtime : Bool
  pub stale : Bool
  pub observed_at : Option Time
  pub retrieved_at : Option Time
