-- ===== src/Service/Journey/App.antt =====
-- What internal/service/journey.go reads of the application: the settings, the provider
-- (internal/model/provider.go), and the score of a trip (`tripScore`, `journeyWeights`,
-- `boundedScore`). A provider's answer is a list and whether it also gave an error.
use mcp_grand_lyon.Base.{ℕ, Bool, Option, String, List, if◌then◌else◌}
use mcp_grand_lyon.Base.Int.{ℤ}
use mcp_grand_lyon.Model.Envelope.{Time, Envelope}
use mcp_grand_lyon.Model.Float.{Float, Point}
use mcp_grand_lyon.Model.Records.{TripOption, TripPreferences, VelovStation, ParkingOption}
use mcp_grand_lyon.Service.Freshness.{maximum_stale_seconds}

pub record Weights (F : Type 0) : Type 0 where
  pub duration : F
  pub reliability : F
  pub disruptions : F
  pub walking : F
  pub availability : F
  pub user_preference : F

pub record Provider (F : Type 0) : Type 0 where
  pub stations : Point F → F → ℕ → List (VelovStation F) × Bool
  pub parkings : Point F → List String → F → ℤ → ℕ → List (ParkingOption F) × Bool
  pub plan : Point F → Point F → Time → List String → TripPreferences → List (TripOption F) × Bool

-- `configured` is the `maximum_stale_seconds` of a source in the store, and `now` the one instant
-- that stands for the calls of `model.Now`.
pub record App (F : Type 0) : Type 0 where
  pub offline : Bool
  pub transitous_enabled : Bool
  pub journey_scoring : Weights F
  pub configured : String → Option ℤ
  pub now : Time
  pub provider : Option (Provider F)

abbrev pub maximum_age : {F : Type 0} → App F → String → ℕ
maximum_age app source = maximum_stale_seconds (app.configured source)

-- The envelope and the options that the builders extend. The envelope has its data at the end.
pub record Draft (F : Type 0) : Type 0 where
  pub envelope : Envelope (Unit {0})
  pub options : List (TripOption F)

module _ (fl : Float) where
  open fl use {F, literal, of_int, add, sub, mul, div, min, max, eq}

  abbrev total : Weights F → F
  total w =
      add (add (add (add (add w.duration w.reliability) w.disruptions) w.walking) w.availability)
        w.user_preference

  unfoldable pub journey_weights : Weights F → Weights F
  journey_weights w =
      if eq (total w) (literal "0")
      then record {
        duration = literal "0.35";
        reliability = literal "0.25";
        disruptions = literal "0.15";
        walking = literal "0.10";
        availability = literal "0.10";
        user_preference = literal "0.05";
      }
      else w

  abbrev bounded_score : F → F
  bounded_score value = min (literal "1") (max (literal "0") value)

  abbrev from_one : F → F
  from_one x = max (literal "0") (sub (literal "1") x)

  unfoldable pub trip_score : Weights F → ℤ → F → F → ℤ → F → F
  trip_score weights duration reliability disruptions walking availability =
      let w = journey_weights weights in
      let duration_score = from_one (div (of_int duration) (literal "5400")) in
      let walking_score = from_one (div (of_int walking) (literal "2000")) in
      bounded_score (
        add
          (add
            (add
              (add (add (mul w.duration duration_score) (mul w.reliability reliability))
                (mul w.disruptions (from_one disruptions)))
              (mul w.walking walking_score))
            (mul w.availability availability))
          (mul w.user_preference (literal "0.5")))
