-- ===== src/Service/Journey/Transit.antt =====
-- internal/service/journey.go: `appendTransitOptions`, `plannedRealtime` and
-- `appendTransitFallback`.
use mcp_grand_lyon.Base.{
  String, Bool, true, false, not, ◌||◌, Option, none, some, List, [], ◌∷◌, ◌++◌, map, any, ◌=ₛ◌,
  if◌then◌else◌,
}
use mcp_grand_lyon.Base.Int.{ℤ, pos}
use mcp_grand_lyon.Model.Envelope.{Time, SourceProvenance, warn}
use mcp_grand_lyon.Model.Float.{Float, Point}
use mcp_grand_lyon.Model.Records.{TripOption, TripPreferences, TransitAlert}
use mcp_grand_lyon.Service.Journey.App.{App, Draft, Provider, trip_score}

abbrev pub is_empty {ℓ} : {A : Type ℓ} → List A → Bool
is_empty [] = true
is_empty (x ∷ xs) = false

-- `model.Value` of an `*int`.
abbrev pub value_of : Option ℤ → ℤ
value_of none = pos 0
value_of (some n) = n

abbrev if_blank : String → String → String
if_blank text other = if text =ₛ "" then other else text

-- The record that the program's literal leaves at its zero values.
abbrev pub blank_option : {F : Type 0} → F → String → TripOption F
blank_option zero_score mode = record {
  mode = mode;
  score = zero_score;
  evidence = "unavailable";
  eligible = false;
  ineligibility_reasons = [];
  estimated_duration_seconds = none;
  departure_at = none;
  arrival_at = none;
  walking_distance_m = none;
  transfers = pos 0;
  availability = none;
  availability_stale = false;
  reliability = none;
  accessibility = none;
  legs = [];
  alerts = [];
  realtime = false;
  summary = "";
  sources = [];
}

module _ (fl : Float) where
  open fl use {F, literal}

  abbrev pub disruption_of : List TransitAlert → F
  disruption_of alerts = if is_empty alerts then literal "0" else literal "1"

  unfoldable pub append_transit_fallback : Draft F → Draft F
  append_transit_fallback t = record {
    envelope =
        warn t.envelope "ROUTING_UNAVAILABLE" "journey_planner"
          "A reliable TCL door-to-door duration is unavailable." true;
    options =
        t.options
        ++ record (blank_option (literal "0") "tcl") {
          summary = "TCL duration is unavailable; no itinerary or walking distance was calculated.";
        }
          ∷ [];
  }

  abbrev without_duration : TripOption F → TripOption F
  without_duration o = record o {
    evidence = "unavailable";
    score = literal "0";
    summary = if_blank o.summary "TCL duration is unavailable.";
  }

  abbrev scored : App F → Option ℤ → TripOption F → TripOption F
  scored app none o = without_duration o
  scored app (some duration) o = record o {
    score =
        trip_score fl app.journey_scoring duration (literal "0.85") (disruption_of o.alerts)
          (value_of o.walking_distance_m) (literal "0.5");
  }

  -- One round of the loop over the planned options. An empty list of sources stands for nil, which
  -- is what the field holds where a provider does not set it.
  unfoldable pub planned_option : App F → TripOption F → TripOption F
  planned_option app o =
      let scored_option =
        scored app o.estimated_duration_seconds
          (record o { evidence = if_blank o.evidence "calculated" }) in
      record scored_option { sources = if is_empty o.sources then "transitous" ∷ [] else o.sources }

  unfoldable pub planned_realtime : List (TripOption F) → Bool
  planned_realtime options = any (λ o. o.realtime) options

  abbrev pub transitous_source : Time → Bool → SourceProvenance
  transitous_source now realtime = record {
    provider = "Transitous";
    source_id = "transitous";
    dataset = "plan";
    attribution = "Transitous / MOTIS";
    license = "unknown";
    observed_at = none;
    retrieved_at = some now;
    age_seconds = none;
    realtime = realtime;
    stale = false;
  }

  abbrev pub append_planned : App F → List (TripOption F) → Draft F → Draft F
  append_planned app planned t = record {
    envelope = record t.envelope {
      sources =
          if app.offline
          then t.envelope.sources
          else t.envelope.sources ++ transitous_source app.now (planned_realtime planned) ∷ [];
    };
    options = t.options ++ map (planned_option app) planned;
  }

  abbrev pub with_planner :
      App F → Option (Provider F) → Point F → Point F → Time → TripPreferences → Draft F → Draft F
  with_planner app none origin destination departure preferences t = append_transit_fallback t
  with_planner app (some provider) origin destination departure preferences t =
      let (planned, failed) = provider.plan origin destination departure ("tcl" ∷ []) preferences in
      if not app.transitous_enabled || (failed || is_empty planned)
      then append_transit_fallback t
      else append_planned app planned t

  unfoldable pub append_transit_options :
      App F → Point F → Point F → Time → TripPreferences → Draft F → Draft F
  append_transit_options app origin destination departure preferences t =
      with_planner app app.provider origin destination departure preferences t
