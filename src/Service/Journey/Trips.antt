-- ===== src/Service/Journey/Trips.antt =====
-- internal/service/journey.go: `TripOptions`, `invalidTrip`, `tripData` and
-- `defaultTripPreferences`. `ResolvePoint` is the parameter `resolve`; it gives no point where it
-- fails.
pub mod Answer
use mcp_grand_lyon.Base.{
  String, Bool, true, false, not, ◌&&◌, ◌||◌, Option, none, some, List, [], ◌∷◌, ◌++◌, any, all,
  ◌=ₛ◌, if◌then◌else◌, ltb, ◌==◌,
}
use mcp_grand_lyon.Base.Int.{ℤ, pos}
use mcp_grand_lyon.Model.Envelope.{Time, Envelope, new_envelope, warn}
use mcp_grand_lyon.Model.Float.{Float, Point, distance}
use mcp_grand_lyon.Model.PlaceRef.{PlaceRef, Coordinates, validate}
use mcp_grand_lyon.Model.Records.{TripOption, TripPreferences}
use mcp_grand_lyon.Service.Freshness.{◌+++◌}
use mcp_grand_lyon.Service.Journey.{Ranked, rank_trips}
use mcp_grand_lyon.Service.Journey.App.{App, Draft, trip_score}
use mcp_grand_lyon.Service.Journey.Velov.{append_velov_option}
use mcp_grand_lyon.Service.Journey.Transit.{append_transit_options, blank_option, is_empty}
use mcp_grand_lyon.Service.Journey.ParkAndRide.{append_park_and_ride_option}

pub record TripOptionsInput (F : Type 0) : Type 0 where
  pub origin : PlaceRef F
  pub destination : PlaceRef F
  pub departure_at : Option Time
  pub arrival_before : Option Time
  pub modes : Option (List String)
  pub preferences : Option TripPreferences

pub record TripData (F : Type 0) : Type 0 where
  pub recommended_mode : Option String
  pub options : List (TripOption F)
  pub departure_at : Option Time
  pub arrival_before : Option Time

unfoldable pub trip_data : {F : Type 0} → List (TripOption F) → Time → Option Time → TripData F
trip_data options departure deadline = record {
  recommended_mode = none;
  options = options;
  departure_at = if departure == 0 then none else some departure;
  arrival_before = deadline;
}

unfoldable pub default_trip_preferences : Option TripPreferences → TripPreferences
default_trip_preferences (some p) = p
default_trip_preferences none = record {
  max_walking_m = pos 800;
  minimum_velov_bikes = pos 3;
  minimum_velov_docks = pos 3;
  avoid_disruptions = true;
  wheelchair = false;
}

unfoldable pub invalid_trip : {F : Type 0} → Time → String → Envelope (TripData F)
invalid_trip now message =
    record (warn (new_envelope now "invalid_request" message (trip_data [] 0 none))
      "INVALID_REQUEST" "journey_service" message false) { status = "invalid_request" }

-- `if test { return invalidTrip(message) }`, and the rest of the function.
unfoldable pub reject_if :
    {F : Type 0} → Bool → Time → String → Envelope (TripData F) → Envelope (TripData F)
reject_if test now message rest = if test then invalid_trip now message else rest

abbrev has_mode : List String → String → Bool
has_mode modes mode = any (λ m. m =ₛ mode) modes

abbrev default_modes : List String
default_modes = "tcl" ∷ "velov" ∷ "park_and_ride" ∷ "car" ∷ "walk" ∷ []

abbrev modes_or_default : Option (List String) → List String
modes_or_default none = default_modes
modes_or_default (some modes) = modes

abbrev departure_or : Option Time → Time → Time
departure_or none now = now
departure_or (some t) now = t

-- `input.ArrivalBefore != nil && !input.ArrivalBefore.After(departure)`.
abbrev is_too_early : Option Time → Time → Bool
is_too_early none departure = false
is_too_early (some deadline) departure = not (ltb departure deadline)

-- What is asked once the request is accepted and both ends are found.
pub record Request (F : Type 0) : Type 0 where
  pub origin : Point F
  pub destination : Point F
  pub departure : Time
  pub deadline : Option Time
  pub modes : List String
  pub preferences : TripPreferences

module _ (fl : Float) where
  open fl use {F, literal, to_int, div, lt}

  abbrev estimate : App F → String → F → String → String → ℤ → ℤ → F → F → TripOption F
  estimate app mode distance_m summary source duration walking reliability disruptions =
      record (blank_option (literal "0") mode) {
        score =
            trip_score fl app.journey_scoring duration reliability disruptions walking
              (literal "0.5");
        evidence = "estimated";
        estimated_duration_seconds = some duration;
        walking_distance_m = some walking;
        summary = summary;
        sources = source ∷ [];
      }

  abbrev walk_option : App F → F → TripOption F
  walk_option app d =
      estimate app "walk" d "Walk" "haversine" (to_int (div d (literal "1.4"))) (to_int d)
        (literal "0.95") (literal "0")

  abbrev car_option : App F → F → TripOption F
  car_option app d =
      estimate app "car" d "Estimated car trip" "estimate" (to_int (div d (literal "8.0"))) (pos 0)
        (literal "0.7") (literal "0.2")

  abbrev option_if : Bool → TripOption F → List (TripOption F)
  option_if true o = o ∷ []
  option_if false o = []

  abbrev pub draft_if : Bool → (Draft F → Draft F) → Draft F → Draft F
  draft_if true extend t = extend t
  draft_if false extend t = t

  -- The walking and car estimates.
  unfoldable pub first_draft : App F → Request F → Draft F
  first_draft app r =
      let d = distance fl r.origin r.destination in
      record {
        envelope = new_envelope app.now "ok" "Trip options are available." tt;
        options =
            option_if (has_mode r.modes "walk") (walk_option app d)
            ++ option_if (has_mode r.modes "car") (car_option app d);
      }

  -- The estimates, and then the builders of the other modes.
  unfoldable pub collect_options : App F → Request F → Draft F
  collect_options app r =
      draft_if (has_mode r.modes "tcl")
        (append_transit_options fl app r.origin r.destination r.departure r.preferences)
        (draft_if (has_mode r.modes "park_and_ride")
          (append_park_and_ride_option fl app r.origin r.destination r.departure r.preferences)
          (draft_if (has_mode r.modes "velov")
            (append_velov_option fl app r.origin r.destination r.preferences) (first_draft app r)))

  abbrev summary_of : Option (TripOption F) → String
  summary_of none = "No eligible trip option satisfies the request."
  summary_of (some o) = "Recommended option: " +++ o.mode +++ "."

  abbrev pub mode_of : Option (TripOption F) → Option String
  mode_of none = none
  mode_of (some o) = some o.mode

  unfoldable pub present : Request F → Draft F → Ranked F → Envelope (TripData F)
  present r t ranked = record {
    status = ranked.status;
    generated_at = t.envelope.generated_at;
    summary = summary_of ranked.recommended;
    payload = record (trip_data ranked.options r.departure r.deadline) {
      recommended_mode = mode_of ranked.recommended;
    };
    sources = t.envelope.sources;
    warnings = t.envelope.warnings;
    degraded = t.envelope.degraded;
  }

  unfoldable pub answer_trip : (String → String) → App F → Request F → Envelope (TripData F)
  answer_trip lower app r =
      let t = collect_options app r in
      present r t (
        rank_trips lt lower r.preferences r.deadline r.departure t.envelope.status
          (not (is_empty t.envelope.warnings)) t.options)

  abbrev pub unresolved : App F → Time → Option Time → String → Envelope (TripData F)
  unresolved app departure deadline summary =
      new_envelope app.now "not_found" summary (trip_data [] departure deadline)

  abbrev pub with_points :
      (String → String)
      → App F
      → TripOptionsInput F
      → List String
      → Time
      → Option (Point F)
      → Option (Point F)
      → Envelope (TripData F)
  with_points lower app input modes departure none destination =
      unresolved app departure input.arrival_before "The origin could not be resolved."
  with_points lower app input modes departure (some origin) none =
      unresolved app departure input.arrival_before "The destination could not be resolved."
  with_points lower app input modes departure (some origin) (some destination) =
      answer_trip lower app (record {
        origin = origin;
        destination = destination;
        departure = departure;
        deadline = input.arrival_before;
        modes = modes;
        preferences = default_trip_preferences input.preferences;
      })

  abbrev is_valid_ref : Coordinates F → PlaceRef F → Bool
  is_valid_ref coords ref = elim (validate coords ref) [ none ↦ true | some e ↦ false ]

  unfoldable pub trip_options :
      (String → String)
      → Coordinates F
      → (PlaceRef F → Option (Point F))
      → App F
      → TripOptionsInput F
      → Envelope (TripData F)
  trip_options lower coords resolve app input =
      let modes = modes_or_default input.modes in
      let departure = departure_or input.departure_at app.now in
      reject_if (not (is_valid_ref coords input.origin)) app.now "invalid origin" (
        reject_if (not (is_valid_ref coords input.destination)) app.now "invalid destination" (
          reject_if (is_empty modes) app.now "modes must contain at least one mode" (
            reject_if (not (all (has_mode default_modes) modes)) app.now "unsupported travel mode" (
              reject_if (is_too_early input.arrival_before departure) app.now
                "arrival_before must be after departure_at"
                (with_points lower app input modes departure (resolve input.origin)
                  (resolve input.destination))))))
