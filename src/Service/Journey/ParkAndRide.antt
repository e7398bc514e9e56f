-- ===== src/Service/Journey/ParkAndRide.antt =====
-- internal/service/journey.go: `appendParkAndRideOption`.
use mcp_grand_lyon.Base.{
  ◌-◌, ◌/◌, String, Bool, true, false, not, ◌&&◌, ◌||◌, Option, none, some, List, [], ◌∷◌, ◌++◌,
  ◌=ₛ◌, if◌then◌else◌, ltb, is_some,
}
use mcp_grand_lyon.Base.Int.{ℤ, pos, ltb_ℤ, difference}
use mcp_grand_lyon.Model.Envelope.{Time, SourceProvenance, warn, warn_if}
use mcp_grand_lyon.Model.Float.{Float, Point, distance}
use mcp_grand_lyon.Model.Records.{TripOption, TripLeg, TripPreferences, ParkingOption}
use mcp_grand_lyon.Service.Freshness.{observation_freshness, ◌+++◌}
use mcp_grand_lyon.Service.Journey.{add_seconds}
use mcp_grand_lyon.Service.Journey.App.{App, Draft, Provider, maximum_age, trip_score}
use mcp_grand_lyon.Service.Journey.Transit.{
  is_empty, value_of, blank_option, disruption_of, transitous_source,
}

abbrev or_else {ℓ} : {A : Type ℓ} → Option A → Option A → Option A
or_else none b = b
or_else (some a) b = some a

-- `a != nil && a.Before(t)`, and `a != nil && a.After(t)`.
abbrev pub is_before : Option Time → Time → Bool
is_before none t = false
is_before (some a) t = ltb a t

abbrev is_later : Option Time → Time → Bool
is_later none t = false
is_later (some a) t = ltb t a

-- `int(arrival.Sub(departure).Seconds())`: whole seconds, towards zero.
abbrev pub seconds_between : Time → Time → ℤ
seconds_between departure arrival =
    if ltb arrival departure
    then difference 0 ((departure - arrival) / 1_000_000_000)
    else pos ((arrival - departure) / 1_000_000_000)

module _ (fl : Float) where
  open fl use {F, literal, to_int, div}

  abbrev pub spot : ParkingOption F → Point F
  spot p = record { latitude = p.latitude; longitude = p.longitude }

  abbrev walk_of : Option F → Option ℤ
  walk_of none = none
  walk_of (some x) = some (to_int x)

  abbrev availability_score : Option ℤ → F
  availability_score none = literal "0.2"
  availability_score (some n) = if ltb_ℤ (pos 5) n then literal "0.7" else literal "0.5"

  abbrev spaces_text : Option ℤ → Option String
  spaces_text none = none
  spaces_text (some n) = some "spaces"

  abbrev is_stale_now : App F → ParkingOption F → Option ℤ → Bool
  is_stale_now app p none = false
  is_stale_now app p (some n) =
      let (age, is_stale, is_missing) =
        observation_freshness p.observed_at p.retrieved_at app.now
          (pos (maximum_age app "parking_realtime")) in
      not app.offline && (is_stale || is_missing)

  -- The option before the connection is known.
  unfoldable pub parking_part : App F → ParkingOption F → TripOption F
  parking_part app p =
      let is_stale = is_stale_now app p p.available_spaces in
      record (blank_option (literal "0") "park_and_ride") {
        availability = spaces_text p.available_spaces;
        availability_stale = is_stale;
        walking_distance_m = walk_of p.distance_m;
        summary = "Park-and-ride at " +++ p.name;
        realtime = p.realtime && not is_stale;
        sources = "parking" ∷ [];
      }

  unfoldable pub car_arrival : Point F → Time → ParkingOption F → Time
  car_arrival origin departure p =
      add_seconds departure (to_int (div (distance fl origin (spot p)) (literal "8.0")))

  abbrev pub transfer_duration : ℤ
  transfer_duration = pos 120

  abbrev car_leg : Point F → Time → ParkingOption F → TripLeg
  car_leg origin departure p = record {
    mode = "car";
    evidence = "estimated";
    operator = "";
    line = "";
    from = "Origin";
    to = p.name;
    start_at = some departure;
    end_at = some (car_arrival origin departure p);
    distance_m = some (to_int (distance fl origin (spot p)));
    realtime = false;
  }

  abbrev transfer_leg : Point F → Time → ParkingOption F → Option Time → TripLeg
  transfer_leg origin departure p ends = record {
    mode = "transfer";
    evidence = "estimated";
    operator = "";
    line = "";
    from = p.name;
    to = p.name;
    start_at = some (car_arrival origin departure p);
    end_at = ends;
    distance_m = none;
    realtime = false;
  }

  -- The first planned option that leaves late enough, if any.
  unfoldable pub first_after : Time → List (TripOption F) → Option (TripOption F)
  first_after t [] = none
  first_after t (o ∷ os) =
      let rest = first_after t os in
      if is_some o.departure_at && not (is_before o.departure_at t) then some o else rest

  -- `transit`; `first` is `planned[0]`.
  unfoldable pub choose_transit : Time → TripOption F → List (TripOption F) → TripOption F
  choose_transit t first planned = elim (first_after t planned) [ none ↦ first | some o ↦ o ]

  abbrev timed : Time → TripOption F → Option Time → Option Time → TripOption F
  timed departure o (some leaves) (some arrives) = record o {
    estimated_duration_seconds = some (seconds_between departure arrives);
    departure_at = some departure;
    arrival_at = some arrives;
  }
  timed departure o none arrives = o
  timed departure o (some leaves) none = o

  abbrev joined_legs : Point F → Time → ParkingOption F → TripOption F → List TripLeg
  joined_legs origin departure p transit =
      let transfer =
        if is_later transit.departure_at (car_arrival origin departure p)
        then transfer_leg origin departure p transit.departure_at ∷ []
        else [] in
      car_leg origin departure p ∷ (transfer ++ transit.legs)

  abbrev rescored : App F → ParkingOption F → TripOption F → TripOption F
  rescored app p o = record o {
    score =
        trip_score fl app.journey_scoring (value_of o.estimated_duration_seconds) (literal "0.7")
          (disruption_of fl o.alerts) (value_of o.walking_distance_m)
          (availability_score p.available_spaces);
  }

  -- The option with the connection `transit`.
  unfoldable pub connected : App F → Point F → Time → ParkingOption F → TripOption F → TripOption F
  connected app origin departure p transit =
      let o = parking_part app p in
      let summary = "Park-and-ride at " +++ p.name in
      rescored app p (
        timed departure
          (record o {
            legs = joined_legs origin departure p transit;
            transfers = transit.transfers;
            alerts = transit.alerts;
            accessibility = transit.accessibility;
            realtime = o.realtime || transit.realtime;
            evidence = "mixed";
            walking_distance_m = transit.walking_distance_m;
            summary =
                if transit.summary =ₛ "" then summary else summary +++ "; " +++ transit.summary;
          })
          transit.departure_at transit.arrival_at)

  abbrev parking_source : App F → ParkingOption F → SourceProvenance
  parking_source app p =
      let (age, is_stale, is_missing) =
        observation_freshness p.observed_at p.retrieved_at app.now
          (pos (maximum_age app "parking_realtime")) in
      record {
        provider = "DataGrandLyon";
        source_id = "parking";
        dataset = "parking_availability";
        attribution = "Métropole de Lyon";
        license = "unknown";
        observed_at = p.observed_at;
        retrieved_at = p.retrieved_at;
        age_seconds = age;
        realtime = p.realtime;
        stale = is_stale;
      }

  abbrev pub added : TripOption F → Draft F → Draft F
  added o t = record t { options = t.options ++ o ∷ [] }

  abbrev pub sourced : List SourceProvenance → Draft F → Draft F
  sourced sources t = record t {
    envelope = record t.envelope { sources = t.envelope.sources ++ sources };
  }

  abbrev parking_sources : App F → ParkingOption F → List SourceProvenance
  parking_sources app p = if app.offline then [] else parking_source app p ∷ []

  abbrev pub unconnected : App F → ParkingOption F → Draft F → Draft F
  unconnected app p t =
      added
        (record (parking_part app p) {
          summary = "Park-and-ride at " +++ p.name +++ "; transit connection unavailable";
        })
        (record t {
          envelope =
              warn t.envelope "ROUTING_UNAVAILABLE" "park_and_ride"
                "A transit connection from the selected park-and-ride is unavailable." true;
        })

  abbrev pub connect : App F → Point F → Time → ParkingOption F → TripOption F → Draft F → Draft F
  connect app origin departure p transit t =
      if is_before transit.departure_at (car_arrival origin departure p)
      then added
          (record (parking_part app p) {
            summary =
                "Park-and-ride at " +++ p.name +++ "; transit leaves before the car can arrive";
          })
          t
      else added (connected app origin departure p transit)
          (sourced (transitous_source fl app.now transit.realtime ∷ parking_sources app p) t)

  abbrev pub with_plan :
      App F → Point F → Time → ParkingOption F → List (TripOption F) → Draft F → Draft F
  with_plan app origin departure p [] t = unconnected app p t
  with_plan app origin departure p (o ∷ os) t =
      connect app origin departure p
        (choose_transit (add_seconds (car_arrival origin departure p) transfer_duration) o (o ∷ os))
        t

  -- One round of the loop over the car parks.
  unfoldable pub append_parking :
      App F
      → Provider F
      → Point F
      → Point F
      → Time
      → TripPreferences
      → ParkingOption F
      → Draft F
      → Draft F
  append_parking app provider origin destination departure preferences p t =
      let warned = record t {
        envelope =
            warn_if (not (is_some p.available_spaces)) t.envelope "PARTIAL_RESULT"
              "parking_availability" "Park-and-ride availability is unknown." false;
      } in
      let (planned, failed) =
        provider.plan (spot p) destination
          (add_seconds (car_arrival origin departure p) transfer_duration) ("tcl" ∷ [])
          preferences in
      if app.transitous_enabled
      then (if failed
          then unconnected app p warned
          else with_plan app origin departure p planned warned)
      else sourced (parking_sources app p) (unconnected app p warned)

  unfoldable pub append_parkings :
      App F
      → Provider F
      → Point F
      → Point F
      → Time
      → TripPreferences
      → List (ParkingOption F)
      → Draft F
      → Draft F
  append_parkings app provider origin destination departure preferences [] t = t
  append_parkings app provider origin destination departure preferences (p ∷ ps) t =
      append_parkings app provider origin destination departure preferences ps
        (append_parking app provider origin destination departure preferences p t)

  abbrev pub with_provider :
      App F → Option (Provider F) → Point F → Point F → Time → TripPreferences → Draft F → Draft F
  with_provider app none origin destination departure preferences t = record t {
    envelope =
        warn t.envelope "SOURCE_UNAVAILABLE" "parking" "The parking provider is unavailable." true;
  }
  with_provider app (some provider) origin destination departure preferences t =
      let (parkings, failed) =
        provider.parkings destination ("park_and_ride" ∷ []) (literal "5000") (pos 0) 5 in
      if failed && is_empty parkings
      then record t {
        envelope =
            warn t.envelope "SOURCE_UNAVAILABLE" "parking" "Park-and-ride data is unavailable."
              true;
      }
      else append_parkings app provider origin destination departure preferences parkings
          (record t {
            envelope =
                warn_if failed t.envelope "PARTIAL_RESULT" "parking"
                  "Some park-and-ride data is unavailable." true;
          })

  unfoldable pub append_park_and_ride_option :
      App F → Point F → Point F → Time → TripPreferences → Draft F → Draft F
  unfolding append_parkings
  append_park_and_ride_option app origin destination departure preferences t =
      with_provider app app.provider origin destination departure preferences t
