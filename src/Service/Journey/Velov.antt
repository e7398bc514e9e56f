-- ===== src/Service/Journey/Velov.antt =====
-- internal/service/journey.go: `appendVelovOption`, `setStationDistances`, `filterFreshStations`
-- and `filterStations`.
pub mod Best
use mcp_grand_lyon.Base.{
  ℕ, String, Bool, true, false, not, ◌&&◌, ◌||◌, Option, none, some, List, [], ◌∷◌, ◌++◌, map,
  filter, ◌=ₛ◌, if◌then◌else◌, ◌≡◌, refl, arith, All,
}
use mcp_grand_lyon.Base.Int.{ℤ, pos, ltb_ℤ, ◌+ℤ◌}
use mcp_grand_lyon.Model.Envelope.{Time, SourceProvenance, warn}
use mcp_grand_lyon.Model.Float.{Float, Point, distance}
use mcp_grand_lyon.Model.Records.{TripOption, TripPreferences, VelovStation}
use mcp_grand_lyon.Service.Freshness.{
  observation_freshness, oldest_observation, latest_retrieval, ◌+++◌,
}
use mcp_grand_lyon.Service.Journey.App.{App, Draft, Provider, maximum_age, trip_score}

abbrev pub is_empty {ℓ} : {A : Type ℓ} → List A → Bool
is_empty [] = true
is_empty (x ∷ xs) = false

-- `selectedOrigin`, `selectedDestination`, `bestDuration` and `bestWalking`.
pub record Selection (F : Type 0) : Type 0 where
  pub origin : VelovStation F
  pub destination : VelovStation F
  pub duration : ℤ
  pub walking : ℤ

module _ (fl : Float) where
  open fl use {F, literal, of_int, to_int, add, div}

  abbrev pub place_of : VelovStation F → Point F
  place_of s = record { latitude = s.latitude; longitude = s.longitude }

  abbrev placed : Point F → VelovStation F → VelovStation F
  placed point s = record s { distance_m = some (distance fl point (place_of s)) }

  unfoldable pub set_station_distances : Point F → List (VelovStation F) → List (VelovStation F)
  set_station_distances point stations = map (placed point) stations

  abbrev pub offers : ℤ → Bool → VelovStation F → Bool
  offers minimum bikes s =
      not (s.status =ₛ "closed")
      && not (ltb_ℤ (if bikes then s.bikes_available else s.docks_available) minimum)

  unfoldable pub filter_stations : ℤ → Bool → List (VelovStation F) → List (VelovStation F)
  filter_stations minimum bikes stations = filter (offers minimum bikes) stations

  abbrev pub is_fresh : Time → ℕ → VelovStation F → Bool
  is_fresh now maximum s =
      let (age, is_stale, is_missing) =
        observation_freshness s.observed_at s.retrieved_at now (pos maximum) in
      not is_stale && not is_missing

  unfoldable pub filter_fresh_stations : Time → ℕ → List (VelovStation F) → List (VelovStation F)
  filter_fresh_stations now maximum stations = filter (is_fresh now maximum) stations

  abbrev within : ℤ → ℤ → Selection F → Option (Selection F)
  within most walking s = if ltb_ℤ most walking then none else some s

  abbrev pub pair_at :
      ℤ → VelovStation F → VelovStation F → Option F → Option F → Option (Selection F)
  pair_at most o d (some a) (some b) =
      let walking = to_int (add a b) in
      let bike = to_int (div (distance fl (place_of o) (place_of d)) (literal "4.0")) in
      within most walking
        (record { origin = o; destination = d; duration = bike +ℤ walking; walking = walking })
  pair_at most o d none b = none
  pair_at most o d (some a) none = none

  -- What the loop body makes of a pair of stations, where it does not skip it.
  unfoldable pub pair_of : ℤ → VelovStation F → VelovStation F → Option (Selection F)
  pair_of most o d = pair_at most o d o.distance_m d.distance_m

  unfoldable pub better : Option (Selection F) → Option (Selection F) → Option (Selection F)
  better best none = best
  better none (some p) = some p
  better (some b) (some p) = if ltb_ℤ p.duration b.duration then some p else some b

  pub scan_destinations :
      ℤ → VelovStation F → Option (Selection F) → List (VelovStation F) → Option (Selection F)
  scan_destinations most o best [] = best
  scan_destinations most o best (d ∷ ds) =
      scan_destinations most o (better best (pair_of most o d)) ds

  pub scan_origins :
      ℤ
      → Option (Selection F)
      → List (VelovStation F)
      → List (VelovStation F)
      → Option (Selection F)
  unfolding scan_destinations
  scan_origins most best [] ds = best
  scan_origins most best (o ∷ os) ds = scan_origins most (scan_destinations most o best ds) os ds

  unfoldable pub select_stations :
      ℤ → List (VelovStation F) → List (VelovStation F) → Option (Selection F)
  unfolding scan_origins
  select_stations most os ds = scan_origins most none os ds

  abbrev velov_option : App F → Selection F → TripOption F
  velov_option app s = record {
    mode = "velov";
    score =
        trip_score fl app.journey_scoring s.duration (literal "0.75") (literal "0") s.walking
          (literal "0.8");
    evidence = "estimated";
    eligible = false;
    ineligibility_reasons = [];
    estimated_duration_seconds = some s.duration;
    departure_at = none;
    arrival_at = none;
    walking_distance_m = some s.walking;
    transfers = pos 0;
    availability = some "bikes / docks";
    availability_stale = false;
    reliability = none;
    accessibility = none;
    legs = [];
    alerts = [];
    realtime = true;
    summary = "Velov " +++ s.origin.name +++ " to " +++ s.destination.name;
    sources = "velov_realtime" ∷ [];
  }

  abbrev velov_source : App F → Selection F → SourceProvenance
  velov_source app s =
      let observed = oldest_observation (s.origin.observed_at ∷ s.destination.observed_at ∷ []) in
      let retrieved = latest_retrieval (s.origin.retrieved_at ∷ s.destination.retrieved_at ∷ []) in
      let (age, is_stale, is_missing) =
        observation_freshness observed retrieved app.now (pos (maximum_age app "velov_realtime")) in
      record {
        provider = "DataGrandLyon";
        source_id = "velov_realtime";
        dataset = "velov_realtime";
        attribution = "Métropole de Lyon / JCDecaux";
        license = "unknown";
        observed_at = observed;
        retrieved_at = retrieved;
        age_seconds = age;
        realtime = true;
        stale = is_stale;
      }

  abbrev usable : App F → ℤ → Bool → Point F → List (VelovStation F) → List (VelovStation F)
  usable app minimum bikes point stations =
      let open_stations = filter_stations minimum bikes (set_station_distances point stations) in
      if app.offline
      then open_stations
      else filter_fresh_stations app.now (maximum_age app "velov_realtime") open_stations

  abbrev pub warned : Draft F → String → String → Bool → Draft F
  warned t code message retryable = record t {
    envelope = warn t.envelope code "velov_realtime" message retryable;
  }

  abbrev pub append_selection : App F → Option (Selection F) → Draft F → Draft F
  append_selection app none t =
      warned t "PARTIAL_RESULT" "No station pair satisfies the requested walking limit." false
  append_selection app (some s) t = record {
    envelope = record t.envelope {
      sources =
          if app.offline then t.envelope.sources else t.envelope.sources ++ velov_source app s ∷ [];
    };
    options = t.options ++ velov_option app s ∷ [];
  }

  abbrev pub choose_from :
      App F → TripPreferences → List (VelovStation F) → List (VelovStation F) → Draft F → Draft F
  choose_from app preferences os ds t =
      if is_empty os || is_empty ds
      then warned t "PARTIAL_RESULT"
          "No station pair satisfies the requested availability and freshness." false
      else append_selection app (select_stations preferences.max_walking_m os ds) t

  abbrev pub near : Provider F → TripPreferences → Point F → List (VelovStation F) × Bool
  near provider preferences point = provider.stations point (of_int preferences.max_walking_m) 5

  abbrev pub with_provider :
      App F → Option (Provider F) → Point F → Point F → TripPreferences → Draft F → Draft F
  with_provider app none origin destination preferences t =
      warned t "SOURCE_UNAVAILABLE" "The Velov provider is unavailable." true
  with_provider app (some provider) origin destination preferences t =
      if (near provider preferences origin).1 || (near provider preferences destination).1
      then warned t "SOURCE_UNAVAILABLE" "Velov stations are unavailable for this trip." true
      else choose_from app preferences
          (usable app preferences.minimum_velov_bikes true origin
            (near provider preferences origin).0)
          (usable app preferences.minimum_velov_docks false destination
            (near provider preferences destination).0)
          t

  unfoldable pub append_velov_option :
      App F → Point F → Point F → TripPreferences → Draft F → Draft F
  append_velov_option app origin destination preferences t =
      with_provider app app.provider origin destination preferences t
