-- ===== src/Service/Mobility.antt =====
-- internal/service/mobility.go: `MobilityStatus`, `resolveMobilityAreas`, `filterRoadEvents` and the
-- removal of repeats. What `ResolvePoint` gives for an area and the provider's answers (each with
-- whether it also failed) are arguments; the goroutines of the four branches write to fields of their
-- own, so that their order is of no consequence. The texts that print a number or a name are given
-- without it, so `mobilityRefLabel` is left out.
pub mod Status
pub mod Roads
mod Tests
use mcp_grand_lyon.Base.{
  is_some, ℕ, ◌+◌, String, Bool, true, false, ◌&&◌, ◌||◌, not, Option, none, some, List, [], ◌∷◌,
  ◌++◌, map, any, filter, length, ltb, ◌==◌, ◌=ₛ◌, if◌then◌else◌, is_nil,
}
use Prim.Native.String.{◌++◌ as ◌+ₛ◌}
use mcp_grand_lyon.Base.Text.{Text, same, trim_space}
use mcp_grand_lyon.Base.Unique.{unique_by}
use mcp_grand_lyon.Model.Envelope.{
  Time, Envelope, SourceProvenance, new_envelope, add_source, set_payload, warn, warn_if,
}
use mcp_grand_lyon.Model.Float.{Float, Point, distance}
use mcp_grand_lyon.Model.PlaceRef.{PlaceRef}
use mcp_grand_lyon.Model.Records.{TransitAlert}

pub record AccessibilityIncident : Type 0 where
  pub id : String
  pub location : String
  pub status : String
  pub description : String
  pub start_at : Option Time
  pub end_at : Option Time

pub record TrafficCondition : Type 0 where
  pub id : String
  pub area : String
  pub level : String
  pub description : String
  pub observed_at : Option Time

pub record RoadEvent (F : Type 0) : Type 0 where
  pub id : String
  pub type : String
  pub title : String
  pub description : String
  pub latitude : Option F
  pub longitude : Option F
  pub start_at : Option Time
  pub end_at : Option Time

pub record MobilityData (F : Type 0) : Type 0 where
  pub alerts : List TransitAlert
  pub line_statuses : List (String × ℕ)
  pub accessibility_incidents : List AccessibilityIncident
  pub road_events : List (RoadEvent F)
  pub traffic_conditions : List TrafficCondition

-- What the provider gives, with whether it also failed.
pub record MobilitySources (F : Type 0) : Type 0 where
  pub alerts : List String → List TransitAlert × Bool
  pub incidents : List String → List AccessibilityIncident × Bool
  pub traffic : Text → List TrafficCondition × Bool
  pub road_events : List (RoadEvent F) × Bool

pub record MobilityStatusInput (F : Type 0) : Type 0 where
  pub include : List String
  pub lines : List String
  pub areas : List (PlaceRef F)

-- `mobilityStringSet`, read at a key.
abbrev pub among : List String → String → Bool
among values key = any (λ v. v =ₛ key) values

abbrev pub branches : List String
branches = "transit" ∷ "accessibility" ∷ "traffic" ∷ "roadworks" ∷ []

unfoldable pub first_unsupported : List String → Option String
first_unsupported [] = none
first_unsupported (i ∷ is) =
    let later = first_unsupported is in if among branches i then later else some i

unfoldable pub unique_alerts : List TransitAlert → List TransitAlert
unique_alerts = unique_by ◌=ₛ◌ (λ a. a.id)

unfoldable pub unique_traffic : List TrafficCondition → List TrafficCondition
unique_traffic = unique_by ◌=ₛ◌ (λ c. c.id)

unfoldable pub unique_road_events : {F : Type 0} → List (RoadEvent F) → List (RoadEvent F)
unique_road_events = unique_by ◌=ₛ◌ (λ e. e.id)

-- The loop over the labels: the answers without an error, and whether one had one.
unfoldable pub gather_traffic :
    (Text → List TrafficCondition × Bool) → List Text → List TrafficCondition × Bool
gather_traffic traffic [] = ([], false)
gather_traffic traffic (label ∷ labels) =
    let rest = gather_traffic traffic labels in
    let (values, failed) = traffic label in
    if failed then (rest.0, true) else (values ++ rest.0, rest.1)

-- The labels and the points of the areas that resolve, and whether there are others.
unfoldable pub area_points :
    {F : Type 0} → (PlaceRef F → Option (Point F)) → List (PlaceRef F) → List (Point F)
area_points resolve [] = []
area_points resolve (r ∷ rs) = elim (resolve r) [
  | none ↦ area_points resolve rs
  | some p ↦ p ∷ area_points resolve rs
]

abbrev label_of : Text → List Text → List Text
label_of [] labels = labels
label_of (c ∷ label) labels = (c ∷ label) ∷ labels

unfoldable pub all_labels :
    {F : Type 0} → (PlaceRef F → Option (Point F)) → List (PlaceRef F) → List Text
all_labels resolve [] = []
all_labels resolve (r ∷ rs) = elim (resolve r) [
  | none ↦ all_labels resolve rs
  | some p ↦ label_of (trim_space r.query) (all_labels resolve rs)
]

-- `uniqueMobilityStrings` of them.
unfoldable pub area_labels :
    {F : Type 0} → (PlaceRef F → Option (Point F)) → List (PlaceRef F) → List Text
area_labels resolve rs = unique_by same (λ l. l) (all_labels resolve rs)

-- `result.Warn` for each area that does not resolve.
unfoldable pub warn_unresolved :
    {F D : Type 0} → (PlaceRef F → Option (Point F)) → List (PlaceRef F) → Envelope D → Envelope D
warn_unresolved resolve [] e = e
warn_unresolved resolve (r ∷ rs) e = warn_unresolved resolve rs (
    warn_if (not (is_some (resolve r))) e "PLACE_NOT_FOUND" "areas"
      "Mobility area could not be resolved." false)

-- A failed answer is unavailable where it is empty, and partial otherwise.
unfoldable pub warn_failed :
    {A D : Type 0} → List A × Bool → String → String → String → Envelope D → Envelope D
warn_failed (values, failed) source unavailable incomplete e =
    warn_if failed e (if is_nil values then "SOURCE_UNAVAILABLE" else "PARTIAL_RESULT") source
      (if is_nil values then unavailable else incomplete) true

module _ (fl : Float) where
  open fl use {F, literal, lt, eq}

  abbrev pub Report : Type 0
  Report = Envelope (MobilityData F)

  abbrev pub is_near : Point F → F → F → F → Bool
  is_near area lat lon radius =
      let d = distance fl area (record { latitude = lat; longitude = lon }) in
      lt d radius || eq d radius

  unfoldable pub is_matched : List (Point F) → F → RoadEvent F → Bool
  is_matched areas radius e = elim e.latitude [
    | none ↦ false
    | some lat ↦ elim e.longitude [
      | none ↦ false
      | some lon ↦ any (λ area. is_near area lat lon radius) areas
    ]
  ]

  -- The events that are kept, and the number of those that are omitted.
  unfoldable pub filter_road_events :
      List (RoadEvent F) → List (Point F) → F → List (RoadEvent F) × ℕ
  filter_road_events es areas radius = (
    filter (is_matched areas radius) es,
    length (filter (λ e. not (is_matched areas radius e)) es),
  )

  module _ (equal_fold : String → String → Bool) where
    abbrev concerns : String → TransitAlert → Bool
    concerns line a = is_nil a.lines || any (λ l. equal_fold l line) a.lines

    unfoldable pub line_status : List TransitAlert → String → String × ℕ
    line_status alerts line = (line, length (filter (concerns line) alerts))

    abbrev with_alerts : List String → List TransitAlert → Report → Report
    with_alerts lines alerts e =
        set_payload e
          (record e.payload { alerts = alerts; line_statuses = map (line_status alerts) lines })
          "Mobility status: alert(s)."

    -- The data is replaced unless the answer is empty and failed.
    unfoldable pub transit_stage : List String → List TransitAlert × Bool → Report → Report
    transit_stage lines (alerts, failed) e =
        let e1 =
          warn_failed (alerts, failed) "tcl_alerts" "TCL alerts are unavailable."
            "TCL alerts are incomplete because a later source page failed." e in
        if failed && is_nil alerts then e1 else with_alerts lines (unique_alerts alerts) e1

  abbrev with_incidents : List AccessibilityIncident → Report → Report
  with_incidents is e = set_payload e (record e.payload { accessibility_incidents = is }) e.summary

  unfoldable pub accessibility_stage : List AccessibilityIncident × Bool → Report → Report
  accessibility_stage (incidents, failed) e =
      let e1 =
        warn_failed (incidents, failed) "tcl_accessibility" "Accessibility data is unavailable."
          "Accessibility data is incomplete because a later source page failed." e in
      if failed && is_nil incidents then e1 else with_incidents incidents e1

  abbrev with_conditions : List TrafficCondition → Report → Report
  with_conditions cs e = set_payload e (record e.payload { traffic_conditions = cs }) e.summary

  -- `coordinates_only` says whether there are more points than labels.
  unfoldable pub traffic_stage : Bool → List TrafficCondition × Bool → Report → Report
  traffic_stage coordinates_only (conditions, failed) e =
      with_conditions (unique_traffic conditions) (
        warn_if failed
          (warn_if coordinates_only e "PARTIAL_RESULT" "traffic"
            "Traffic conditions cannot be filtered by coordinate-only areas." false)
          "SOURCE_UNAVAILABLE" "traffic" "Traffic conditions are unavailable." true)

  abbrev with_events : List (RoadEvent F) → Report → Report
  with_events es e = set_payload e (record e.payload { road_events = es }) e.summary

  abbrev near_events : List (RoadEvent F) → List (Point F) → List (RoadEvent F) × ℕ
  near_events es [] = (es, 0)
  near_events es (p ∷ ps) = filter_road_events es (p ∷ ps) (literal "1500")

  -- Blocked where areas were asked for and none resolves: the provider is not asked.
  unfoldable pub road_stage : Bool → List (Point F) → List (RoadEvent F) × Bool → Report → Report
  road_stage true points answer e = with_events [] e
  road_stage false points (events, failed) e =
      let kept = near_events (unique_road_events events) points in
      with_events kept.0 (
        warn_if (not (kept.1 == 0))
          (warn_failed (events, failed) "road_events" "Road events are unavailable."
            "Road events are incomplete because a later source page failed." e)
          "PARTIAL_RESULT" "road_events" "Road events without matching coordinates were omitted."
          false)

  abbrev pub source_of : Time → String → String → SourceProvenance
  source_of now id attribution = record {
    provider = "DataGrandLyon";
    source_id = id;
    dataset = id;
    attribution = attribution;
    license = "unknown";
    observed_at = none;
    retrieved_at = some now;
    age_seconds = none;
    realtime = false;
    stale = false;
  }
