-- ===== src/Service/Mobility/Status.antt =====
-- internal/service/mobility.go: the handler `MobilityStatus`, stage by stage.
pub mod Reports
pub mod Failures
use mcp_grand_lyon.Base.{
  ℕ, String, Bool, true, false, ◌&&◌, not, Option, none, some, List, [], ◌∷◌, ltb, length,
  if◌then◌else◌, is_nil,
}
use Prim.Native.String.{◌++◌ as ◌+ₛ◌}
use mcp_grand_lyon.Base.Text.{Text}
use mcp_grand_lyon.Model.Envelope.{Time, Envelope, new_envelope, add_source, warn}
use mcp_grand_lyon.Model.Float.{Float, Point}
use mcp_grand_lyon.Model.PlaceRef.{PlaceRef}
use mcp_grand_lyon.Service.Mobility.{
  MobilityData, MobilitySources, MobilityStatusInput, Report, RoadEvent, TrafficCondition, among,
  branches, first_unsupported, area_points, area_labels, gather_traffic, warn_unresolved,
  transit_stage, accessibility_stage, traffic_stage, road_stage, source_of,
}

abbrev pub or_any : List Text → List Text
or_any [] = [] ∷ []
or_any (l ∷ ls) = l ∷ ls

abbrev pub or_all : List String → List String
or_all [] = "transit" ∷ "accessibility" ∷ "traffic" ∷ "roadworks" ∷ []
or_all (i ∷ is) = i ∷ is

module _ (fl : Float) (equal_fold : String → String → Bool)
    (resolve : PlaceRef fl.F → Option (Point fl.F)) where
  open fl use {F}

  abbrev pub when : Bool → (Report fl → Report fl) → Report fl → Report fl
  when included stage e = if included then stage e else e

  -- What the branches find, and the warnings, in the order of the code.
  unfoldable pub transit_of : MobilitySources F → MobilityStatusInput F → Report fl → Report fl
  transit_of sources input e =
      when (among input.include "transit")
        (transit_stage fl equal_fold input.lines (sources.alerts input.lines)) e

  unfoldable pub accessibility_of :
      MobilitySources F → MobilityStatusInput F → Report fl → Report fl
  accessibility_of sources input e =
      when (among input.include "accessibility")
        (accessibility_stage fl (sources.incidents input.lines)) e

  unfoldable pub traffic_of : MobilitySources F → MobilityStatusInput F → Report fl → Report fl
  traffic_of sources input e =
      let labels = area_labels resolve input.areas in
      when (among input.include "traffic")
        (traffic_stage fl (ltb (length labels) (length (area_points resolve input.areas)))
          (gather_traffic sources.traffic (or_any labels)))
        e

  unfoldable pub roads_of : MobilitySources F → MobilityStatusInput F → Report fl → Report fl
  roads_of sources input e =
      let points = area_points resolve input.areas in
      when (among input.include "roadworks")
        (road_stage fl (not (is_nil input.areas) && is_nil points) points sources.road_events) e

  unfoldable pub with_sources : Time → List String → Report fl → Report fl
  with_sources now include e =
      let e1 =
        when (among include "transit")
          (λ r. add_source r (source_of fl now "tcl_alerts" "SYTRAL Mobilités")) e in
      let e2 =
        when (among include "accessibility")
          (λ r. add_source r (source_of fl now "tcl_accessibility" "SYTRAL Mobilités")) e1 in
      let e3 =
        when (among include "traffic")
          (λ r. add_source r (source_of fl now "traffic" "Métropole de Lyon")) e2 in
      when (among include "roadworks")
        (λ r. add_source r (source_of fl now "road_events" "Métropole de Lyon")) e3

  abbrev no_data : MobilityData F
  no_data = record {
    alerts = [];
    line_statuses = [];
    accessibility_incidents = [];
    road_events = [];
    traffic_conditions = [];
  }

  unfoldable pub served : Time → MobilitySources F → MobilityStatusInput F → Report fl
  served now sources input = with_sources now input.include (
      roads_of sources input (
        traffic_of sources input (
          accessibility_of sources input (
            transit_of sources input (
              warn_unresolved resolve input.areas
                (new_envelope now "ok" "Mobility status: 0 alert(s)." no_data))))))

  unfoldable pub answered : Time → Option (MobilitySources F) → MobilityStatusInput F → Report fl
  answered now none input =
      warn
        (record (new_envelope now "ok" "Mobility status: 0 alert(s)." no_data) {
          status = "unavailable";
        })
        "SOURCE_UNAVAILABLE" "mobility" "Mobility providers are not configured." true
  answered now (some sources) input = served now sources input

  abbrev pub refused :
      Time → Option (MobilitySources F) → MobilityStatusInput F → Option String → Report fl
  refused now provider input none = answered now provider input
  refused now provider input (some include) =
      new_envelope now "invalid_request" ("Unsupported mobility include: " +ₛ include) no_data

  unfoldable pub mobility_status :
      Time → Option (MobilitySources F) → MobilityStatusInput F → Report fl
  mobility_status now provider input =
      let include = or_all input.include in
      refused now provider (record input { include = include }) (first_unsupported include)
