-- ===== src/Service/Mobility/Status/Reports.antt =====
-- What the envelope of internal/service/mobility.go's `MobilityStatus` reports.
use mcp_grand_lyon.Base.{String, Bool, true, false, Option, List, [], ◌∷◌, if◌then◌else◌}
use mcp_grand_lyon.Model.Envelope.{
  Envelope, IsHonest, IsDegraded, warn_if-IsHonest, warn_if-IsDegraded, warn_if-true-IsDegraded,
  set_payload-IsHonest, set_payload-IsDegraded, if-IsHonest, if-IsDegraded,
}
use mcp_grand_lyon.Model.Float.{Float, Point}
use mcp_grand_lyon.Model.PlaceRef.{PlaceRef}
use mcp_grand_lyon.Model.Records.{TransitAlert}
use mcp_grand_lyon.Service.Mobility.{
  AccessibilityIncident, TrafficCondition, RoadEvent, Report, warn_unresolved, warn_failed,
  transit_stage, accessibility_stage, traffic_stage, road_stage,
}

-- What is kept by a step of the handler: a report that is honest stays so, and one that reports a
-- problem goes on reporting it.
pub record IsFaithful {D : Type 0} (step : Envelope D → Envelope D) : Type 0 where
  pub honest : (e : Envelope D) → IsHonest e → IsHonest (step e)
  pub degraded : (e : Envelope D) → IsDegraded e → IsDegraded (step e)

pub when-IsFaithful :
    {D : Type 0} (test : Bool) (step : Envelope D → Envelope D)
    → IsFaithful step
    → IsFaithful (λ e. if test then step e else e)
when-IsFaithful true step h = h
when-IsFaithful false step h = record { honest = λ e k. k; degraded = λ e k. k }

pub warn_unresolved-IsHonest :
    {F D : Type 0} (resolve : PlaceRef F → Option (Point F)) (rs : List (PlaceRef F))
    (e : Envelope D)
    → IsHonest e
    → IsHonest (warn_unresolved resolve rs e)
unfolding warn_unresolved
warn_unresolved-IsHonest resolve [] e h = h
warn_unresolved-IsHonest resolve (r ∷ rs) e h =
    warn_unresolved-IsHonest resolve rs _ (warn_if-IsHonest _ e _ _ _ _ h)

warn_failed-IsFaithful :
    {A D : Type 0} (answer : List A × Bool) (source unavailable incomplete : String)
    → IsFaithful {D = D} (warn_failed answer source unavailable incomplete)
unfolding warn_failed
warn_failed-IsFaithful (values, failed) source unavailable incomplete = record {
  honest = λ e h. warn_if-IsHonest _ _ _ _ _ _ h;
  degraded = λ e h. warn_if-IsDegraded _ _ _ _ _ _ h;
}

warn_failed-IsDegraded :
    {A D : Type 0} (values : List A) (source unavailable incomplete : String) (e : Envelope D)
    → IsDegraded (warn_failed (values, true) source unavailable incomplete e)
unfolding warn_failed
warn_failed-IsDegraded values source unavailable incomplete e = warn_if-true-IsDegraded _ _ _ _ _

module _ (fl : Float) (equal_fold : String → String → Bool) where
  open fl use {F}

  pub transit_stage-IsFaithful :
      (lines : List String) (answer : List TransitAlert × Bool)
      → IsFaithful (transit_stage fl equal_fold lines answer)
  unfolding transit_stage
  transit_stage-IsFaithful lines (alerts, failed) =
      let w =
        warn_failed-IsFaithful (alerts, failed) "tcl_alerts" "TCL alerts are unavailable."
          "TCL alerts are incomplete because a later source page failed." in
      record {
        honest =
            λ e h. if-IsHonest _ _ _ (w.honest e h) (set_payload-IsHonest _ _ _ (w.honest e h));
        degraded = λ e h.
            if-IsDegraded _ _ _ (w.degraded e h) (set_payload-IsDegraded _ _ _ (w.degraded e h));
      }

  pub transit_stage-IsDegraded :
      (lines : List String) (alerts : List TransitAlert) (e : Report fl)
      → IsDegraded (transit_stage fl equal_fold lines (alerts, true) e)
  unfolding transit_stage
  transit_stage-IsDegraded lines alerts e =
      if-IsDegraded _ _ _ (warn_failed-IsDegraded alerts _ _ _ e)
        (set_payload-IsDegraded _ _ _ (warn_failed-IsDegraded alerts _ _ _ e))

  pub accessibility_stage-IsFaithful :
      (answer : List AccessibilityIncident × Bool) → IsFaithful (accessibility_stage fl answer)
  unfolding accessibility_stage
  accessibility_stage-IsFaithful (incidents, failed) =
      let w =
        warn_failed-IsFaithful (incidents, failed) "tcl_accessibility"
          "Accessibility data is unavailable."
          "Accessibility data is incomplete because a later source page failed." in
      record {
        honest =
            λ e h. if-IsHonest _ _ _ (w.honest e h) (set_payload-IsHonest _ _ _ (w.honest e h));
        degraded = λ e h.
            if-IsDegraded _ _ _ (w.degraded e h) (set_payload-IsDegraded _ _ _ (w.degraded e h));
      }

  pub accessibility_stage-IsDegraded :
      (incidents : List AccessibilityIncident) (e : Report fl)
      → IsDegraded (accessibility_stage fl (incidents, true) e)
  unfolding accessibility_stage
  accessibility_stage-IsDegraded incidents e =
      if-IsDegraded _ _ _ (warn_failed-IsDegraded incidents _ _ _ e)
        (set_payload-IsDegraded _ _ _ (warn_failed-IsDegraded incidents _ _ _ e))

  pub traffic_stage-IsFaithful :
      (coordinates_only : Bool) (answer : List TrafficCondition × Bool)
      → IsFaithful (traffic_stage fl coordinates_only answer)
  unfolding traffic_stage
  traffic_stage-IsFaithful coordinates_only (conditions, failed) = record {
    honest = λ e h.
        set_payload-IsHonest _ _ _
          (warn_if-IsHonest _ _ _ _ _ _ (warn_if-IsHonest coordinates_only e _ _ _ _ h));
    degraded = λ e h.
        set_payload-IsDegraded _ _ _
          (warn_if-IsDegraded _ _ _ _ _ _ (warn_if-IsDegraded coordinates_only e _ _ _ _ h));
  }

  pub traffic_stage-IsDegraded :
      (coordinates_only : Bool) (conditions : List TrafficCondition) (e : Report fl)
      → IsDegraded (traffic_stage fl coordinates_only (conditions, true) e)
  unfolding traffic_stage
  traffic_stage-IsDegraded coordinates_only conditions e =
      set_payload-IsDegraded _ _ _ (warn_if-true-IsDegraded _ _ _ _ _)

  pub road_stage-IsFaithful :
      (blocked : Bool) (points : List (Point F)) (answer : List (RoadEvent F) × Bool)
      → IsFaithful (road_stage fl blocked points answer)
  unfolding road_stage
  road_stage-IsFaithful true points answer = record {
    honest = λ e h. set_payload-IsHonest e _ _ h;
    degraded = λ e h. set_payload-IsDegraded e _ _ h;
  }
  road_stage-IsFaithful false points (events, failed) =
      let w =
        warn_failed-IsFaithful (events, failed) "road_events" "Road events are unavailable."
          "Road events are incomplete because a later source page failed." in
      record {
        honest = λ e h. set_payload-IsHonest _ _ _ (warn_if-IsHonest _ _ _ _ _ _ (w.honest e h));
        degraded =
            λ e h. set_payload-IsDegraded _ _ _ (warn_if-IsDegraded _ _ _ _ _ _ (w.degraded e h));
      }

  pub road_stage-IsDegraded :
      (points : List (Point F)) (events : List (RoadEvent F)) (e : Report fl)
      → IsDegraded (road_stage fl false points (events, true) e)
  unfolding road_stage
  road_stage-IsDegraded points events e =
      set_payload-IsDegraded _ _ _
        (warn_if-IsDegraded _ _ _ _ _ _ (warn_failed-IsDegraded events _ _ _ e))
