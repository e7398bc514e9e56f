-- ===== src/Service/Mobility/Status/Failures.antt =====
-- internal/service/mobility.go's `MobilityStatus` as a whole: its envelope is honest, and no failing
-- branch goes unreported.
use mcp_grand_lyon.Base.{
  any, Bool-cases, inl, inr, arith, String, ◌≡◌, refl, Bool, true, false, ◌&&◌, not, Option, none,
  some, List, [], ◌∷◌, if◌then◌else◌, is_nil,
}
use mcp_grand_lyon.Base.Text.{Text}
use mcp_grand_lyon.Model.Envelope.{
  Time, IsHonest, IsDegraded, new_envelope-IsHonest, warn-IsHonest, SourceProvenance, add_source,
  add_source-IsHonest, add_source-IsDegraded,
}
use mcp_grand_lyon.Model.Float.{Float, Point}
use mcp_grand_lyon.Model.PlaceRef.{PlaceRef}
use mcp_grand_lyon.Service.Mobility.{
  MobilityData, MobilitySources, MobilityStatusInput, Report, among, first_unsupported,
  gather_traffic, area_labels, area_points, TrafficCondition,
}
use mcp_grand_lyon.Service.Mobility.Status.{
  transit_of, accessibility_of, traffic_of, roads_of, with_sources, served, answered,
  mobility_status, or_all, or_any, refused,
}
use mcp_grand_lyon.Service.Mobility.Status.Reports.{
  IsFaithful, when-IsFaithful, warn_unresolved-IsHonest, transit_stage-IsFaithful,
  transit_stage-IsDegraded, accessibility_stage-IsFaithful, accessibility_stage-IsDegraded,
  traffic_stage-IsFaithful, traffic_stage-IsDegraded, road_stage-IsFaithful, road_stage-IsDegraded,
}

gather_traffic-failed :
    (traffic : Text → List TrafficCondition × Bool) (labels : List Text)
    → any (λ label. (traffic label).1) labels ≡ true
    → (gather_traffic traffic labels).1 ≡ true
unfolding gather_traffic
gather_traffic-failed traffic [] h = ground arith
gather_traffic-failed traffic (l ∷ ls) h = elim (Bool-cases (traffic l).1) [
  | inl t ↦ rw t refl
  | inr f ↦ rw f (gather_traffic-failed traffic ls (ground arith))
]

add_source-IsFaithful :
    {D : Type 0} (v : SourceProvenance) → IsFaithful {D = D} (λ e. add_source e v)
add_source-IsFaithful v = record {
  honest = λ e h. add_source-IsHonest e v h;
  degraded = λ e h. add_source-IsDegraded e v h;
}

module _ (fl : Float) (equal_fold : String → String → Bool)
    (resolve : PlaceRef fl.F → Option (Point fl.F)) where
  open fl use {F}

  transit_of-IsFaithful :
      (sources : MobilitySources F) (input : MobilityStatusInput F)
      → IsFaithful (transit_of fl equal_fold resolve sources input)
  unfolding transit_of
  transit_of-IsFaithful sources input =
      when-IsFaithful (among input.include "transit") _
        (transit_stage-IsFaithful fl equal_fold input.lines (sources.alerts input.lines))

  accessibility_of-IsFaithful :
      (sources : MobilitySources F) (input : MobilityStatusInput F)
      → IsFaithful (accessibility_of fl equal_fold resolve sources input)
  unfolding accessibility_of
  accessibility_of-IsFaithful sources input =
      when-IsFaithful (among input.include "accessibility") _
        (accessibility_stage-IsFaithful fl equal_fold (sources.incidents input.lines))

  traffic_of-IsFaithful :
      (sources : MobilitySources F) (input : MobilityStatusInput F)
      → IsFaithful (traffic_of fl equal_fold resolve sources input)
  unfolding traffic_of
  traffic_of-IsFaithful sources input =
      when-IsFaithful (among input.include "traffic") _ (traffic_stage-IsFaithful fl equal_fold _ _)

  roads_of-IsFaithful :
      (sources : MobilitySources F) (input : MobilityStatusInput F)
      → IsFaithful (roads_of fl equal_fold resolve sources input)
  unfolding roads_of
  roads_of-IsFaithful sources input =
      when-IsFaithful (among input.include "roadworks") _
        (road_stage-IsFaithful fl equal_fold _ _ _)

  source_step :
      (include : List String) (key : String) (v : SourceProvenance)
      → IsFaithful {D = MobilityData F} (λ e. if among include key then add_source e v else e)
  source_step include key v = when-IsFaithful (among include key) _ (add_source-IsFaithful v)

  with_sources-IsFaithful :
      (now : Time) (include : List String)
      → IsFaithful (with_sources fl equal_fold resolve now include)
  unfolding with_sources
  with_sources-IsFaithful now include = record {
    honest = λ e h. (source_step include "roadworks" _).honest _ (
        (source_step include "traffic" _).honest _ (
          (source_step include "accessibility" _).honest _
            ((source_step include "transit" _).honest e h)));
    degraded = λ e h. (source_step include "roadworks" _).degraded _ (
        (source_step include "traffic" _).degraded _ (
          (source_step include "accessibility" _).degraded _
            ((source_step include "transit" _).degraded e h)));
  }

  served-IsHonest :
      (now : Time) (sources : MobilitySources F) (input : MobilityStatusInput F)
      → IsHonest (served fl equal_fold resolve now sources input)
  unfolding served
  served-IsHonest now sources input = (with_sources-IsFaithful now input.include).honest _ (
      (roads_of-IsFaithful sources input).honest _ (
        (traffic_of-IsFaithful sources input).honest _ (
          (accessibility_of-IsFaithful sources input).honest _ (
            (transit_of-IsFaithful sources input).honest _
              (warn_unresolved-IsHonest resolve input.areas _ (new_envelope-IsHonest _ _ _ _))))))

  answered-IsHonest :
      (now : Time) (provider : Option (MobilitySources F)) (input : MobilityStatusInput F)
      → IsHonest (answered fl equal_fold resolve now provider input)
  unfolding answered
  answered-IsHonest now none input = warn-IsHonest _ _ _ _ _
  answered-IsHonest now (some sources) input = served-IsHonest now sources input

  refused-IsHonest :
      (now : Time) (provider : Option (MobilitySources F)) (input : MobilityStatusInput F)
      (unsupported : Option String)
      → IsHonest (refused fl equal_fold resolve now provider input unsupported)
  refused-IsHonest now provider input none = answered-IsHonest now provider input
  refused-IsHonest now provider input (some include) = new_envelope-IsHonest _ _ _ _

  -- On every branch, the envelope of a mobility request has no warning, or is degraded and not "ok".
  pub mobility_status-IsHonest :
      (now : Time) (provider : Option (MobilitySources F)) (input : MobilityStatusInput F)
      → IsHonest (mobility_status fl equal_fold resolve now provider input)
  unfolding mobility_status
  mobility_status-IsHonest now provider input = refused-IsHonest now provider _ _

  -- A branch that is included fails: the alerts, the incidents, the traffic of one of the labels that
  -- are asked for, or the road events, unless areas were asked for and none resolves.
  pub data IsFailing (sources : MobilitySources F) (input : MobilityStatusInput F) : Type 0 where
    transit :
        among input.include "transit" ≡ true
        → (sources.alerts input.lines).1 ≡ true
        → IsFailing sources input
    accessibility :
        among input.include "accessibility" ≡ true
        → (sources.incidents input.lines).1 ≡ true
        → IsFailing sources input
    traffic :
        among input.include "traffic" ≡ true
        → any (λ label. (sources.traffic label).1) (or_any (area_labels resolve input.areas)) ≡ true
        → IsFailing sources input
    roadworks :
        among input.include "roadworks" ≡ true
        → (not (is_nil input.areas) && is_nil (area_points resolve input.areas)) ≡ false
        → sources.road_events.1 ≡ true
        → IsFailing sources input

  roads_of-IsDegraded :
      (sources : MobilitySources F) (input : MobilityStatusInput F) (e : Report fl)
      → among input.include "roadworks" ≡ true
      → (not (is_nil input.areas) && is_nil (area_points resolve input.areas)) ≡ false
      → sources.road_events.1 ≡ true
      → IsDegraded (roads_of fl equal_fold resolve sources input e)
  unfolding roads_of
  roads_of-IsDegraded sources input e h b k =
      rw (h, b, k) (road_stage-IsDegraded fl equal_fold _ sources.road_events.0 e)

  traffic_of-IsDegraded :
      (sources : MobilitySources F) (input : MobilityStatusInput F) (e : Report fl)
      → among input.include "traffic" ≡ true
      → any (λ label. (sources.traffic label).1) (or_any (area_labels resolve input.areas)) ≡ true
      → IsDegraded (traffic_of fl equal_fold resolve sources input e)
  unfolding traffic_of
  traffic_of-IsDegraded sources input e h k =
      rw (h, gather_traffic-failed sources.traffic (or_any (area_labels resolve input.areas)) k)
        (traffic_stage-IsDegraded fl equal_fold _ _ e)

  accessibility_of-IsDegraded :
      (sources : MobilitySources F) (input : MobilityStatusInput F) (e : Report fl)
      → among input.include "accessibility" ≡ true
      → (sources.incidents input.lines).1 ≡ true
      → IsDegraded (accessibility_of fl equal_fold resolve sources input e)
  unfolding accessibility_of
  accessibility_of-IsDegraded sources input e h k =
      rw (h, k) (accessibility_stage-IsDegraded fl equal_fold _ e)

  transit_of-IsDegraded :
      (sources : MobilitySources F) (input : MobilityStatusInput F) (e : Report fl)
      → among input.include "transit" ≡ true
      → (sources.alerts input.lines).1 ≡ true
      → IsDegraded (transit_of fl equal_fold resolve sources input e)
  unfolding transit_of
  transit_of-IsDegraded sources input e h k =
      rw (h, k) (transit_stage-IsDegraded fl equal_fold input.lines _ e)

  served-IsDegraded :
      (now : Time) (sources : MobilitySources F) (input : MobilityStatusInput F)
      → IsFailing sources input
      → IsDegraded (served fl equal_fold resolve now sources input)
  unfolding served
  served-IsDegraded now sources input (roadworks h b k) =
      (with_sources-IsFaithful now input.include).degraded _
        (roads_of-IsDegraded sources input _ h b k)
  served-IsDegraded now sources input (traffic h k) =
      (with_sources-IsFaithful now input.include).degraded _
        ((roads_of-IsFaithful sources input).degraded _ (traffic_of-IsDegraded sources input _ h k))
  served-IsDegraded now sources input (accessibility h k) =
      (with_sources-IsFaithful now input.include).degraded _ (
        (roads_of-IsFaithful sources input).degraded _ (
          (traffic_of-IsFaithful sources input).degraded _
            (accessibility_of-IsDegraded sources input _ h k)))
  served-IsDegraded now sources input (transit h k) =
      (with_sources-IsFaithful now input.include).degraded _ (
        (roads_of-IsFaithful sources input).degraded _ (
          (traffic_of-IsFaithful sources input).degraded _ (
            (accessibility_of-IsFaithful sources input).degraded _
              (transit_of-IsDegraded sources input _ h k))))

  -- Where the request is for supported branches and one that is included fails (all of them where
  -- none is named): the alerts, the incidents, the traffic of one of the areas' labels, or the road
  -- events, unless areas were asked for and none resolves, which are then not asked for. Then the envelope has a warning, the degraded mark and a status other than "ok".
  pub mobility_status-failure_reported :
      (now : Time) (sources : MobilitySources F) (input : MobilityStatusInput F)
      → first_unsupported (or_all input.include) ≡ none
      → IsFailing sources (record input { include = or_all input.include })
      → IsDegraded (mobility_status fl equal_fold resolve now (some sources) input)
  unfolding mobility_status answered
  mobility_status-failure_reported now sources input h f =
      rw h (served-IsDegraded now sources (record input { include = or_all input.include }) f)
