-- ===== src/Service/Mobility/Tests.antt =====
-- The instances of the theorems on the mobility status at concrete inputs.
use mcp_grand_lyon.Base.{
  any, ◌⊎◌, String, ℕ, ◌≡◌, ◌≢◌, refl, true, false, Option, none, some, List, [], ◌∷◌, All,
  Pairwise, ◌=ₛ◌,
}
use mcp_grand_lyon.Base.Text.{codes, same, trim_space, is_space}
use mcp_grand_lyon.Base.Unique.{unique_by, HasKey}
use mcp_grand_lyon.Model.Envelope.{IsDegraded, new_envelope}
use mcp_grand_lyon.Model.Float.{Point}
use mcp_grand_lyon.Model.PlaceRef.{PlaceRef}
use mcp_grand_lyon.Service.Samples.{whole}
use mcp_grand_lyon.Service.Mobility.{
  RoadEvent, MobilitySources, MobilityStatusInput, road_stage, Report, first_unsupported,
  area_labels, all_labels,
}
use mcp_grand_lyon.Service.Mobility.Roads.{IsWithin, road_stage-IsWithin}
use mcp_grand_lyon.Service.Mobility.Status.{mobility_status, or_all, or_any}
use mcp_grand_lyon.Service.Mobility.Status.Failures.{traffic, mobility_status-failure_reported}

abbrev here : Point ℕ
here = record { latitude = 45; longitude = 4 }

abbrev works : RoadEvent ℕ
works = record {
  id = "w1";
  type = "roadworks";
  title = "Cours Lafayette";
  description = "";
  latitude = some 45;
  longitude = some 4;
  start_at = none;
  end_at = none;
}

abbrev events : List (RoadEvent ℕ)
events = works ∷ record works { id = "w2"; latitude = none } ∷ works ∷ []

abbrev empty_report : Report whole
empty_report = new_envelope 9 "ok" "Mobility status: 0 alert(s)." (record {
  alerts = [];
  line_statuses = [];
  accessibility_incidents = [];
  road_events = [];
  traffic_conditions = [];
})

road_stage-IsWithin_example :
    let after = road_stage whole false (here ∷ []) (events, false) empty_report in
    All (IsWithin whole (here ∷ []) (whole.literal "1500")) after.payload.road_events
    × Pairwise (λ k l. k.id ≢ l.id) after.payload.road_events
    × (All (λ v. HasKey (λ k. k.id) v after.payload.road_events) events ⊎ IsDegraded after)
road_stage-IsWithin_example = road_stage-IsWithin whole here [] events false empty_report

-- The traffic of one of the two areas fails, and the rest answers.
abbrev sources : MobilitySources ℕ
sources = record {
  alerts = λ lines. ([], false);
  incidents = λ lines. ([], false);
  traffic = λ label. ([], same label (codes "Lyon 3"));
  road_events = (events, false);
}

abbrev area : String → PlaceRef ℕ
area query = record {
  place_id = [];
  query = codes query;
  latitude = none;
  longitude = none;
  profile_place = [];
}

abbrev everything : MobilityStatusInput ℕ
everything = record { include = []; lines = "D" ∷ []; areas = area "Lyon 3" ∷ area "Lyon 7" ∷ [] }

abbrev located : PlaceRef ℕ → Option (Point ℕ)
located r = some here

one_fails :
    any (λ label. (sources.traffic label).1) (or_any (area_labels located everything.areas)) ≡ true
unfolding area_labels all_labels unique_by trim_space is_space same
one_fails = refl

all_supported : first_unsupported (or_all everything.include) ≡ none
unfolding first_unsupported
all_supported = refl

mobility_status-failure_reported_example :
    IsDegraded (mobility_status whole ◌=ₛ◌ located 9 (some sources) everything)
mobility_status-failure_reported_example =
    mobility_status-failure_reported whole ◌=ₛ◌ located 9 sources everything all_supported
      (traffic refl one_fails)
