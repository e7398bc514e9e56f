-- ===== src/Service/Accessibility/Tests.antt =====
-- The instances of the theorems on accessibility at concrete inputs.
use mcp_grand_lyon.Base.{ℕ, ◌≡◌, ◌≢◌, refl, false, none, some, [], ◌∷◌, arith}
use mcp_grand_lyon.Base.Text.{codes, same, fields, is_space, join_words}
use mcp_grand_lyon.Model.Line.{contains}
use mcp_grand_lyon.Model.Names.{Unicode, normalize}
use mcp_grand_lyon.Model.PlaceRef.{PlaceRef}
use mcp_grand_lyon.Service.Places.{PlaceCandidate}
use mcp_grand_lyon.Service.Mobility.{AccessibilityIncident}
use mcp_grand_lyon.Service.Accessibility.{
  AccessProvider, accessible, inaccessible, claims, matching_incidents,
}
use mcp_grand_lyon.Service.Accessibility.Check.{
  AccessNetwork, AccessibilityCheckInput, accessibility_check, check_refs,
}
use mcp_grand_lyon.Service.Accessibility.Check.Answer.{
  accessibility_check-IsCautious, check_refs-inaccessible,
}

abbrev ascii : Unicode
ascii = record { nfd = λ s. s; is_mark = λ c. false; to_lower = λ c. c; equal_fold = same }

abbrev bellecour : PlaceCandidate ℕ
bellecour = record {
  id = codes "gtfs:1";
  name = codes "Bellecour";
  label = codes "Bellecour";
  kind = codes "transport_stop";
  latitude = 45;
  longitude = 4;
  distance_m = none;
  confidence = 1;
}

abbrev lift : AccessibilityIncident
lift = record {
  id = "i1";
  location = "Bellecour";
  status = "open";
  description = "Lift out of order";
  start_at = none;
  end_at = none;
}

abbrev provider : AccessProvider
provider = record { incidents = (lift ∷ [], false); check_stop = λ id. some (claims accessible) }

abbrev network : AccessNetwork ℕ
network = record {
  resolve = λ r. bellecour ∷ [];
  provider = some provider;
  boarding = some (λ id. some (some 1));
}

abbrev ref : PlaceRef ℕ
ref = record {
  place_id = [];
  query = codes "Bellecour";
  latitude = none;
  longitude = none;
  profile_place = [];
}

abbrev input : AccessibilityCheckInput ℕ
input = record { needs = none; stops = ref ∷ []; origin = none; destination = none }

accessibility_check-IsCautious_example :
    (accessibility_check ascii (λ s. s) network 9 input).payload.overall_status ≢ accessible
accessibility_check-IsCautious_example =
    accessibility_check-IsCautious ascii (λ s. s) network 9 input

lift_matches : matching_incidents ascii (λ s. s) (lift ∷ []) bellecour ≢ []
unfolding matching_incidents normalize fields is_space join_words contains
lift_matches h = ground arith

check_refs-inaccessible_example :
    (check_refs ascii
      (λ s. s)
      network
      9
      ("wheelchair" ∷ [])
      (ref ∷ ref ∷ [])).payload.overall_status
    ≡ inaccessible
check_refs-inaccessible_example =
    check_refs-inaccessible ascii (λ s. s) network 9 ("wheelchair" ∷ []) (ref ∷ []) [] ref bellecour
      [] provider (lift ∷ []) refl refl refl lift_matches
