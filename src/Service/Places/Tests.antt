-- ===== src/Service/Places/Tests.antt =====
-- The instances of the theorems on places at concrete inputs.
use mcp_grand_lyon.Base.{
  ℕ, ◌≡◌, if◌then◌else◌, ◌≢◌, refl, arith, true, false, none, some, [], ◌∷◌, inl,
}
use mcp_grand_lyon.Base.Sort.{sort_stable}
use mcp_grand_lyon.Base.Unique.{unique_by}
use mcp_grand_lyon.Base.Int.{pos}
use mcp_grand_lyon.Base.Text.{codes, same, trim_space, is_space}
use mcp_grand_lyon.Model.Names.{Unicode}
use mcp_grand_lyon.Model.PlaceRef.{PlaceRef, validate}
use mcp_grand_lyon.Service.Samples.{whole, everywhere}
use mcp_grand_lyon.Service.Places.{
  PlaceCandidate, PlaceSources, near_point, search_places, resolve_place, all_candidates,
  local_candidates, unique_candidates,
}
use mcp_grand_lyon.Service.Places.Search.{IsAnswer, search_places-IsAnswer}
use mcp_grand_lyon.Service.Places.Answer.{IsReported, resolve_place-IsReported}
use mcp_grand_lyon.Service.Places.Resolve.{
  PlaceStore, resolve_ref, resolved, failed, place_not_found,
}
use mcp_grand_lyon.Service.Places.Resolve.Outcome.{Fits, resolve_ref-Fits, blank_query_hides_place}

abbrev ascii : Unicode
ascii = record { nfd = λ s. s; is_mark = λ c. false; to_lower = λ c. c; equal_fold = same }

abbrev station : PlaceCandidate ℕ
station = record {
  id = codes "gtfs:1";
  name = codes "Bellecour";
  label = codes "Place Bellecour";
  kind = codes "transport_stop";
  latitude = 45;
  longitude = 4;
  distance_m = none;
  confidence = 1;
}

-- The index of stops knows one stop, and the other one fails; it has nothing for a blank text.
abbrev only_stops : PlaceSources ℕ
only_stops = record {
  entities = λ query limit. none;
  stops =
      λ query limit. if same (trim_space query) [] then some [] else some (station ∷ station ∷ []);
  provider = none;
  save = λ c. true;
}

abbrev store : PlaceStore ℕ
store = record {
  get_entity = λ id. some (some station);
  get_stop = λ id. some none;
  get_place = λ key. some none;
  print_point = λ lat lon. [];
}

search_places-IsAnswer_example :
    IsAnswer whole ascii
      (codes "bellecour")
      []
      3
      (search_places whole ascii only_stops (codes "bellecour") none [] 3).0
search_places-IsAnswer_example =
    search_places-IsAnswer whole ascii only_stops (codes "bellecour") none [] 3

not_blank : trim_space (codes "bellecour") ≢ []
unfolding trim_space is_space
not_blank h = ground arith

resolve_place-IsReported_example :
    IsReported
      (resolve_place whole ascii 9 only_stops (codes "bellecour") (near_point none) [] (pos 3))
resolve_place-IsReported_example =
    resolve_place-IsReported whole ascii 9 only_stops (codes "bellecour") (near_point none) []
      (pos 3) not_blank (inl (λ q n. refl))

abbrev by_id : PlaceRef ℕ
by_id = record {
  place_id = codes "gtfs:1";
  query = codes " ";
  latitude = none;
  longitude = none;
  profile_place = [];
}

resolve_ref-Fits_example :
    Fits whole ascii everywhere only_stops store 2
      (resolve_ref whole ascii everywhere only_stops store by_id (pos 2))
resolve_ref-Fits_example = resolve_ref-Fits whole ascii everywhere only_stops store by_id (pos 2)

by_id-valid : validate everywhere by_id ≡ none
unfolding validate trim_space is_space
by_id-valid = refl

nothing_for_blank : (search_places whole ascii only_stops (codes " ") none [] 5).0 ≡ []
unfolding search_places all_candidates local_candidates unique_candidates trim_space is_space same
    sort_stable unique_by
nothing_for_blank = refl

blank : trim_space (codes " ") ≡ []
unfolding trim_space is_space
blank = refl

blank_query_hides_place_example :
    (resolve_ref whole ascii everywhere only_stops store (record by_id { query = [] }) (pos 5)
      ≡ resolved (station ∷ []))
    × (resolve_ref whole ascii everywhere only_stops store by_id (pos 5) ≡ failed place_not_found)
blank_query_hides_place_example =
    blank_query_hides_place whole ascii everywhere only_stops store by_id (pos 5) station
      by_id-valid (λ h. cc) blank (λ h. cc) refl nothing_for_blank
