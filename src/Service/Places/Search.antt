-- ===== src/Service/Places/Search.antt =====
-- The candidates that internal/service/place.go's `searchPlaces` returns.
use mcp_grand_lyon.Base.{
  ℕ, ◌≤◌, ◌≡◌, ◌≢◌, true, false, Option, List, All, All-map_image, All-take, All-filter_of_test,
  arith, length, length-take, Pairwise, Pairwise-map, Pairwise-take,
}
use mcp_grand_lyon.Base.Sort.{sort_stable, All-sort_stable, Pairwise-sort_stable, Leads-sort_stable}
use mcp_grand_lyon.Base.Text.{Text, same, same-eq_iff}
use mcp_grand_lyon.Base.Unique.{unique_by-distinct_complete, All-unique_by}
use mcp_grand_lyon.Model.Float.{Float, Point}
use mcp_grand_lyon.Model.Names.{Unicode}
use mcp_grand_lyon.Service.Places.{
  PlaceCandidate, PlaceSources, is_requested, rated, unique_candidates, is_exact, place_before,
  search_places, all_candidates,
}

module _ (fl : Float) (unicode : Unicode) where
  open fl use {F}

  -- What a search promises: no more candidates than asked for, none of them twice, each of a type
  -- asked for, and those whose name is the query before the others.
  pub record IsAnswer (query : Text) (types : List Text) (limit : ℕ) (cs : List (PlaceCandidate F))
      : Type 0 where
    pub limited : length cs ≤ limit
    pub distinct : Pairwise (λ c d. c.id ≢ d.id) cs
    pub requested : All (λ c. is_requested fl unicode types c ≡ true) cs
    pub exact_first :
        Pairwise (λ c d. is_exact fl unicode query d ≡ true → is_exact fl unicode query c ≡ true) cs

  unique_candidates-distinct :
      (query : Text) (near : Option (Point F)) (types : List Text) (cs : List (PlaceCandidate F))
      → Pairwise (λ c d. c.id ≢ d.id) (unique_candidates fl unicode query near types cs)
  unfolding unique_candidates rated
  unique_candidates-distinct query near types cs =
      Pairwise-map _ (rated fl unicode query near) _
        (unique_by-distinct_complete same (λ c. c.id) same-eq_iff _).0

  unique_candidates-requested :
      (query : Text) (near : Option (Point F)) (types : List Text) (cs : List (PlaceCandidate F))
      → All
          (λ c. is_requested fl unicode types c ≡ true)
          (unique_candidates fl unicode query near types cs)
  unfolding unique_candidates rated is_requested
  unique_candidates-requested query near types cs =
      All-map_image _ (rated fl unicode query near) _ (
        All-unique_by same (λ c. c.id) _ _
          (All-filter_of_test _ (is_requested fl unicode types) (λ c h. h) cs))

  exact_up :
      (query : Text) (near : Option (Point F)) (a b : PlaceCandidate F)
      → place_before fl unicode query near b a ≡ true
      → is_exact fl unicode query a ≡ true
      → is_exact fl unicode query b ≡ true
  unfolding place_before
  exact_up query near a b h e = ground arith

  exact_down :
      (query : Text) (near : Option (Point F)) (a b : PlaceCandidate F)
      → place_before fl unicode query near b a ≡ false
      → is_exact fl unicode query b ≡ true
      → is_exact fl unicode query a ≡ true
  unfolding place_before
  exact_down query near a b h e = ground arith

  -- Whatever the indexes and the provider answer, a search returns no more candidates than its limit,
  -- no two with the same identifier, each of a type that was asked for (of any, where none was), and
  -- those whose normalized name is the query's before all others.
  pub search_places-IsAnswer :
      (s : PlaceSources F) (query : Text) (near : Option (Point F)) (types : List Text) (limit : ℕ)
      → IsAnswer query types limit (search_places fl unicode s query near types limit).0
  unfolding search_places
  search_places-IsAnswer s query near types limit =
      let less = place_before fl unicode query near in
      let all = (all_candidates fl unicode s query near types limit).0 in
      let cs = unique_candidates fl unicode query near types all in
      record {
        limited = omega (arith, length-take limit (sort_stable less cs));
        distinct = Pairwise-take _ limit _ (
            Pairwise-sort_stable less _ (λ x y h. ground arith) cs
              (unique_candidates-distinct query near types all));
        requested =
            All-take _ limit _
              (All-sort_stable less _ cs (unique_candidates-requested query near types all));
        exact_first = Pairwise-take _ limit _ (
            Leads-sort_stable less (is_exact fl unicode query) (exact_up query near)
              (exact_down query near) cs);
      }
