-- ===== src/Service/Facilities/Nearby.antt =====
-- The facilities that internal/service/facilities.go's `NearbyFacilities` keeps of one category.
use mcp_grand_lyon.Base.{
  ℕ, ◌≤◌, ◌≡◌, true, false, Option, some, none, String, List, arith, refl, All, All-take,
  All-map_image, All-filter_with, All-filter_of_test, length, length-take, map, filter, eq_iff,
}
use mcp_grand_lyon.Base.Sort.{
  IsStrictWeak, IsSorted, sort_stable, All-sort_stable, sort_stable-IsSorted, IsSorted-take,
}
use mcp_grand_lyon.Model.Envelope.{Time}
use mcp_grand_lyon.Model.Float.{Float, Point}
use mcp_grand_lyon.Service.Facilities.{
  Facility, NearbyFacilitiesInput, category_items, is_candidate, in_category, reach, placed, nearer,
  is_open_at,
}

module _ (fl : Float) (minute_of : Time → ℕ) where
  open fl use {F, literal, lt}

  -- Of the category, within the radius, open at the time that was asked for, if one was, and with
  -- its distance from the point.
  pub record IsNearby (open_at : Option Time) (point : Point F) (radius : F) (c : String)
      (f : Facility F) : Type 0 where
    pub of_category : f.category ≡ c
    pub within : lt radius (reach fl minute_of point f) ≡ false
    pub open_then : is_open_at fl minute_of open_at f ≡ true
    pub measured : f.distance_m ≡ some (reach fl minute_of point f)

  -- What the filters and `placed` give, before the category is chosen.
  record IsKept (open_at : Option Time) (point : Point F) (radius : F) (f : Facility F)
      : Type 0 where
    within : lt radius (reach fl minute_of point f) ≡ false
    open_then : is_open_at fl minute_of open_at f ≡ true
    measured : f.distance_m ≡ some (reach fl minute_of point f)

  is_candidate-within :
      (cs : List String) (point : Point F) (radius : F) (f : Facility F)
      → is_candidate fl minute_of cs point radius f ≡ true
      → lt radius (reach fl minute_of point f) ≡ false
  unfolding is_candidate
  is_candidate-within cs point radius f h = ground arith

  -- What stays of a candidate that is open, placed.
  placed-IsKept :
      (open_at : Option Time) (point : Point F) (radius : F) (f : Facility F)
      → is_open_at fl minute_of open_at f ≡ true
      → lt radius (reach fl minute_of point f) ≡ false
      → IsKept open_at point radius (placed fl minute_of open_at point f)
  placed-IsKept none point radius f h k = record { within = k; open_then = h; measured = refl }
  placed-IsKept (some at) point radius f h k = record { within = k; open_then = h; measured = refl }

  in_category-IsNearby :
      (open_at : Option Time) (point : Point F) (radius : F) (c : String) (f : Facility F)
      → in_category fl minute_of c f ≡ true
      → IsKept open_at point radius f
      → IsNearby open_at point radius c f
  in_category-IsNearby open_at point radius c f h k = record {
    of_category = (eq_iff f.category c).0 h;
    within = k.within;
    open_then = k.open_then;
    measured = k.measured;
  }

  nearer-IsStrictWeak : IsStrictWeak lt → IsStrictWeak (nearer fl minute_of)
  nearer-IsStrictWeak o = record {
    asymm = λ a b. o.asymm _ _;
    le_trans = λ a b c. o.le_trans _ _ _;
  }

  -- Where the distances compare as numbers do, what is kept of a category is no more than the limit,
  -- the nearest first, each of that category, within the radius, open at the time that was asked for,
  -- if one was, and with its distance from the point.
  pub category_items-IsNearby :
      IsStrictWeak lt
      → (input : NearbyFacilitiesInput) (point : Point F) (radius : F) (limit : ℕ)
        (fs : List (Facility F)) (c : String)
      → let kept = category_items fl minute_of input point radius limit fs c in
        (length kept ≤ limit)
        × All (IsNearby input.open_at point radius c) kept
        × IsSorted (nearer fl minute_of) kept
  unfolding category_items
  category_items-IsNearby o input point radius limit fs c =
      let candidates = filter (is_candidate fl minute_of input.categories point radius) fs in
      let open_ones =
        map (placed fl minute_of input.open_at point)
          (filter (is_open_at fl minute_of input.open_at) candidates) in
      let found = filter (in_category fl minute_of c) open_ones in
      (
        omega (arith, length-take limit (sort_stable (nearer fl minute_of) found)),
        All-take _ limit _ (
            All-sort_stable (nearer fl minute_of) _ found (
              All-filter_with (IsKept input.open_at point radius) _ _
                (in_category-IsNearby input.open_at point radius c) open_ones
                (All-map_image _ (placed fl minute_of input.open_at point) _ (
                  All-filter_with (λ f. lt radius (reach fl minute_of point f) ≡ false) _ _
                    (placed-IsKept input.open_at point radius) candidates
                    (All-filter_of_test _ _ (is_candidate-within input.categories point radius)
                      fs))))),
        IsSorted-take (nearer fl minute_of) limit _
            (sort_stable-IsSorted (nearer fl minute_of) (nearer-IsStrictWeak o) found),
      )
