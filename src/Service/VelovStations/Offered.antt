-- ===== src/Service/VelovStations/Offered.antt =====
-- The stations that internal/service/velov.go's `VelovStations` keeps.
use mcp_grand_lyon.Base.{
  ℕ, ◌≤◌, ◌≡◌, ◌≢◌, true, false, some, List, arith, refl, All, All-take, All-map_image,
  All-filter_of_test, length, length-take, map, filter, eq_iff,
}
use mcp_grand_lyon.Base.Int.{ℤ, ◌≤ℤ◌, ltb_ℤ-eq-false_iff}
use mcp_grand_lyon.Base.Sort.{
  IsStrictWeak, IsSorted, sort_stable, All-sort_stable, sort_stable-IsSorted, IsSorted-take,
}
use mcp_grand_lyon.Model.Float.{Float, Point}
use mcp_grand_lyon.Model.Records.{VelovStation}
use mcp_grand_lyon.Service.VelovStations.{is_near, placed, reach, closer, near_stations}

module _ (fl : Float) where
  open fl use {F, literal, lt}

  -- Within the radius, with enough bikes, not closed, and with its distance from the point.
  pub record IsOffered (point : Point F) (radius : F) (minimum : ℤ) (s : VelovStation F)
      : Type 0 where
    pub within : lt radius (reach fl point s) ≡ false
    pub stocked : minimum ≤ℤ s.bikes_available
    pub not_closed : s.status ≢ "closed"
    pub measured : s.distance_m ≡ some (reach fl point s)

  is_near-IsOffered :
      (point : Point F) (radius : F) (minimum : ℤ) (s : VelovStation F)
      → is_near fl point radius minimum s ≡ true
      → IsOffered point radius minimum (placed fl point s)
  unfolding is_near
  is_near-IsOffered point radius minimum s h = record {
    within = ground arith;
    stocked = (ltb_ℤ-eq-false_iff s.bikes_available minimum).0 (ground arith);
    not_closed = λ e. ground (arith, eq_iff s.status "closed");
    measured = refl;
  }

  closer-IsStrictWeak : IsStrictWeak lt → IsStrictWeak (closer fl)
  closer-IsStrictWeak o = record {
    asymm = λ a b. o.asymm _ _;
    le_trans = λ a b c. o.le_trans _ _ _;
  }

  -- Where the distances compare as numbers do, what is kept of the provider's stations is no more than
  -- the limit, the nearest first, each within the radius, with at least the minimum of bikes, not
  -- closed, and with its distance from the point.
  pub near_stations-IsOffered :
      IsStrictWeak lt
      → (point : Point F) (radius : F) (minimum : ℤ) (limit : ℕ) (ss : List (VelovStation F))
      → let kept = near_stations fl point radius minimum limit ss in
        (length kept ≤ limit)
        × All (IsOffered point radius minimum) kept
        × IsSorted (closer fl) kept
  unfolding near_stations
  near_stations-IsOffered o point radius minimum limit ss =
      let found = map (placed fl point) (filter (is_near fl point radius minimum) ss) in
      (
        omega (arith, length-take limit (sort_stable (closer fl) found)),
        All-take _ limit _ (
            All-sort_stable (closer fl) _ found (
              All-map_image _ (placed fl point) _ (
                All-filter_of_test _ (is_near fl point radius minimum)
                  (is_near-IsOffered point radius minimum) ss))),
        IsSorted-take (closer fl) limit _
            (sort_stable-IsSorted (closer fl) (closer-IsStrictWeak o) found),
      )
