-- ===== src/Service/Parking/Normalize.antt =====
-- What internal/service/parking.go's `normalizeParkingOptions` returns.
use mathlib.Core.Path.{subst}
use mcp_grand_lyon.Base.{
  ℕ, zero, suc, String, ◌≡◌, ◌≢◌, ◌≤◌, ◌⊎◌, inl, inr, refl, true, false, not, Option, none, some,
  List, [], ◌∷◌, arith, map, filter, take, any, length, All, Bool-cases, eq_iff, ap, sym,
  All-filter_of_test, All-take, All-map, All-of_not_any, All-map_image, length-map, length-take,
}
use mcp_grand_lyon.Base.Int.{ℤ, pos, negsuc, or_default, ◌≤ℤ◌}
use mcp_grand_lyon.Model.Float.{Float, Point}
use mcp_grand_lyon.Model.Records.{ParkingOption}
use mcp_grand_lyon.Service.Parking.{
  Availability, complete, missing, partial, allows, reach, keeps, adjust, collect, has_spaces,
  availability_of, normalize_parking_options,
}

module _ (fl : Float) where
  open fl use {F, lt}

  module _ (point : Point F) (types : List String) (radius : F) (minimum : ℤ) where
    -- The plain reading of the loop: the first options that are kept, adjusted.
    abbrev pub selected : ℕ → List (ParkingOption F) → List (ParkingOption F)
    selected n options =
        map (adjust fl point) (take n (filter (keeps fl point types radius minimum) options))

    collect-eq-selected :
        (room : ℕ) (options : List (ParkingOption F))
        → collect fl point types radius minimum room options ≡ selected (suc room) options
    unfolding collect
    collect-eq-selected room [] = refl
    collect-eq-selected zero (o ∷ os) = elim (Bool-cases (keeps fl point types radius minimum o)) [
      | inl e ↦ rw e
      | inr e ↦ rw e (collect-eq-selected zero os)
    ]
    collect-eq-selected (suc room) (o ∷ os) =
        elim (Bool-cases (keeps fl point types radius minimum o)) [
          | inl e ↦ rw e (ap (λ r. adjust fl point o ∷ r) (collect-eq-selected room os))
          | inr e ↦ rw e (collect-eq-selected (suc room) os)
        ]

    normalize_parking_options-eq :
        (options : List (ParkingOption F)) (limit : ℤ)
        → normalize_parking_options fl point options types radius minimum limit ≡ (
          selected (or_default limit 10) options,
          availability_of fl (selected (or_default limit 10) options),
        )
    unfolding normalize_parking_options
    normalize_parking_options-eq options (pos zero) =
        ap (λ r. (r, availability_of fl r)) (collect-eq-selected 9 options)
    normalize_parking_options-eq options (pos (suc n)) =
        ap (λ r. (r, availability_of fl r)) (collect-eq-selected n options)
    normalize_parking_options-eq options (negsuc n) =
        ap (λ r. (r, availability_of fl r)) (collect-eq-selected 9 options)

    -- The normalized options are the first ones, up to the limit (10 where none is given), that are
    -- within the radius, of a requested type and not known to have too few spaces, each adjusted.
    pub normalize_parking_options-eq-selected :
        (options : List (ParkingOption F)) (limit : ℤ)
        → (normalize_parking_options fl point options types radius minimum limit).0
          ≡ selected (or_default limit 10) options
    normalize_parking_options-eq-selected options limit =
        ap (λ r. r.0) (normalize_parking_options-eq options limit)

    length-selected : (n : ℕ) (options : List (ParkingOption F)) → length (selected n options) ≤ n
    length-selected n options = omega (
      arith,
      length-map (take n (filter (keeps fl point types radius minimum) options)) (adjust fl point),
      length-take n (filter (keeps fl point types radius minimum) options),
    )

    abbrev Spaced : Option ℤ → ParkingOption F → Type 0
    Spaced none o =
        (o.realtime ≡ false)
        × (o.availability_ratio ≡ none)
        × ((o.status ≡ "closed") ⊎ (o.status ≡ "unknown"))
    Spaced (some n) o = (minimum ≤ℤ n) × ((n ≢ pos 0) ⊎ (o.status ≡ "closed") ⊎ (o.status ≡ "full"))

    -- What an answer says of an option.
    pub record IsOffered (o : ParkingOption F) : Type 0 where
      pub measured : o.distance_m ≡ some (reach fl point o)
      pub near : lt radius (reach fl point o) ≡ false
      pub requested : allows types o.type ≡ true
      pub spaced : Spaced o.available_spaces o

    adjust-IsOffered :
        (o : ParkingOption F)
        → keeps fl point types radius minimum o ≡ true
        → IsOffered (adjust fl point o)
    unfolding keeps adjust
    adjust-IsOffered o h = ground (arith, eq_iff o.status "closed")

    filter-IsOffered :
        (options : List (ParkingOption F))
        → All
            (λ o. IsOffered (adjust fl point o))
            (filter (keeps fl point types radius minimum) options)
    filter-IsOffered options = All-filter_of_test _ _ adjust-IsOffered options

    selected-IsOffered :
        (n : ℕ) (options : List (ParkingOption F)) → All IsOffered (selected n options)
    selected-IsOffered n options =
        All-map_image IsOffered (adjust fl point) _ (All-take _ n _ (filter-IsOffered options))

    -- What the availability says of the options.
    abbrev pub Fits : Availability → List (ParkingOption F) → Type 0
    Fits complete r = All (λ o. has_spaces fl o ≡ true) r
    Fits partial r = (any (has_spaces fl) r ≡ true) × (any (λ o. not (has_spaces fl o)) r ≡ true)
    Fits missing r = (r ≢ []) × All (λ o. has_spaces fl o ≡ false) r

    availability_of-Fits : (r : List (ParkingOption F)) → Fits (availability_of fl r) r
    unfolding availability_of
    availability_of-Fits [] = tt
    availability_of-Fits (o ∷ os) = elim (Bool-cases (any (λ q. not (has_spaces fl q)) (o ∷ os))) [
      | inr e ↦ rw e (
          All-map (λ q. not (has_spaces fl q) ≡ false) (λ q. has_spaces fl q ≡ true)
            (λ q h. ground arith) (o ∷ os) (All-of_not_any _ (o ∷ os) e))
      | inl e ↦ elim (Bool-cases (any (has_spaces fl) (o ∷ os))) [
        | inl f ↦ rw (e, f) (f, e)
        | inr f ↦ rw (e, f) ((λ h. cc), All-of_not_any _ (o ∷ os) f)
      ]
    ]

    -- The answer has at most the limit of options (10 where none is given). Each has its distance
    -- and lies within the radius, is of a requested type, and has enough spaces or says that their
    -- number is unknown: then it is not realtime, has no ratio, and is closed or of unknown status;
    -- with no space left it is full or closed. The availability is complete where every option has a
    -- number of spaces, missing where there are options and none has one, and else partial.
    pub normalize_parking_options-IsOffered :
        (options : List (ParkingOption F)) (limit : ℤ)
        → let (r, a) = normalize_parking_options fl point options types radius minimum limit in
          (length r ≤ or_default limit 10) × All IsOffered r × Fits a r
    normalize_parking_options-IsOffered options limit =
        subst
          (λ (r : List (ParkingOption F) × Availability).
            (length r.0 ≤ or_default limit 10) × All IsOffered r.0 × Fits r.1 r.0)
          (sym (normalize_parking_options-eq options limit))
          (
            length-selected (or_default limit 10) options,
            selected-IsOffered (or_default limit 10) options,
            availability_of-Fits (selected (or_default limit 10) options),
          )
