-- ===== src/Service/Places/Resolve/Outcome.antt =====
-- What internal/service/place.go's `ResolveRef` gives.
use mcp_grand_lyon.Base.{
  inl, inr, ◌⊎◌, refl, is_nil, ℕ, ◌≤◌, Bool, true, false, Option, none, some, List, [], ◌∷◌,
  if◌then◌else◌, ◌≡◌, not, ◌≢◌, inl, inr, refl, arith, length, Option-cases,
}
use mcp_grand_lyon.Base.Int.{ℤ, or_default}
use mcp_grand_lyon.Base.Text.{Text, trim_space}
use mcp_grand_lyon.Model.Float.{Float}
use mcp_grand_lyon.Model.Names.{Unicode}
use mcp_grand_lyon.Model.PlaceRef.Laws.{validate-eq-none_iff, HasPoint, NoPoint, NoText, OneText}
use mcp_grand_lyon.Model.PlaceRef.{PlaceRef, PlaceError, Coordinates, validate}
use mcp_grand_lyon.Service.Places.{PlaceCandidate, PlaceSources, search_places}
use mcp_grand_lyon.Service.Places.Answer.{is_nil-eq-false}
use mcp_grand_lyon.Service.Places.Search.{search_places-IsAnswer}
use mcp_grand_lyon.Service.Places.Resolve.{
  ResolveError, or_stop, place_not_found, Resolved, resolved, failed, ProfilePlace, PlaceStore,
  checked, some_found, one_found, resolve_query, resolve_id, resolve_address, resolve_profile,
  resolve_coordinates, resolve_modes, resolve_ref,
}

module _ (fl : Float) (unicode : Unicode) (coords : Coordinates fl.F) (sources : PlaceSources fl.F)
    (store : PlaceStore fl.F) where
  open fl use {F}

  -- An error, or at least one candidate and no more than the limit.
  pub Fits : ℕ → Resolved (List (PlaceCandidate F)) → Type 0
  Fits limit (failed e) = Unit
  Fits limit (resolved cs) = (1 ≤ length cs) × (length cs ≤ limit)

  failed-Fits : (limit : ℕ) (e : ResolveError) → Fits limit (failed e)
  unfolding Fits
  failed-Fits limit e = tt

  some_found-Fits :
      (limit : ℕ) (cs : List (PlaceCandidate F))
      → length cs ≤ limit
      → Fits limit (some_found fl unicode coords sources store cs)
  unfolding Fits
  some_found-Fits limit [] h = tt
  some_found-Fits limit (c ∷ cs) h = (omega arith, h)

  one_found-Fits :
      (limit : ℕ) (o : Option (Option (PlaceCandidate F)))
      → 1 ≤ limit
      → Fits limit (one_found fl unicode coords sources store o)
  unfolding Fits
  one_found-Fits limit none h = tt
  one_found-Fits limit (some none) h = tt
  one_found-Fits limit (some (some c)) h = (omega arith, omega arith)

  checked-Fits :
      (limit : ℕ) (o : Option PlaceError) (r : Resolved (List (PlaceCandidate F)))
      → Fits limit r
      → Fits limit (checked fl unicode coords sources store o r)
  unfolding Fits
  checked-Fits limit none r h = h
  checked-Fits limit (some e) r h = tt

  if-Fits :
      (limit : ℕ) (b : Bool) (r s : Resolved (List (PlaceCandidate F)))
      → Fits limit r
      → Fits limit s
      → Fits limit (if b then r else s)
  if-Fits limit true r s h k = h
  if-Fits limit false r s h k = k

  resolve_query-Fits :
      (query : Text) (limit : ℕ)
      → Fits limit (resolve_query fl unicode coords sources store query limit)
  unfolding resolve_query
  resolve_query-Fits query limit =
      some_found-Fits limit _
        ((search_places-IsAnswer fl unicode sources query none [] limit).limited)

  resolve_address-Fits :
      (address : Option Text) (limit : ℕ)
      → Fits limit (resolve_address fl unicode coords sources store address limit)
  unfolding resolve_address
  resolve_address-Fits none limit = failed-Fits limit place_not_found
  resolve_address-Fits (some address) limit =
      if-Fits limit _ _ _ (failed-Fits limit place_not_found)
        (checked-Fits limit _ _ (resolve_query-Fits address limit))

  resolve_profile-Fits :
      (key : Text) (limit : ℕ) (o : Option (Option (ProfilePlace F)))
      → 1 ≤ limit
      → Fits limit (resolve_profile fl unicode coords sources store key limit o)
  unfolding resolve_profile Fits
  resolve_profile-Fits key limit none h = tt
  resolve_profile-Fits key limit (some none) h = tt
  resolve_profile-Fits key limit (some (some place)) h = elim (Option-cases place.latitude) [
    | inl e ↦ rw e (resolve_address-Fits place.address limit)
    | inr (lat, e) ↦ elim (Option-cases place.longitude) [
      | inl k ↦ rw (e, k) (resolve_address-Fits place.address limit)
      | inr (lon, k) ↦ rw (e, k) (omega arith, omega arith)
    ]
  ]

  resolve_coordinates-Fits :
      (lat lon : Option F) (limit : ℕ)
      → 1 ≤ limit
      → Fits limit (resolve_coordinates fl unicode coords sources store lat lon)
  unfolding resolve_coordinates Fits
  resolve_coordinates-Fits (some lat) (some lon) limit h = (omega arith, omega arith)
  resolve_coordinates-Fits (some lat) none limit h = tt
  resolve_coordinates-Fits none lon limit h = tt

  or_default-positive : (limit : ℤ) → 1 ≤ or_default limit 5
  or_default-positive limit = ground arith

  resolve_modes-Fits :
      (ref : PlaceRef F) (n : ℕ)
      → 1 ≤ n
      → Fits n (resolve_modes fl unicode coords sources store ref n)
  unfolding resolve_modes resolve_id
  resolve_modes-Fits ref n h =
      if-Fits n (not (is_nil ref.query)) _ _ (resolve_query-Fits ref.query n) (
        if-Fits n (not (is_nil ref.place_id)) _ _
          (one_found-Fits n
            (or_stop fl unicode coords sources store ref.place_id (store.get_entity ref.place_id))
            h)
          (if-Fits n (not (is_nil ref.profile_place)) _ _
            (resolve_profile-Fits ref.profile_place n (store.get_place ref.profile_place) h)
            (resolve_coordinates-Fits ref.latitude ref.longitude n h)))

  -- A reference resolves to an error, or to at least one candidate and at most as many as the limit
  -- (five where it is not positive), whatever its mode and whatever the store and the search give.
  pub resolve_ref-Fits :
      (ref : PlaceRef F) (limit : ℤ)
      → Fits (or_default limit 5) (resolve_ref fl unicode coords sources store ref limit)
  unfolding resolve_ref
  resolve_ref-Fits ref limit =
      checked-Fits (or_default limit 5) _ _
        (resolve_modes-Fits ref (or_default limit 5) (or_default-positive limit))

  resolve_blank-eq-failed :
      (ref : PlaceRef F) (n : ℕ)
      → ref.query ≢ []
      → (search_places fl unicode sources ref.query none [] n).0 ≡ []
      → resolve_modes fl unicode coords sources store ref n ≡ failed place_not_found
  unfolding resolve_modes resolve_query
  resolve_blank-eq-failed ref n q s = rw (is_nil-eq-false ref.query q, s) refl

  -- A reference whose query is blank is as valid with the empty query.
  without_query-valid :
      (ref : PlaceRef F)
      → validate coords ref ≡ none
      → trim_space ref.query ≡ []
      → validate coords (record ref { query = [] }) ≡ none
  unfolding trim_space
  without_query-valid ref v blank =
      let accepted = (validate-eq-none_iff coords ref).0 v in
      let short = accepted.1 in
      let modes : (HasPoint coords ref × NoText coords (record ref { query = [] }))
          ⊎ (NoPoint coords ref × OneText coords (record ref { query = [] })) =
        elim accepted.0 [
          | inl (p, (a, b, c)) ↦ inl (p, (a, refl, c))
          | inr (p, inl (a, b, c)) ↦ inr (p, inl (a, refl, c))
          | inr (p, inr (inl (a, b, c))) ↦ elim (b blank) [ ]
          | inr (p, inr (inr (a, b, c))) ↦ inr (p, inr (inr (a, refl, c)))
        ] in
      (validate-eq-none_iff coords (record ref { query = [] })).1 (
        modes,
        record {
          place_id = short.place_id;
          query = omega arith;
          profile_place = short.profile_place;
        },
      )

  resolve_id-eq-found :
      (ref : PlaceRef F) (n : ℕ) (c : PlaceCandidate F)
      → ref.place_id ≢ []
      → store.get_entity ref.place_id ≡ some (some c)
      → resolve_modes fl unicode coords sources store (record ref { query = [] }) n
        ≡ resolved (c ∷ [])
  unfolding resolve_modes resolve_id
  resolve_id-eq-found ref n c i e = rw (is_nil-eq-false ref.place_id i, e) refl

  -- Of two references that differ in the query alone, which is empty in one and blank in the other,
  -- and that are valid by an identifier that the store knows, the one with the empty query resolves
  -- to the store's place, and the one with the blank query is not found, where the search finds nothing
  -- for the blank text.
  pub blank_query_hides_place :
      (ref : PlaceRef F) (limit : ℤ) (c : PlaceCandidate F)
      → validate coords ref ≡ none
      → ref.query ≢ []
      → trim_space ref.query ≡ []
      → ref.place_id ≢ []
      → store.get_entity ref.place_id ≡ some (some c)
      → (search_places fl unicode sources ref.query none [] (or_default limit 5)).0 ≡ []
      → (resolve_ref fl unicode coords sources store (record ref { query = [] }) limit
          ≡ resolved (c ∷ []))
        × (resolve_ref fl unicode coords sources store ref limit ≡ failed place_not_found)
  unfolding resolve_ref
  blank_query_hides_place ref limit c v q blank i e s = (
    rw (without_query-valid ref v blank) (resolve_id-eq-found ref (or_default limit 5) c i e),
    rw v (resolve_blank-eq-failed ref (or_default limit 5) q s),
  )
