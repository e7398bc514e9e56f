-- ===== src/Service/Places/Resolve.antt =====
-- internal/service/place.go: `ResolveRef` and `ResolvePoint`. The store's lookups are arguments: a
-- lookup fails, or finds a value or none. The members of a profile's place are read with their
-- types, as they are decoded from JSON.
pub mod Outcome
use mcp_grand_lyon.Base.{is_nil, ℕ, Option, none, some, List, [], ◌∷◌, is_some, if◌then◌else◌, not}
use mcp_grand_lyon.Base.Int.{ℤ, pos, or_default}
use mcp_grand_lyon.Base.Text.{Text, codes, trim_space}
use mcp_grand_lyon.Model.Float.{Float, Point}
use mcp_grand_lyon.Model.Line.{after_prefix}
use mcp_grand_lyon.Model.Names.{Unicode}
use mcp_grand_lyon.Model.PlaceRef.{PlaceRef, PlaceError, Coordinates, validate}
use mcp_grand_lyon.Service.Places.{PlaceCandidate, PlaceSources, search_places}

pub data ResolveError : Type 0 where
  invalid : PlaceError → ResolveError
  place_not_found store_failed : ResolveError

pub data Resolved (A : Type 0) : Type 0 where
  resolved : A → Resolved A
  failed : ResolveError → Resolved A

pub record ProfilePlace (F : Type 0) : Type 0 where
  pub latitude : Option F
  pub longitude : Option F
  pub label : Option Text
  pub address : Option Text

-- `get_entity` and `get_stop` are the lookups by identifier; the outer option is the error.
-- `print_point` is `fmt.Sprintf("%g,%g", …)`.
pub record PlaceStore (F : Type 0) : Type 0 where
  pub get_entity : Text → Option (Option (PlaceCandidate F))
  pub get_stop : Text → Option (Option (PlaceCandidate F))
  pub get_place : Text → Option (Option (ProfilePlace F))
  pub print_point : F → F → Text

abbrev text_or_empty : Option Text → Text
text_or_empty none = []
text_or_empty (some s) = s

module _ (fl : Float) (unicode : Unicode) (coords : Coordinates fl.F) (sources : PlaceSources fl.F)
    (store : PlaceStore fl.F) where
  open fl use {F, literal}

  abbrev Candidates : Type 0
  Candidates = Resolved (List (PlaceCandidate F))

  abbrev candidate_at : Text → Text → Text → F → F → PlaceCandidate F
  candidate_at id name label lat lon = record {
    id = id;
    name = name;
    label = label;
    kind = codes "point_of_interest";
    latitude = lat;
    longitude = lon;
    distance_m = none;
    confidence = literal "1";
  }

  abbrev some_found : List (PlaceCandidate F) → Candidates
  some_found [] = failed place_not_found
  some_found (c ∷ cs) = resolved (c ∷ cs)

  unfoldable pub resolve_query : Text → ℕ → Candidates
  resolve_query query limit = some_found (search_places fl unicode sources query none [] limit).0

  abbrev one_found : Option (Option (PlaceCandidate F)) → Candidates
  one_found none = failed store_failed
  one_found (some none) = failed place_not_found
  one_found (some (some c)) = resolved (c ∷ [])

  abbrev pub or_stop :
      Text → Option (Option (PlaceCandidate F)) → Option (Option (PlaceCandidate F))
  or_stop id none = none
  or_stop id (some (some c)) = some (some c)
  or_stop id (some none) =
      if is_some (after_prefix (codes "gtfs:") id) then store.get_stop id else some none

  unfoldable pub resolve_id : Text → Candidates
  resolve_id id = one_found (or_stop id (store.get_entity id))

  abbrev query_ref : Text → PlaceRef F
  query_ref query = record {
    place_id = [];
    query = query;
    latitude = none;
    longitude = none;
    profile_place = [];
  }

  abbrev checked : Option PlaceError → Candidates → Candidates
  checked none result = result
  checked (some e) result = failed (invalid e)

  -- The call of `ResolveRef` on an address: its reference is a query.
  unfoldable pub resolve_address : Option Text → ℕ → Candidates
  resolve_address none limit = failed place_not_found
  resolve_address (some address) limit =
      if is_nil (trim_space address)
      then failed place_not_found
      else checked (validate coords (query_ref address)) (resolve_query address limit)

  unfoldable pub resolve_profile : Text → ℕ → Option (Option (ProfilePlace F)) → Candidates
  resolve_profile key limit none = failed store_failed
  resolve_profile key limit (some none) = failed place_not_found
  resolve_profile key limit (some (some place)) =
      let label = text_or_empty place.label in
      elim place.latitude [
        | none ↦ resolve_address place.address limit
        | some lat ↦ elim place.longitude [
          | none ↦ resolve_address place.address limit
          | some lon ↦ resolved (candidate_at key label label lat lon ∷ [])
        ]
      ]

  -- A valid reference of no other mode has both coordinates; on one without, Go would panic.
  unfoldable pub resolve_coordinates : Option F → Option F → Candidates
  resolve_coordinates (some lat) (some lon) =
      resolved
        (candidate_at (codes "coord") (codes "Point") (store.print_point lat lon) lat lon ∷ [])
  resolve_coordinates _ _ = failed place_not_found

  unfoldable pub resolve_modes : PlaceRef F → ℕ → Candidates
  resolve_modes ref limit =
      if not (is_nil ref.query)
      then resolve_query ref.query limit
      else if not (is_nil ref.place_id)
      then resolve_id ref.place_id
      else if not (is_nil ref.profile_place)
      then resolve_profile ref.profile_place limit (store.get_place ref.profile_place)
      else resolve_coordinates ref.latitude ref.longitude

  unfoldable pub resolve_ref : PlaceRef F → ℤ → Candidates
  resolve_ref ref limit = checked (validate coords ref) (resolve_modes ref (or_default limit 5))

  abbrev first_point : Candidates → Resolved (Point F)
  first_point (failed e) = failed e
  first_point (resolved []) = failed place_not_found
  first_point (resolved (c ∷ cs)) =
      resolved (record { latitude = c.latitude; longitude = c.longitude })

  abbrev point_or_candidates : PlaceRef F → Option F → Option F → Resolved (Point F)
  point_or_candidates ref (some lat) (some lon) =
      resolved (record { latitude = lat; longitude = lon })
  point_or_candidates ref _ _ = first_point (resolve_ref ref (pos 1))

  abbrev checked_point : Option PlaceError → Resolved (Point F) → Resolved (Point F)
  checked_point none result = result
  checked_point (some e) result = failed (invalid e)

  unfoldable pub resolve_point : PlaceRef F → Resolved (Point F)
  resolve_point ref =
      checked_point (validate coords ref) (point_or_candidates ref ref.latitude ref.longitude)
